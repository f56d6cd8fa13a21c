-- ===== src/Transport.antt =====
-- crates/core/src/transport/mod.rs and types.rs: the transport configuration, its validation and
-- its connection key. A path is its text; what the file system and the build target answer is a
-- `Platform`.
mod Tests
mod Types
pub mod Validation
pub mod Builder
use Prim.Native.String.{◌++◌}
use vscfreedev.Base.{
  ℕ, zero, suc, ◌+◌, ◌-◌, ◌*◌, ◌/◌, ◌%◌, ◌^◌, ◌≤◌, ◌<◌, min, max, String, ◌≡◌, refl, sym, ap, subst,
  ◌∙◌, ◌≢◌, ◌↔◌, ◌⊎◌, inl, inr, Bool, true, false, not, ◌&&◌, ◌||◌, Option, none, some, List, [],
  ◌∷◌, map, arith, ltb, leb, if◌then◌else◌, Eq, ◌==◌, nat_beq, nat_beq_iff, nat_eq, string_eq,
  beq_refl, Bool-cases, Option-cases, length, is_empty, retain, All, every, exists, contains, count,
  without, length-append, length-retain-le, count-append, count-without, length-without-le,
}
use vscfreedev.Base.Table.{Table}
use vscfreedev.Errors.{Result, ok, err, YuhaError, TransportError}
use vscfreedev.Errors
pub use Types.{TransportType, ssh, local, tcp, wsl, ConnectionState, TransportCapabilities}
unfoldable pub use Types.{for_transport_type}

pub record SshConfig : Type 0 where
  pub host : String
  pub port : ℕ
  pub username : String
  pub password : Option String
  pub key_path : Option String
  pub auto_upload_binary : Bool
  pub time_out : ℕ
  pub keepalive : ℕ

pub record LocalConfig : Type 0 where
  pub binary_path : String
  pub args : List String
  pub working_dir : Option String

pub record TlsConfig : Type 0 where
  pub enabled : Bool
  pub verify_cert : Bool
  pub client_cert : Option String
  pub client_key : Option String
  pub ca_cert : Option String

pub record TcpConfig : Type 0 where
  pub host : String
  pub port : ℕ
  pub time_out : ℕ
  pub tls : Option TlsConfig

pub record WslConfig : Type 0 where
  pub distribution : Option String
  pub user : Option String
  pub binary_path : Option String
  pub working_dir : Option String

pub record GeneralConfig : Type 0 where
  pub max_retries : ℕ
  pub retry_delay : ℕ
  pub env_vars : Table String String
  pub remote_binary_path : Option String

pub record TransportConfig : Type 0 where
  pub transport_type : TransportType
  pub ssh_config : Option SshConfig
  pub local_config : Option LocalConfig
  pub tcp_config : Option TcpConfig
  pub wsl_config : Option WslConfig
  pub general : GeneralConfig

abbrev pub default_local : LocalConfig
default_local = record { binary_path = "yuha-remote"; args = "--stdio" ∷ []; working_dir = none }

abbrev pub default_general : GeneralConfig
default_general = record {
  max_retries = 3;
  retry_delay = 1000;
  env_vars = [];
  remote_binary_path = none;
}

abbrev pub default_tls : TlsConfig
default_tls = record {
  enabled = false;
  verify_cert = true;
  client_cert = none;
  client_key = none;
  ca_cert = none;
}

abbrev pub default_config : TransportConfig
default_config = record {
  transport_type = local;
  ssh_config = none;
  local_config = some default_local;
  tcp_config = none;
  wsl_config = none;
  general = default_general;
}

abbrev pub unwrap_or {ℓ} : {A : Type ℓ} → Option A → A → A
unwrap_or none a = a
unwrap_or (some b) a = b

digit : ℕ → String
digit n =
    if n == 0
    then "0"
    else if n == 1
    then "1"
    else if n == 2
    then "2"
    else if n == 3
    then "3"
    else if n == 4
    then "4"
    else if n == 5
    then "5"
    else if n == 6
    then "6"
    else if n == 7
    then "7"
    else if n == 8
    then "8"
    else "9"

decimal_fuel : ℕ → ℕ → String
decimal_fuel zero n = ""
decimal_fuel (suc f) n =
    let front = decimal_fuel f (n / 10) in if ltb n 10 then digit n else front ++ digit (n % 10)

-- A number in a format string; twenty digits hold a `u64`.
pub decimal : ℕ → String
unfolding digit decimal_fuel
decimal n = decimal_fuel 20 n

ssh_key : Option SshConfig → String
ssh_key none = "ssh://unknown"
ssh_key (some c) = "ssh://" ++ (c.username ++ ("@" ++ (c.host ++ (":" ++ decimal c.port))))

local_key : Option LocalConfig → String
local_key none = "local://unknown"
local_key (some c) = "local://" ++ c.binary_path

tls_enabled : Option TlsConfig → Bool
tls_enabled none = false
tls_enabled (some t) = t.enabled

tcp_key : Option TcpConfig → String
unfolding tls_enabled
tcp_key none = "tcp://unknown"
tcp_key (some c) =
    (if tls_enabled c.tls then "tcps" else "tcp") ++ ("://" ++ (c.host ++ (":" ++ decimal c.port)))

wsl_key : Option WslConfig → String
wsl_key none = "wsl://default"
wsl_key (some c) =
    "wsl://" ++ (unwrap_or c.user "default" ++ ("@" ++ unwrap_or c.distribution "default"))

key_of : TransportConfig → TransportType → String
unfolding ssh_key local_key tcp_key wsl_key
key_of c ssh = ssh_key c.ssh_config
key_of c local = local_key c.local_config
key_of c tcp = tcp_key c.tcp_config
key_of c wsl = wsl_key c.wsl_config

unfoldable pub connection_key : TransportConfig → String
unfolding key_of decimal
connection_key c = key_of c c.transport_type

pub record Platform : Type 0 where
  pub windows : Bool
  pub file_exists : String → Bool

abbrev refuse : String → Result (Unit {0})
refuse reason = err (Errors.YuhaError.transport (TransportError.configuration_error reason))

abbrev is_none {ℓ} : {A : Type ℓ} → Option A → Bool
is_none none = true
is_none (some a) = false

abbrev is_empty_text : String → Bool
is_empty_text s = s == ""

validate_ssh : Option SshConfig → Result (Unit {0})
validate_ssh none = refuse "SSH transport requires SSH configuration"
validate_ssh (some c) =
    if is_empty_text c.host
    then refuse "SSH host cannot be empty"
    else if is_empty_text c.username
    then refuse "SSH username cannot be empty"
    else if is_none c.password && is_none c.key_path
    then refuse "SSH transport requires either password or key authentication"
    else ok tt

validate_local : Platform → Option LocalConfig → Result (Unit {0})
validate_local p none = refuse "Local transport requires local configuration"
validate_local p (some c) =
    if p.file_exists c.binary_path
    then ok tt
    else refuse ("Local binary not found: " ++ c.binary_path)

validate_tcp : Option TcpConfig → Result (Unit {0})
validate_tcp none = refuse "TCP transport requires TCP configuration"
validate_tcp (some c) =
    if is_empty_text c.host
    then refuse "TCP host cannot be empty"
    else if c.port == 0
    then refuse "TCP port cannot be 0"
    else ok tt

validate_wsl : Platform → Result (Unit {0})
validate_wsl p =
    if p.windows
    then ok tt
    else err (
        Errors.YuhaError.transport
          (TransportError.not_available "WSL" "WSL is only available on Windows"))

validate_as : Platform → TransportConfig → TransportType → Result (Unit {0})
unfolding validate_ssh validate_local validate_tcp validate_wsl
validate_as p c ssh = validate_ssh c.ssh_config
validate_as p c local = validate_local p c.local_config
validate_as p c tcp = validate_tcp c.tcp_config
validate_as p c wsl = validate_wsl p

unfoldable pub validate : Platform → TransportConfig → Result (Unit {0})
unfolding validate_as
validate p c = validate_as p c c.transport_type

available_as : Platform → TransportType → Bool
available_as p wsl = p.windows
available_as p _ = true

unfoldable pub is_available : Platform → TransportConfig → Bool
unfolding available_as
is_available p c = available_as p c.transport_type
