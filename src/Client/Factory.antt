-- ===== src/Client/Factory.antt =====
-- crates/client/src/transport_factory.rs, with the transports' configurations of
-- crates/client/src/transport/: a transport of the client from a transport configuration.
pub mod Created
mod Tests
use vscfreedev.Base.{
  ℕ, zero, suc, ◌+◌, ◌-◌, ◌*◌, ◌/◌, ◌%◌, ◌^◌, ◌≤◌, ◌<◌, min, max, String, ◌≡◌, refl, sym, ap, subst,
  ◌∙◌, ◌≢◌, ◌↔◌, ◌⊎◌, inl, inr, Bool, true, false, not, ◌&&◌, ◌||◌, Option, none, some, List, [],
  ◌∷◌, ◌++◌, map, arith, ltb, leb, if◌then◌else◌, Eq, ◌==◌, nat_beq, nat_beq_iff, nat_eq, string_eq,
  beq_refl, Bool-cases, Option-cases, length, is_empty, retain, All, every, exists, contains, count,
  without, length-append, length-retain-le, count-append, count-without, length-without-le,
}
use vscfreedev.Base.Anyhow.{Fallible, returns, fails}
use vscfreedev.Base.Table.{Table}
use vscfreedev.Transport.{
  TransportType, ssh, local, tcp, wsl, TransportConfig, SshConfig, LocalConfig, TcpConfig,
  WslConfig, GeneralConfig, Platform, unwrap_or,
}
use vscfreedev.Session.{secs}

-- The client's own `TransportConfig`.
pub record ConnectionConfig : Type 0 where
  pub remote_binary_path : Option String
  pub auto_upload_binary : Bool
  pub env_vars : Table String String
  pub working_dir : Option String

pub record LocalTransport : Type 0 where
  pub binary_path : String
  pub args : List String
  pub transport_config : ConnectionConfig

pub record SshTransport : Type 0 where
  pub host : String
  pub port : ℕ
  pub username : String
  pub password : Option String
  pub key_path : Option String
  pub transport_config : ConnectionConfig

pub record TcpTransport : Type 0 where
  pub host : String
  pub port : ℕ
  pub connection_timeout : ℕ
  pub keepalive : Bool
  pub transport_config : ConnectionConfig

pub record WslTransport : Type 0 where
  pub distribution : Option String
  pub user : Option String
  pub binary_path : String
  pub working_dir : Option String
  pub transport_config : ConnectionConfig

pub data AnyTransport : Type 0 where
  local_transport : LocalTransport → AnyTransport
  ssh_transport : SshTransport → AnyTransport
  tcp_transport : TcpTransport → AnyTransport
  wsl_transport : WslTransport → AnyTransport

connection_config : GeneralConfig → Bool → Option String → ConnectionConfig
connection_config g auto_upload_binary working_dir = record {
  remote_binary_path = g.remote_binary_path;
  auto_upload_binary = auto_upload_binary;
  env_vars = g.env_vars;
  working_dir = working_dir;
}

create_local_transport : GeneralConfig → Option LocalConfig → Fallible LocalTransport
unfolding connection_config
create_local_transport g none = fails "Local transport configuration is required"
create_local_transport g (some c) = returns (record {
  binary_path = c.binary_path;
  args = c.args;
  transport_config = connection_config g false c.working_dir;
})

create_ssh_transport : GeneralConfig → Option SshConfig → Fallible SshTransport
unfolding connection_config
create_ssh_transport g none = fails "SSH transport configuration is required"
create_ssh_transport g (some c) = returns (record {
  host = c.host;
  port = c.port;
  username = c.username;
  password = c.password;
  key_path = c.key_path;
  transport_config = connection_config g c.auto_upload_binary none;
})

-- Times are in nanoseconds.
create_tcp_transport : GeneralConfig → Option TcpConfig → Fallible TcpTransport
unfolding connection_config
create_tcp_transport g none = fails "TCP transport configuration is required"
create_tcp_transport g (some c) = returns (record {
  host = c.host;
  port = c.port;
  connection_timeout = secs c.time_out;
  keepalive = true;
  transport_config = connection_config g false none;
})

create_wsl_transport : GeneralConfig → Option WslConfig → Fallible WslTransport
unfolding connection_config
create_wsl_transport g none = fails "WSL transport configuration is required"
create_wsl_transport g (some c) = returns (record {
  distribution = c.distribution;
  user = c.user;
  binary_path = unwrap_or c.binary_path "yuha-remote";
  working_dir = c.working_dir;
  transport_config = connection_config g false c.working_dir;
})

as_any {ℓ} : {A : Type ℓ} → (A → AnyTransport) → Fallible A → Fallible AnyTransport
as_any any (returns t) = returns (any t)
as_any any (fails e) = fails e

create_as : TransportConfig → TransportType → Fallible AnyTransport
unfolding as_any create_local_transport create_ssh_transport create_tcp_transport
    create_wsl_transport
create_as c local = as_any local_transport (create_local_transport c.general c.local_config)
create_as c ssh = as_any ssh_transport (create_ssh_transport c.general c.ssh_config)
create_as c tcp = as_any tcp_transport (create_tcp_transport c.general c.tcp_config)
create_as c wsl = as_any wsl_transport (create_wsl_transport c.general c.wsl_config)

unfoldable pub create_transport : TransportConfig → Fallible AnyTransport
unfolding create_as
create_transport c = create_as c c.transport_type

-- `wsl_works` is whether `wsl --version` runs.
unfoldable pub auto_detect_transport : Platform → Bool → TransportType
auto_detect_transport p wsl_works = if p.windows && wsl_works then wsl else local

unfoldable pub supported_transports : Platform → List TransportType
supported_transports p = local ∷ ssh ∷ tcp ∷ (if p.windows then wsl ∷ [] else [])
