-- ===== src/Errors.antt =====
-- crates/core/src/error/mod.rs: the error types, and the tests on them. A `std::io::Error` is
-- kept as its message.
mod Tests
pub mod Classification
pub mod Retry
pub mod Context
pub mod Breaker
use vscfreedev.Base.{
  ℕ, zero, suc, ◌+◌, ◌-◌, ◌*◌, ◌/◌, ◌%◌, ◌^◌, ◌≤◌, ◌<◌, min, max, String, ◌≡◌, refl, sym, ap, subst,
  ◌∙◌, ◌≢◌, ◌↔◌, ◌⊎◌, inl, inr, Bool, true, false, not, ◌&&◌, ◌||◌, Option, none, some, List, [],
  ◌∷◌, ◌++◌, map, arith, ltb, leb, if◌then◌else◌, Eq, ◌==◌, nat_beq, nat_beq_iff, nat_eq, string_eq,
  beq_refl, Bool-cases, Option-cases, length, is_empty, retain, All, every, exists, contains, count,
  without, length-append, length-retain-le, count-append, count-without, length-without-le,
}

pub data SshError : Type 0 where
  key_error host_key_verification channel_creation command_execution binary_upload :
      String → SshError

pub data LocalError : Type 0 where
  binary_not_found binary_not_executable process_spawn process_communication : String → LocalError

pub data TcpError : Type 0 where
  connection_timeout : ℕ → TcpError
  connection_refused tls_error : String → TcpError

pub data WslError : Type 0 where
  not_available : WslError
  distribution_not_found command_execution : String → WslError

pub data TransportError : Type 0 where
  connection_failed authentication_failed : String → TransportError
  not_available : String → String → TransportError
  configuration_error : String → TransportError
  ssh : SshError → TransportError
  local : LocalError → TransportError
  tcp : TcpError → TransportError
  wsl : WslError → TransportError

pub data ProtocolError : Type 0 where
  serialization deserialization : String → ProtocolError
  version_mismatch : String → String → ProtocolError
  invalid_format : String → ProtocolError
  channel_closed : ProtocolError
  timeout : ℕ → ProtocolError
  buffer_overflow : ℕ → ProtocolError

-- An id stands for its text where the source writes `session_id.to_string()`.
pub data SessionError : Type 0 where
  not_found : ℕ → SessionError
  already_exists : String → SessionError
  max_sessions_reached : ℕ → SessionError
  invalid_state : String → String → SessionError
  expired pooling_error : String → SessionError

pub data ConfigError : Type 0 where
  invalid_value : String → String → ConfigError
  missing_required file_error profile_not_found validation_failed : String → ConfigError

pub data ClipboardError : Type 0 where
  read_failed write_failed : String → ClipboardError
  access_denied : ClipboardError
  lock_failed unsupported_format : String → ClipboardError

pub data BrowserError : Type 0 where
  open_failed : String → String → BrowserError
  invalid_url : String → BrowserError
  no_browser_available : BrowserError
  execution_failed : String → BrowserError

pub data AuthError : Type 0 where
  invalid_credentials permission_denied : String → AuthError
  token_expired : AuthError
  method_not_supported : String → AuthError

pub data DaemonError : Type 0 where
  not_running : DaemonError
  already_running : ℕ → DaemonError
  socket_error : String → DaemonError
  client_limit_reached : ℕ → DaemonError
  shutting_down : DaemonError

pub data YuhaError : Type 0 where
  transport : TransportError → YuhaError
  protocol : ProtocolError → YuhaError
  session : SessionError → YuhaError
  config : ConfigError → YuhaError
  io : String → YuhaError
  clipboard : ClipboardError → YuhaError
  browser : BrowserError → YuhaError
  auth : AuthError → YuhaError
  daemon : DaemonError → YuhaError
  internal : String → YuhaError

pub data Result {ℓ} (A : Type ℓ) : Type ℓ where
  ok : A → Result A
  err : YuhaError → Result A

pub Result-cases {ℓ} :
    {A : Type ℓ} (r : Result A) → ((a : A) × (r ≡ ok a)) ⊎ ((e : YuhaError) × (r ≡ err e))
Result-cases (ok a) = inl (a, refl)
Result-cases (err e) = inr (e, refl)

unfoldable pub is_retriable : YuhaError → Bool
is_retriable (transport (TransportError.connection_failed _)) = true
is_retriable (protocol (ProtocolError.timeout _)) = true
is_retriable (protocol ProtocolError.channel_closed) = true
is_retriable (io _) = true
is_retriable (daemon (DaemonError.socket_error _)) = true
is_retriable _ = false

-- The inherent method `YuhaError::category`.
unfoldable pub category : YuhaError → String
category (transport _) = "transport"
category (protocol _) = "protocol"
category (session _) = "session"
category (config _) = "config"
category (io _) = "io"
category (clipboard _) = "clipboard"
category (browser _) = "browser"
category (auth _) = "auth"
category (daemon _) = "daemon"
category (internal _) = "internal"
