-- ===== src/Daemon.antt =====
-- crates/client/src/daemon_protocol.rs: the messages between a client and the daemon. What
-- `{:?}` prints is kept as text.
pub mod Handler
pub mod Server
pub mod Client
use vscfreedev.Base.{
  ℕ, zero, suc, ◌+◌, ◌-◌, ◌*◌, ◌/◌, ◌%◌, ◌^◌, ◌≤◌, ◌<◌, min, max, String, ◌≡◌, refl, sym, ap, subst,
  ◌∙◌, ◌≢◌, ◌↔◌, ◌⊎◌, inl, inr, Bool, true, false, not, ◌&&◌, ◌||◌, Option, none, some, List, [],
  ◌∷◌, ◌++◌, map, arith, ltb, leb, if◌then◌else◌, Eq, ◌==◌, nat_beq, nat_beq_iff, nat_eq, string_eq,
  beq_refl, Bool-cases, Option-cases, length, is_empty, retain, All, every, exists, contains, count,
  without, length-append, length-retain-le, count-append, count-without, length-without-le,
}
use vscfreedev.Base.Table.{Table}
use vscfreedev.Protocol.Bytes.{Bytes}
use vscfreedev.Transport.{TransportConfig}
use vscfreedev.Session.{SessionId}

pub data DaemonCommand : Type 0 where
  get_clipboard : DaemonCommand
  set_clipboard : String → DaemonCommand
  open_browser : String → DaemonCommand
  start_port_forward : ℕ → String → ℕ → DaemonCommand
  stop_port_forward : ℕ → DaemonCommand
  port_forward_data : ℕ → Bytes → DaemonCommand

-- A session is created from a name, a transport configuration, tags and a description.
pub data DaemonRequest : Type 0 where
  ping : DaemonRequest
  create_session : String → TransportConfig → List String → Option String → DaemonRequest
  connect_session : String → TransportConfig → DaemonRequest
  disconnect_session : SessionId → DaemonRequest
  list_sessions : DaemonRequest
  get_session_info : SessionId → DaemonRequest
  execute_command : SessionId → DaemonCommand → DaemonRequest
  shutdown : DaemonRequest

pub record SessionSummary : Type 0 where
  pub id : SessionId
  pub name : String
  pub connection_key : String
  pub status : String
  pub created_at : String
  pub last_used : String
  pub use_count : ℕ

pub record PortForwardInfo : Type 0 where
  pub local_port : ℕ
  pub remote_host : String
  pub remote_port : ℕ
  pub active_connections : ℕ

pub record SessionDetails : Type 0 where
  pub id : SessionId
  pub name : String
  pub transport_config : TransportConfig
  pub status : String
  pub created_at : String
  pub last_used : String
  pub use_count : ℕ
  pub tags : List String
  pub description : Option String
  pub active_port_forwards : List PortForwardInfo

pub data CommandResult : Type 0 where
  clipboard_content : String → CommandResult
  clipboard_set browser_opened port_forward_started port_forward_stopped port_forward_data_sent :
      CommandResult

pub data ErrorCode : Type 0 where
  session_not_found session_already_exists connection_failed command_failed invalid_request
        shutting_down internal_error max_sessions_reached authentication_failed :
      ErrorCode

pub data DaemonResponse : Type 0 where
  pong : DaemonResponse
  session_created : SessionId → Bool → DaemonResponse
  session_disconnected : DaemonResponse
  session_list : List SessionSummary → DaemonResponse
  session_info : SessionDetails → DaemonResponse
  command_success : CommandResult → DaemonResponse
  shutting_down : DaemonResponse
  error : ErrorCode → String → DaemonResponse

pub record DaemonConfig : Type 0 where
  pub socket_path : String
  pub max_clients : ℕ
  pub enable_session_pooling : Bool
  pub session_idle_timeout : ℕ
  pub log_file : Option String
  pub pid_file : Option String
  pub options : Table String String

-- `socket_path` is the path for the platform.
abbrev pub default_config : String → DaemonConfig
default_config socket_path = record {
  socket_path = socket_path;
  max_clients = 10;
  enable_session_pooling = true;
  session_idle_timeout = 300;
  log_file = none;
  pid_file = none;
  options = [];
}
