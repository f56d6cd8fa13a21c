-- ===== src/Daemon/Handler.antt =====
-- crates/client/src/daemon/handler.rs: the daemon's handler of requests, over the session manager
-- (Session/Manager). `now` is the clock during the request and `new_id` the random id of the
-- session that it may create; other requests do not run in between. The client of a session is a
-- placeholder in the code, so a connected client is the entry of the session alone.
pub mod Sound
pub mod Requests
pub mod Conformance
mod Tests
use Prim.Native.String.{◌++◌ as ◌<>◌}
use vscfreedev.Base.{
  ℕ, zero, suc, ◌+◌, ◌-◌, ◌*◌, ◌/◌, ◌%◌, ◌^◌, ◌≤◌, ◌<◌, min, max, String, ◌≡◌, refl, sym, ap, subst,
  ◌∙◌, ◌≢◌, ◌↔◌, ◌⊎◌, inl, inr, Bool, true, false, not, ◌&&◌, ◌||◌, Option, none, some, List, [],
  ◌∷◌, ◌++◌, map, arith, ltb, leb, if◌then◌else◌, Eq, ◌==◌, nat_beq, nat_beq_iff, nat_eq, string_eq,
  beq_refl, Bool-cases, Option-cases, length, is_empty, retain, All, every, exists, contains, count,
  without, length-append, length-retain-le, count-append, count-without, length-without-le,
}
use vscfreedev.Base.Table.{Table, lookup, insert, remove}
use vscfreedev.Errors.{Result, ok, err, YuhaError}
use vscfreedev.Transport.{TransportConfig, connection_key}
use vscfreedev.Session.{
  SessionId, SessionMetadata, SessionStatus, active, idle, connecting, status_beq, session_key,
}
use vscfreedev.Session.Metrics.{Floats}
use vscfreedev.Session.Manager
use vscfreedev.Session.Manager.{Manager}
use vscfreedev.Daemon.{
  DaemonCommand, DaemonRequest, DaemonResponse, CommandResult, ErrorCode, SessionSummary,
  SessionDetails,
}

-- What `Display` and `Debug` print.
pub record Texts : Type 0 where
  pub error_text : YuhaError → String
  pub id_text : SessionId → String
  pub status_text : SessionStatus → String
  pub time_text : ℕ → String

module _ (fl : Floats) (tx : Texts) where
  pub record RequestHandler : Type 0 where
    pub session_manager : Manager fl
    pub active_clients : Table SessionId (Unit {0})

  unfoldable pub new : Manager fl → RequestHandler
  new m = record { session_manager = m; active_clients = [] }

  -- The two status changes of `connect_client`, and the insertion between them.
  activated : RequestHandler → Manager fl × Result (Unit {0}) → RequestHandler × Result (Unit {0})
  activated h (m, result) = (record h { session_manager = m }, result)

  connected :
      RequestHandler
      → ℕ
      → SessionId
      → Manager fl × Result (Unit {0})
      → RequestHandler × Result (Unit {0})
  unfolding activated
  connected h now id (m, err e) = (record h { session_manager = m }, err e)
  connected h now id (m, ok _) =
      activated (record h { session_manager = m; active_clients = insert id tt h.active_clients })
        (Manager.update_session_status fl m now id active)

  unfoldable pub connect_client :
      RequestHandler → ℕ → SessionId → RequestHandler × Result (Unit {0})
  unfolding connected
  connect_client h now id =
      connected h now id (Manager.update_session_status fl h.session_manager now id connecting)

  client_connected :
      ℕ → SessionId → RequestHandler × Result (Unit {0}) → RequestHandler × DaemonResponse
  client_connected now id (h, ok _) = (h, DaemonResponse.session_created id false)
  client_connected now id (h, err e) = (
    record h { session_manager = (Manager.close_session fl h.session_manager now id).0 },
    DaemonResponse.error ErrorCode.connection_failed
        ("Failed to establish connection: " <> tx.error_text e),
  )

  session_made :
      RequestHandler → ℕ → Manager fl × Result SessionId → RequestHandler × DaemonResponse
  unfolding client_connected
  session_made h now (m, ok id) =
      client_connected now id (connect_client (record h { session_manager = m }) now id)
  session_made h now (m, err e) = (
    record h { session_manager = m },
    DaemonResponse.error ErrorCode.max_sessions_reached (tx.error_text e),
  )

  -- The part after the search for a session to reuse.
  create_new :
      RequestHandler
      → ℕ
      → SessionId
      → String
      → TransportConfig
      → List String
      → Option String
      → RequestHandler × DaemonResponse
  unfolding session_made
  create_new h now new_id name tc tags description =
      session_made h now
        (Manager.create_session fl h.session_manager now new_id name tc tags description)

  -- A session to reuse that cannot be used is passed over.
  pub reused_or :
      RequestHandler
      → SessionId
      → Manager fl × Result (Unit {0})
      → (RequestHandler → RequestHandler × DaemonResponse)
      → RequestHandler × DaemonResponse
  reused_or h id (m, ok _) otherwise =
      (record h { session_manager = m }, DaemonResponse.session_created id true)
  reused_or h id (m, err e) otherwise = otherwise (record h { session_manager = m })

  reuse_found :
      RequestHandler
      → ℕ
      → Option SessionId
      → (RequestHandler → RequestHandler × DaemonResponse)
      → RequestHandler × DaemonResponse
  unfolding reused_or
  reuse_found h now none otherwise = otherwise h
  reuse_found h now (some id) otherwise =
      reused_or h id (Manager.use_session fl h.session_manager now id) otherwise

  unfoldable pub handle_create_session :
      RequestHandler
      → ℕ
      → SessionId
      → String
      → TransportConfig
      → List String
      → Option String
      → RequestHandler × DaemonResponse
  unfolding reuse_found create_new
  handle_create_session h now new_id name tc tags description =
      reuse_found h now (Manager.find_reusable_session fl h.session_manager now (connection_key tc))
        (λ h'. create_new h' now new_id name tc tags description)

  -- The loop over the sessions that were listed.
  connect_first :
      RequestHandler
      → ℕ
      → String
      → List SessionMetadata
      → (RequestHandler → RequestHandler × DaemonResponse)
      → RequestHandler × DaemonResponse
  unfolding reused_or
  connect_first h now name [] otherwise = otherwise h
  connect_first h now name (s ∷ rest) otherwise =
      elim (s.name == name && status_beq s.status active) [
        | true ↦
            reused_or h s.id (Manager.use_session fl h.session_manager now s.id)
              (λ h'. connect_first h' now name rest otherwise)
        | false ↦ connect_first h now name rest otherwise
      ]

  unfoldable pub handle_connect_session :
      RequestHandler → ℕ → SessionId → String → TransportConfig → RequestHandler × DaemonResponse
  unfolding connect_first
  handle_connect_session h now new_id name tc =
      connect_first h now name (Manager.list_sessions fl h.session_manager)
        (λ h'. handle_create_session h' now new_id name tc [] none)

  disconnected : RequestHandler → Manager fl × Result (Unit {0}) → RequestHandler × DaemonResponse
  disconnected h (m, ok _) = (record h { session_manager = m }, DaemonResponse.session_disconnected)
  disconnected h (m, err e) = (
    record h { session_manager = m },
    DaemonResponse.error ErrorCode.session_not_found (tx.error_text e),
  )

  unfoldable pub handle_disconnect_session :
      RequestHandler → ℕ → SessionId → RequestHandler × DaemonResponse
  unfolding disconnected
  handle_disconnect_session h now id =
      disconnected (record h { active_clients = remove id h.active_clients })
        (Manager.update_session_status fl h.session_manager now id idle)

  summary : SessionMetadata → SessionSummary
  summary s = record {
    id = s.id;
    name = s.name;
    connection_key = session_key s;
    status = tx.status_text s.status;
    created_at = tx.time_text s.created_at;
    last_used = tx.time_text s.last_used;
    use_count = s.use_count;
  }

  unfoldable pub handle_list_sessions : RequestHandler → DaemonResponse
  unfolding summary
  handle_list_sessions h =
      DaemonResponse.session_list (map summary (Manager.list_sessions fl h.session_manager))

  details : SessionMetadata → SessionDetails
  details s = record {
    id = s.id;
    name = s.name;
    transport_config = s.transport_config;
    status = tx.status_text s.status;
    created_at = tx.time_text s.created_at;
    last_used = tx.time_text s.last_used;
    use_count = s.use_count;
    tags = s.tags;
    description = s.description;
    active_port_forwards = [];
  }

  info_found : SessionId → Option SessionMetadata → DaemonResponse
  unfolding details
  info_found id (some s) = DaemonResponse.session_info (details s)
  info_found id none =
      DaemonResponse.error ErrorCode.session_not_found
        ("Session " <> (tx.id_text id <> " not found"))

  unfoldable pub handle_get_session_info : RequestHandler → SessionId → DaemonResponse
  unfolding info_found
  handle_get_session_info h id = info_found id (Manager.get_session fl h.session_manager id)

  -- `execute_command_on_client`, which stands for the commands and never fails.
  pub command_result : DaemonCommand → CommandResult
  command_result DaemonCommand.get_clipboard =
      CommandResult.clipboard_content "Clipboard content placeholder"
  command_result (DaemonCommand.set_clipboard content) = CommandResult.clipboard_set
  command_result (DaemonCommand.open_browser url) = CommandResult.browser_opened
  command_result (DaemonCommand.start_port_forward local_port host port) =
      CommandResult.port_forward_started
  command_result (DaemonCommand.stop_port_forward local_port) = CommandResult.port_forward_stopped
  command_result (DaemonCommand.port_forward_data id bytes) = CommandResult.port_forward_data_sent

  -- Whether marking the session as used succeeds makes no difference to the response.
  command_executed :
      RequestHandler
      → ℕ
      → SessionId
      → DaemonCommand
      → Option (Unit {0})
      → RequestHandler × DaemonResponse
  unfolding command_result
  command_executed h now id command none = (
    h,
    DaemonResponse.error ErrorCode.session_not_found
        ("Session " <> (tx.id_text id <> " not connected")),
  )
  command_executed h now id command (some _) = (
    record h { session_manager = (Manager.use_session fl h.session_manager now id).0 },
    DaemonResponse.command_success (command_result command),
  )

  unfoldable pub handle_execute_command :
      RequestHandler → ℕ → SessionId → DaemonCommand → RequestHandler × DaemonResponse
  unfolding command_executed
  handle_execute_command h now id command =
      command_executed h now id command (lookup id h.active_clients)

  unfoldable pub handle_request :
      RequestHandler → ℕ → SessionId → DaemonRequest → RequestHandler × DaemonResponse
  handle_request h now new_id DaemonRequest.ping = (h, DaemonResponse.pong)
  handle_request h now new_id (DaemonRequest.create_session name tc tags description) =
      handle_create_session h now new_id name tc tags description
  handle_request h now new_id (DaemonRequest.connect_session name tc) =
      handle_connect_session h now new_id name tc
  handle_request h now new_id (DaemonRequest.disconnect_session id) =
      handle_disconnect_session h now id
  handle_request h now new_id DaemonRequest.list_sessions = (h, handle_list_sessions h)
  handle_request h now new_id (DaemonRequest.get_session_info id) =
      (h, handle_get_session_info h id)
  handle_request h now new_id (DaemonRequest.execute_command id command) =
      handle_execute_command h now id command
  handle_request h now new_id DaemonRequest.shutdown = (h, DaemonResponse.shutting_down)
