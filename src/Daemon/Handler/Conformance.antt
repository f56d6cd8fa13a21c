-- ===== src/Daemon/Handler/Conformance.antt =====
-- The daemon's answers and what the client of the daemon expects of them
-- (crates/client/src/daemon/handler.rs and daemon_client.rs).
use vscfreedev.Base.{
  ℕ, String, ◌≡◌, refl, inl, inr, Bool, true, false, ◌&&◌, Option, none, some, List, [], ◌∷◌, ◌==◌,
  nat_eq, string_eq, Bool-cases,
}
use vscfreedev.Base.Table.{remove}
use vscfreedev.Errors.{Result, ok, err}
use vscfreedev.Transport.{TransportConfig}
use vscfreedev.Session.{SessionId, SessionMetadata, active, idle, status_beq}
use vscfreedev.Session.Metrics.{Floats}
use vscfreedev.Session.Manager
use vscfreedev.Session.Manager.{Manager}
use vscfreedev.Daemon.{DaemonRequest, DaemonResponse, DaemonCommand}
use vscfreedev.Daemon.Client.{
  ClientError, ClientResult, success, failure, handle_daemon_response, ping_result, created_result,
  disconnected_result, sessions_result, details_result, executed_result, shutdown_result,
}
use vscfreedev.Daemon.Handler.{
  Texts, RequestHandler, handle_request, handle_create_session, handle_connect_session,
  handle_disconnect_session, handle_list_sessions, handle_get_session_info, handle_execute_command,
  client_connected, session_made, create_new, reused_or, reuse_found, connect_first, disconnected,
  info_found, command_executed,
}

-- A result, or an error that the daemon reports.
abbrev pub understood : {A : Type 0} → ClientResult A → Bool
understood (success a) = true
understood (failure (ClientError.daemon_error code message)) = true
understood (failure _) = false

abbrev pub alive : ClientResult Bool → Bool
alive (success b) = b
alive (failure e) = false

-- Whether the client's operation for a request makes sense of a response.
abbrev pub understands : DaemonRequest → DaemonResponse → Bool
understands DaemonRequest.ping r = alive (ping_result r)
understands (DaemonRequest.create_session name tc tags d) r = understood (created_result r)
understands (DaemonRequest.connect_session name tc) r = understood (created_result r)
understands (DaemonRequest.disconnect_session id) r = understood (disconnected_result r)
understands DaemonRequest.list_sessions r = understood (sessions_result r)
understands (DaemonRequest.get_session_info id) r = understood (details_result r)
understands (DaemonRequest.execute_command id c) r = understood (executed_result r)
understands DaemonRequest.shutdown r = understood (shutdown_result r)

module _ (fl : Floats) (tx : Texts) where
  abbrev Handler : Type 0
  Handler = RequestHandler fl tx

  abbrev Created : Handler × DaemonResponse → Type 0
  Created p = understood (created_result p.1) ≡ true

  client_connected-Created :
      (now : ℕ) (id : SessionId) (p : Handler × Result (Unit {0}))
      → Created (client_connected fl tx now id p)
  unfolding client_connected created_result handle_daemon_response
  client_connected-Created now id (h, ok _) = refl
  client_connected-Created now id (h, err e) = refl

  session_made-Created :
      (h : Handler) (now : ℕ) (p : Manager fl × Result SessionId)
      → Created (session_made fl tx h now p)
  unfolding session_made created_result handle_daemon_response
  session_made-Created h now (m, ok id) = client_connected-Created now id _
  session_made-Created h now (m, err e) = refl

  reused_or-Created :
      (h : Handler) (id : SessionId) (p : Manager fl × Result (Unit {0}))
      (otherwise : Handler → Handler × DaemonResponse)
      → ((h' : Handler) → Created (otherwise h'))
      → Created (reused_or fl tx h id p otherwise)
  unfolding reused_or created_result handle_daemon_response
  reused_or-Created h id (m, ok _) otherwise f = refl
  reused_or-Created h id (m, err e) otherwise f = f (record h { session_manager = m })

  reuse_found-Created :
      (h : Handler) (now : ℕ) (o : Option SessionId)
      (otherwise : Handler → Handler × DaemonResponse)
      → ((h' : Handler) → Created (otherwise h'))
      → Created (reuse_found fl tx h now o otherwise)
  unfolding reuse_found
  reuse_found-Created h now none otherwise f = f h
  reuse_found-Created h now (some id) otherwise f = reused_or-Created h id _ otherwise f

  create-Created :
      (h : Handler) (now : ℕ) (new_id : SessionId) (name : String) (tc : TransportConfig)
      (tags : List String) (d : Option String)
      → Created (handle_create_session fl tx h now new_id name tc tags d)
  unfolding handle_create_session create_new
  create-Created h now new_id name tc tags d =
      reuse_found-Created h now _ (λ h'. create_new fl tx h' now new_id name tc tags d)
        (λ h'. session_made-Created h' now _)

  connect_first-Created :
      (h : Handler) (now : ℕ) (name : String) (ss : List SessionMetadata)
      (otherwise : Handler → Handler × DaemonResponse)
      → ((h' : Handler) → Created (otherwise h'))
      → Created (connect_first fl tx h now name ss otherwise)
  unfolding connect_first
  connect_first-Created h now name [] otherwise f = f h
  connect_first-Created h now name (s ∷ rest) otherwise f =
      elim (Bool-cases (s.name == name && status_beq s.status active)) [
        | inl yes' ↦
            rw (connect_first, yes')
              (reused_or-Created h s.id _ (λ h'. connect_first fl tx h' now name rest otherwise)
                (λ h'. connect_first-Created h' now name rest otherwise f))
        | inr no' ↦ rw (connect_first, no') (connect_first-Created h now name rest otherwise f)
      ]

  disconnected-understood :
      (h : Handler) (p : Manager fl × Result (Unit {0}))
      → understood (disconnected_result (disconnected fl tx h p).1) ≡ true
  unfolding disconnected disconnected_result handle_daemon_response
  disconnected-understood h (m, ok _) = refl
  disconnected-understood h (m, err e) = refl

  info_found-understood :
      (id : SessionId) (o : Option SessionMetadata)
      → understood (details_result (info_found fl tx id o)) ≡ true
  unfolding info_found details_result handle_daemon_response
  info_found-understood id none = refl
  info_found-understood id (some s) = refl

  command_executed-understood :
      (h : Handler) (now : ℕ) (id : SessionId) (c : DaemonCommand) (o : Option (Unit {0}))
      → understood (executed_result (command_executed fl tx h now id c o).1) ≡ true
  unfolding command_executed executed_result handle_daemon_response
  command_executed-understood h now id c none = refl
  command_executed-understood h now id c (some _) = refl

  -- Whatever the handler's state and the request, the client's operation for the request makes sense
  -- of the answer: it gives its result or the daemon's error, never an unexpected response, and a
  -- ping finds the daemon alive.
  pub handle_request-understood :
      (h : Handler) (now : ℕ) (new_id : SessionId) (q : DaemonRequest)
      → understands q (handle_request fl tx h now new_id q).1 ≡ true
  unfolding handle_request handle_connect_session handle_disconnect_session handle_list_sessions
      handle_get_session_info handle_execute_command ping_result sessions_result shutdown_result
      handle_daemon_response
  handle_request-understood h now new_id DaemonRequest.ping = refl
  handle_request-understood h now new_id (DaemonRequest.create_session name tc tags d) =
      create-Created h now new_id name tc tags d
  handle_request-understood h now new_id (DaemonRequest.connect_session name tc) =
      connect_first-Created h now name _
        (λ h'. handle_create_session fl tx h' now new_id name tc [] none)
        (λ h'. create-Created h' now new_id name tc [] none)
  handle_request-understood h now new_id (DaemonRequest.disconnect_session id) =
      disconnected-understood (record h { active_clients = remove id h.active_clients })
        (Manager.update_session_status fl h.session_manager now id idle)
  handle_request-understood h now new_id DaemonRequest.list_sessions = refl
  handle_request-understood h now new_id (DaemonRequest.get_session_info id) =
      info_found-understood id _
  handle_request-understood h now new_id (DaemonRequest.execute_command id c) =
      command_executed-understood h now id c _
  handle_request-understood h now new_id DaemonRequest.shutdown = refl
