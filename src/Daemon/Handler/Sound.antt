-- ===== src/Daemon/Handler/Sound.antt =====
-- Each request leaves the daemon's session manager sound (crates/client/src/daemon/handler.rs).
use vscfreedev.Base.{
  ℕ, String, ◌≡◌, refl, ◌⊎◌, inl, inr, true, ◌&&◌, Option, none, some, List, [], ◌∷◌, ◌==◌, nat_eq,
  string_eq, Bool-cases,
}
use vscfreedev.Base.Table.{insert, remove}
use vscfreedev.Errors.{Result, ok, err}
use vscfreedev.Transport.{TransportConfig, connection_key}
use vscfreedev.Session.{SessionId, SessionMetadata, active, idle, status_beq}
use vscfreedev.Session.Registry.{get}
use vscfreedev.Session.Metrics.{Floats}
use vscfreedev.Session.Manager
use vscfreedev.Session.Manager.{Manager}
use vscfreedev.Session.Manager.Status.{IsSound, update_session_status-IsSound}
use vscfreedev.Session.Manager.Methods.{use_session-IsSound, close_session-IsSound}
use vscfreedev.Session.Manager.Steps.{create_session-IsSound}
use vscfreedev.Session.Manager.Reuse.{use_session-cases}
use vscfreedev.Daemon.{DaemonRequest, DaemonResponse, DaemonCommand}
use vscfreedev.Daemon.Handler.{
  Texts, RequestHandler, activated, connected, connect_client, client_connected, session_made,
  create_new, reused_or, reuse_found, handle_create_session, connect_first, handle_connect_session,
  disconnected, handle_disconnect_session, command_executed, handle_execute_command, handle_request,
  status_beq, active,
}

module _ (fl : Floats) (tx : Texts) where
  abbrev pub Handler : Type 0
  Handler = RequestHandler fl tx

  abbrev pub Continuation : Type 0
  Continuation = Handler → Handler × DaemonResponse

  activated-IsSound :
      (h : Handler) (p : Manager fl × Result (Unit {0}))
      → IsSound fl p.0
      → IsSound fl (activated fl tx h p).0.session_manager
  unfolding activated
  activated-IsSound h (m, result) v = v

  connected-IsSound :
      (h : Handler) (now : ℕ) (id : SessionId) (p : Manager fl × Result (Unit {0}))
      → IsSound fl p.0
      → IsSound fl (connected fl tx h now id p).0.session_manager
  unfolding connected
  connected-IsSound h now id (m, err e) v = v
  connected-IsSound h now id (m, ok _) v =
      activated-IsSound
        (record h { session_manager = m; active_clients = insert id tt h.active_clients })
        (Manager.update_session_status fl m now id active)
        (update_session_status-IsSound m now id _ v)

  connect_client-IsSound :
      (h : Handler) (now : ℕ) (id : SessionId)
      → IsSound fl h.session_manager
      → IsSound fl (connect_client fl tx h now id).0.session_manager
  unfolding connect_client
  connect_client-IsSound h now id v =
      connected-IsSound h now id _ (update_session_status-IsSound h.session_manager now id _ v)

  client_connected-IsSound :
      (now : ℕ) (id : SessionId) (p : Handler × Result (Unit {0}))
      → IsSound fl p.0.session_manager
      → IsSound fl (client_connected fl tx now id p).0.session_manager
  unfolding client_connected
  client_connected-IsSound now id (h, ok _) v = v
  client_connected-IsSound now id (h, err e) v = close_session-IsSound h.session_manager now id v

  session_made-IsSound :
      (h : Handler) (now : ℕ) (p : Manager fl × Result SessionId)
      → IsSound fl p.0
      → IsSound fl (session_made fl tx h now p).0.session_manager
  unfolding session_made
  session_made-IsSound h now (m, ok id) v =
      client_connected-IsSound now id _ (connect_client-IsSound _ now id v)
  session_made-IsSound h now (m, err e) v = v

  create_new-IsSound :
      (h : Handler) (now : ℕ) (new_id : SessionId) (name : String) (tc : TransportConfig)
      (tags : List String) (description : Option String)
      → IsSound fl h.session_manager
      → get h.session_manager.registry new_id ≡ none
      → IsSound fl (create_new fl tx h now new_id name tc tags description).0.session_manager
  unfolding create_new
  create_new-IsSound h now new_id name tc tags description v fresh =
      session_made-IsSound h now _
        (create_session-IsSound h.session_manager now new_id name tc tags description v fresh)

  pub used_up :
      (h : Handler) (id : SessionId) (otherwise : Continuation) (p : Manager fl × Result (Unit {0}))
      → p.1 ≡ ok tt
      → reused_or fl tx h id p otherwise
        ≡ (record h { session_manager = p.0 }, DaemonResponse.session_created id true)
  unfolding reused_or
  used_up h id otherwise (m, ok _) e = refl
  used_up h id otherwise (m, err x) e = cc

  -- A session is used, and the response says so; or it is gone, and the rest goes on unchanged.
  pub reused_or-cases :
      (h : Handler) (now : ℕ) (id : SessionId) (otherwise : Continuation)
      → (reused_or fl tx h id (Manager.use_session fl h.session_manager now id) otherwise ≡ (
        record h { session_manager = (Manager.use_session fl h.session_manager now id).0 },
        DaemonResponse.session_created id true,
      ))
        ⊎ ((get h.session_manager.registry id ≡ none)
            × (reused_or fl tx h id (Manager.use_session fl h.session_manager now id) otherwise
                ≡ otherwise h))
  unfolding reused_or
  reused_or-cases h now id otherwise = elim (use_session-cases h.session_manager now id) [
    | inl done ↦ inl (used_up h id otherwise _ done)
    | inr (gone, missing) ↦ inr (gone, rw missing refl)
  ]

  reused_or-IsSound :
      (h : Handler) (now : ℕ) (id : SessionId) (otherwise : Continuation)
      → IsSound fl h.session_manager
      → IsSound fl (otherwise h).0.session_manager
      → IsSound fl
          (reused_or fl tx h id
            (Manager.use_session fl h.session_manager now id)
            otherwise).0.session_manager
  reused_or-IsSound h now id otherwise v w = elim (reused_or-cases h now id otherwise) [
    | inl e ↦ rw e (use_session-IsSound h.session_manager now id v)
    | inr (_, e) ↦ rw e w
  ]

  reuse_found-IsSound :
      (h : Handler) (now : ℕ) (o : Option SessionId) (otherwise : Continuation)
      → IsSound fl h.session_manager
      → IsSound fl (otherwise h).0.session_manager
      → IsSound fl (reuse_found fl tx h now o otherwise).0.session_manager
  unfolding reuse_found
  reuse_found-IsSound h now none otherwise v w = w
  reuse_found-IsSound h now (some id) otherwise v w = reused_or-IsSound h now id otherwise v w

  handle_create_session-IsSound :
      (h : Handler) (now : ℕ) (new_id : SessionId) (name : String) (tc : TransportConfig)
      (tags : List String) (description : Option String)
      → IsSound fl h.session_manager
      → get h.session_manager.registry new_id ≡ none
      → IsSound fl
          (handle_create_session fl tx h now new_id name tc tags description).0.session_manager
  unfolding handle_create_session
  handle_create_session-IsSound h now new_id name tc tags description v fresh =
      reuse_found-IsSound h now
        (Manager.find_reusable_session fl h.session_manager now (connection_key tc))
        (λ h'. create_new fl tx h' now new_id name tc tags description) v
        (create_new-IsSound h now new_id name tc tags description v fresh)

  connect_first-IsSound :
      (h : Handler) (now : ℕ) (name : String) (ss : List SessionMetadata) (otherwise : Continuation)
      → IsSound fl h.session_manager
      → IsSound fl (otherwise h).0.session_manager
      → IsSound fl (connect_first fl tx h now name ss otherwise).0.session_manager
  unfolding connect_first
  connect_first-IsSound h now name [] otherwise v w = w
  connect_first-IsSound h now name (s ∷ rest) otherwise v w =
      let rest' = connect_first-IsSound h now name rest otherwise v w in
      elim (Bool-cases (s.name == name && status_beq s.status active)) [
        | inl yes' ↦ rw (connect_first, yes') (reused_or-IsSound h now s.id _ v rest')
        | inr no' ↦ rw (connect_first, no') rest'
      ]

  disconnected-IsSound :
      (h : Handler) (p : Manager fl × Result (Unit {0}))
      → IsSound fl p.0
      → IsSound fl (disconnected fl tx h p).0.session_manager
  unfolding disconnected
  disconnected-IsSound h (m, ok _) v = v
  disconnected-IsSound h (m, err e) v = v

  command_executed-IsSound :
      (h : Handler) (now : ℕ) (id : SessionId) (c : DaemonCommand) (o : Option (Unit {0}))
      → IsSound fl h.session_manager
      → IsSound fl (command_executed fl tx h now id c o).0.session_manager
  unfolding command_executed
  command_executed-IsSound h now id c none v = v
  command_executed-IsSound h now id c (some _) v = use_session-IsSound h.session_manager now id v

  -- Whatever the request, a handler whose session manager is sound is left with a sound one, if
  -- the random id of the session that the request may create is not in use.
  pub handle_request-IsSound :
      (h : Handler) (now : ℕ) (new_id : SessionId) (q : DaemonRequest)
      → IsSound fl h.session_manager
      → get h.session_manager.registry new_id ≡ none
      → IsSound fl (handle_request fl tx h now new_id q).0.session_manager
  unfolding handle_request handle_connect_session handle_disconnect_session handle_execute_command
  handle_request-IsSound h now new_id DaemonRequest.ping v fresh = v
  handle_request-IsSound h now new_id (DaemonRequest.create_session name tc tags d) v fresh =
      handle_create_session-IsSound h now new_id name tc tags d v fresh
  handle_request-IsSound h now new_id (DaemonRequest.connect_session name tc) v fresh =
      connect_first-IsSound h now name (Manager.list_sessions fl h.session_manager)
        (λ h'. handle_create_session fl tx h' now new_id name tc [] none) v
        (handle_create_session-IsSound h now new_id name tc [] none v fresh)
  handle_request-IsSound h now new_id (DaemonRequest.disconnect_session id) v fresh =
      disconnected-IsSound (record h { active_clients = remove id h.active_clients })
        (Manager.update_session_status fl h.session_manager now id idle)
        (update_session_status-IsSound h.session_manager now id idle v)
  handle_request-IsSound h now new_id DaemonRequest.list_sessions v fresh = v
  handle_request-IsSound h now new_id (DaemonRequest.get_session_info id) v fresh = v
  handle_request-IsSound h now new_id (DaemonRequest.execute_command id c) v fresh =
      command_executed-IsSound h now id c _ v
  handle_request-IsSound h now new_id DaemonRequest.shutdown v fresh = v
