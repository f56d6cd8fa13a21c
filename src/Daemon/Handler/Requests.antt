-- ===== src/Daemon/Handler/Requests.antt =====
-- What the daemon answers to a request for a session
-- (crates/client/src/daemon/handler.rs).
use Prim.Native.String.{◌++◌ as ◌<>◌}
use vscfreedev.Base.{
  ℕ, String, ◌≡◌, refl, ◌⊎◌, inl, inr, true, false, Option, none, some, List, arith, if◌then◌else◌,
  ◌==◌, nat_eq, string_eq, beq_refl, Option-cases,
}
use vscfreedev.Session.Metrics.{Floats}
use vscfreedev.Base.Table.{lookup, insert, remove, lookup-insert, lookup-remove}
use vscfreedev.Transport.{TransportConfig, connection_key}
use vscfreedev.Session.Pool.{find_session}
use vscfreedev.Session.{
  SessionId, SessionMetadata, active, connecting, idle, set_status, new_metadata,
}
use vscfreedev.Session.Registry.{get, register}
use vscfreedev.Errors.{Result, ok, err, YuhaError}
use vscfreedev.Daemon.{DaemonResponse, DaemonCommand, ErrorCode}
use vscfreedev.Session.Manager.Status.{IsSound}
use vscfreedev.Session.Manager
use vscfreedev.Session.Manager.{Manager}
use vscfreedev.Session.Manager.Reuse.{
  use_session-ok, found_is_registered, create_session-result, create_session-get,
  update_session_status-ok, update_session_status-get,
}
use vscfreedev.Daemon.Handler.{
  Texts, RequestHandler, activated, connected, connect_client, client_connected, session_made,
  create_new, reuse_found, handle_create_session, handle_disconnect_session, command_executed,
  handle_execute_command, disconnected,
}
use vscfreedev.Daemon.Handler.Sound.{Continuation, used_up}

module _ (fl : Floats) (tx : Texts) where
  -- The client of the session is connected and the session is active.
  abbrev pub IsConnected : RequestHandler fl tx → SessionId → Type 0
  IsConnected h id =
      (lookup id h.active_clients ≡ some tt)
      × ((s : SessionMetadata) × (get h.session_manager.registry id ≡ some s) × (s.status ≡ active))

  activated-get :
      (h : RequestHandler fl tx) (p : Manager fl × Result (Unit {0})) (id : SessionId)
      (s : SessionMetadata)
      → p.1 ≡ ok tt
      → get p.0.registry id ≡ some s
      → s.status ≡ active
      → lookup id h.active_clients ≡ some tt
      → ((activated fl tx h p).1 ≡ ok tt) × IsConnected (activated fl tx h p).0 id
  unfolding activated
  activated-get h (m, result) id s done found now_active client =
      (done, (client, (s, found, now_active)))

  connected-IsConnected :
      (h : RequestHandler fl tx) (now : ℕ) (id : SessionId) (p : Manager fl × Result (Unit {0}))
      (s : SessionMetadata)
      → p.1 ≡ ok tt
      → get p.0.registry id ≡ some s
      → ((connected fl tx h now id p).1 ≡ ok tt) × IsConnected (connected fl tx h now id p).0 id
  unfolding connected set_status
  connected-IsConnected h now id (m, ok _) s done found =
      activated-get
        (record h { session_manager = m; active_clients = insert id tt h.active_clients })
        (Manager.update_session_status fl m now id active) id (set_status now active s)
        (update_session_status-ok m now id active s found)
        (update_session_status-get m now id active s found) refl
        (rw (lookup-insert id id tt h.active_clients, beq_refl id) refl)
  connected-IsConnected h now id (m, err e) s done found = cc

  -- Connecting a registered session never fails.
  connect_client-IsConnected :
      (h : RequestHandler fl tx) (now : ℕ) (id : SessionId) (s : SessionMetadata)
      → get h.session_manager.registry id ≡ some s
      → ((connect_client fl tx h now id).1 ≡ ok tt)
        × IsConnected (connect_client fl tx h now id).0 id
  unfolding connect_client
  connect_client-IsConnected h now id s found =
      connected-IsConnected h now id
        (Manager.update_session_status fl h.session_manager now id connecting)
        (set_status now connecting s)
        (update_session_status-ok h.session_manager now id connecting s found)
        (update_session_status-get h.session_manager now id connecting s found)

  client_connected-IsConnected :
      (now : ℕ) (id : SessionId) (p : RequestHandler fl tx × Result (Unit {0}))
      → p.1 ≡ ok tt
      → IsConnected p.0 id
      → ((client_connected fl tx now id p).1 ≡ DaemonResponse.session_created id false)
        × IsConnected (client_connected fl tx now id p).0 id
  unfolding client_connected
  client_connected-IsConnected now id (h, ok _) done v = (refl, v)
  client_connected-IsConnected now id (h, err e) done v = cc

  ok_injective : (i j : SessionId) → ok i ≡ ok j → i ≡ j
  ok_injective i j h = ground arith

  session_made-ok :
      (h : RequestHandler fl tx) (now : ℕ) (id : SessionId) (p : Manager fl × Result SessionId)
      (s : SessionMetadata)
      → p.1 ≡ ok id
      → get p.0.registry id ≡ some s
      → ((session_made fl tx h now p).1 ≡ DaemonResponse.session_created id false)
        × IsConnected (session_made fl tx h now p).0 id
  unfolding session_made
  session_made-ok h now id (m, err e) s done found = cc
  session_made-ok h now id (m, ok id') s done found =
      let same = ok_injective id' id done in
      let h' = record h { session_manager = m } in
      let (connected', v) = connect_client-IsConnected h' now id s found in
      rw same (client_connected-IsConnected now id (connect_client fl tx h' now id) connected' v)

  session_made-err :
      (h : RequestHandler fl tx) (now : ℕ) (p : Manager fl × Result SessionId) (e : YuhaError)
      → p.1 ≡ err e
      → (session_made fl tx h now p).1
        ≡ DaemonResponse.error ErrorCode.max_sessions_reached (tx.error_text e)
  unfolding session_made
  session_made-err h now (m, err x) e failed' = ground arith
  session_made-err h now (m, ok id) e failed' = cc

  create_new-result :
      (h : RequestHandler fl tx) (now : ℕ) (new_id : SessionId) (name : String)
      (tc : TransportConfig) (tags : List String) (description : Option String)
      → (((create_new fl tx h now new_id name tc tags description).1
            ≡ DaemonResponse.session_created new_id false)
          × IsConnected (create_new fl tx h now new_id name tc tags description).0 new_id)
        ⊎ ((e : YuhaError) × ((register h.session_manager.registry
                (new_metadata new_id now name tc tags description)).1
              ≡ err e)
            × ((create_new fl tx h now new_id name tc tags description).1
                ≡ DaemonResponse.error ErrorCode.max_sessions_reached (tx.error_text e)))
  unfolding create_new
  create_new-result h now new_id name tc tags description =
      let m = h.session_manager in
      let made = Manager.create_session fl m now new_id name tc tags description in
      elim (create_session-result m now new_id name tc tags description) [
        | inl done ↦
            let (s, stored) = create_session-get m now new_id name tc tags description done in
            inl (session_made-ok h now new_id made s done stored)
        | inr (e, failed', refused) ↦ inr (e, refused, session_made-err h now made e failed')
      ]

  reuse_found-reused :
      (h : RequestHandler fl tx) (now : ℕ) (id : SessionId) (s : SessionMetadata)
      (otherwise : Continuation fl tx)
      → get h.session_manager.registry id ≡ some s
      → reuse_found fl tx h now (some id) otherwise ≡ (
        record h { session_manager = (Manager.use_session fl h.session_manager now id).0 },
        DaemonResponse.session_created id true,
      )
  unfolding reuse_found
  reuse_found-reused h now id s otherwise found =
      used_up fl tx h id otherwise _ (use_session-ok h.session_manager now id s found)

  -- On a sound manager a request to create a session is answered in one of three ways. If the
  -- pool finds a session for the transport, the answer is that session, as reused, and the
  -- connected clients stay as they are. Otherwise the answer is the new session, which is then
  -- registered as active with its client connected; or, where the registry refuses the
  -- registration, the error of the session limit with the text of the registry's error.
  pub handle_create_session-result :
      (h : RequestHandler fl tx) (now : ℕ) (new_id : SessionId) (name : String)
      (tc : TransportConfig) (tags : List String) (description : Option String)
      → IsSound fl h.session_manager
      → ((id : SessionId) × (find_session h.session_manager.pool now (connection_key tc) ≡ some id)
          × ((handle_create_session fl tx h now new_id name tc tags description).1
              ≡ DaemonResponse.session_created id true)
          × ((handle_create_session fl tx h now new_id name tc tags description).0.active_clients
              ≡ h.active_clients))
        ⊎ ((find_session h.session_manager.pool now (connection_key tc) ≡ none)
            × ((((handle_create_session fl tx h now new_id name tc tags description).1
                    ≡ DaemonResponse.session_created new_id false)
                  × IsConnected
                      (handle_create_session fl tx h now new_id name tc tags description).0
                      new_id)
                ⊎ ((e : YuhaError) × ((register h.session_manager.registry
                        (new_metadata new_id now name tc tags description)).1
                      ≡ err e)
                    × ((handle_create_session fl tx h now new_id name tc tags description).1
                        ≡ DaemonResponse.error ErrorCode.max_sessions_reached (tx.error_text e)))))
  unfolding handle_create_session
  handle_create_session-result h now new_id name tc tags description v =
      let otherwise : Continuation fl tx =
        λ h'. create_new fl tx h' now new_id name tc tags description in
      elim (Option-cases (find_session h.session_manager.pool now (connection_key tc))) [
        | inr (id, found) ↦
            let (s, known) =
              found_is_registered h.session_manager now (connection_key tc) id v.pool found in
            inl (
              id,
              found,
              rw (found, reuse_found-reused h now id s otherwise known) refl,
              rw (found, reuse_found-reused h now id s otherwise known) refl,
            )
        | inl nothing ↦ inr (
          nothing,
          rw (nothing, reuse_found) (create_new-result h now new_id name tc tags description),
        )
      ]

  -- On a sound manager, where the pool finds a session whose client is not connected, a request
  -- to create a session is answered with that session as reused, and a command for the session
  -- is then refused since the session is not connected.
  pub handle_create_session-unconnected :
      (h : RequestHandler fl tx) (now later : ℕ) (new_id : SessionId) (name : String)
      (tc : TransportConfig) (tags : List String) (description : Option String) (id : SessionId)
      (command : DaemonCommand)
      → IsSound fl h.session_manager
      → find_session h.session_manager.pool now (connection_key tc) ≡ some id
      → lookup id h.active_clients ≡ none
      → ((handle_create_session fl tx h now new_id name tc tags description).1
          ≡ DaemonResponse.session_created id true)
        × ((handle_execute_command fl tx
              (handle_create_session fl tx h now new_id name tc tags description).0
              later
              id
              command).1
            ≡ DaemonResponse.error ErrorCode.session_not_found
                ("Session " <> (tx.id_text id <> " not connected")))
  unfolding handle_create_session handle_execute_command
  handle_create_session-unconnected h now later new_id name tc tags description id command v found
        alone =
      let otherwise : Continuation fl tx =
        λ h'. create_new fl tx h' now new_id name tc tags description in
      let (s, known) =
        found_is_registered h.session_manager now (connection_key tc) id v.pool found in
      rw (found, reuse_found-reused h now id s otherwise known)
        (refl, rw (alone, command_executed) refl)

  disconnected-active_clients :
      (h : RequestHandler fl tx) (p : Manager fl × Result (Unit {0}))
      → (disconnected fl tx h p).0.active_clients ≡ h.active_clients
  unfolding disconnected
  disconnected-active_clients h (m, ok _) = refl
  disconnected-active_clients h (m, err e) = refl

  -- Disconnecting a session drops its client and no other.
  pub handle_disconnect_session-clients :
      (h : RequestHandler fl tx) (now : ℕ) (id j : SessionId)
      → lookup j (handle_disconnect_session fl tx h now id).0.active_clients
        ≡ (if id == j then none else lookup j h.active_clients)
  unfolding handle_disconnect_session
  handle_disconnect_session-clients h now id j =
      rw
        (disconnected-active_clients (record h { active_clients = remove id h.active_clients })
          (Manager.update_session_status fl h.session_manager now id idle))
        (lookup-remove id j h.active_clients)
