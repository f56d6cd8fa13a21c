-- ===== src/Daemon/Handler/Tests.antt =====
-- Tests of the daemon's handler, and instances of its theorems
-- (crates/client/src/daemon/handler.rs).
use Prim.Native.String.{◌++◌ as ◌<>◌}
use vscfreedev.Base.{
  ℕ, zero, suc, ◌+◌, ◌-◌, ◌*◌, ◌/◌, ◌%◌, ◌^◌, ◌≤◌, ◌<◌, min, max, String, ◌≡◌, refl, sym, ap, subst,
  ◌∙◌, ◌≢◌, ◌↔◌, ◌⊎◌, inl, inr, Bool, true, false, not, ◌&&◌, ◌||◌, Option, none, some, List, [],
  ◌∷◌, ◌++◌, map, arith, ltb, leb, if◌then◌else◌, Eq, ◌==◌, nat_beq, nat_beq_iff, nat_eq, string_eq,
  beq_refl, Bool-cases, Option-cases, length, is_empty, retain, All, every, exists, contains, count,
  without, length-append, length-retain-le, count-append, count-without, length-without-le,
}
use vscfreedev.Base.Table.{lookup, insert}
use vscfreedev.Errors.{err, YuhaError}
use vscfreedev.Transport.{connection_key}
use vscfreedev.Transport
use vscfreedev.Session.{SessionId, SessionMetadata, active, new_metadata, secs}
use vscfreedev.Session.Registry.{register, get}
use vscfreedev.Session.Registry
use vscfreedev.Session.Pool.{find_session, add_session}
use vscfreedev.Session.Pool
use vscfreedev.Session.Metrics.{Floats}
use vscfreedev.Session.Manager
use vscfreedev.Session.Manager.Status.{IsSound}
use vscfreedev.Session.Manager.Requests.{run-new-IsSound}
use vscfreedev.Daemon.{DaemonRequest, DaemonResponse, DaemonCommand, ErrorCode}
use vscfreedev.Daemon.Handler.{
  Texts, RequestHandler, new, handle_request, handle_create_session, handle_execute_command,
  connect_client, handle_disconnect_session,
}
use vscfreedev.Daemon.Handler.Sound.{handle_request-IsSound}
use vscfreedev.Daemon.Handler.Conformance.{understands, handle_request-understood}
use vscfreedev.Daemon.Handler.Requests.{
  IsConnected, handle_create_session-result, handle_create_session-unconnected,
}

-- Percentages in whole numbers.
abbrev whole : Floats
whole = record { Float = ℕ; zero_float = 0; percentage = λ part total. (part * 100) / total }

abbrev texts : Texts
texts = record {
  error_text = λ e. "error";
  id_text = λ id. "id";
  status_text = λ s. "status";
  time_text = λ t. "time";
}

abbrev started : RequestHandler whole texts
started = new whole texts (Manager.new whole Manager.default_config)

abbrev create : DaemonRequest
create = DaemonRequest.create_session "alpha" Transport.default_config [] none

abbrev created : RequestHandler whole texts
created = (handle_request whole texts started 10 7 create).0

abbrev disconnected : RequestHandler whole texts
disconnected = (handle_request whole texts created 20 8 (DaemonRequest.disconnect_session 7)).0

created_response :
    (handle_request whole texts started 10 7 create).1 ≡ DaemonResponse.session_created 7 false
unfolding new handle_request handle_create_session connect_client Manager.new find_session Pool.new
    lookup Manager.create_session register Registry.new Manager.update_session_status insert
    new_metadata Registry.update_status
created_response = refl

unused_7 : get started.session_manager.registry 7 ≡ none
unfolding new Manager.new Registry.new lookup
unused_7 = refl

unused_8 : get created.session_manager.registry 8 ≡ none
unfolding new handle_request handle_create_session connect_client Manager.new find_session Pool.new
    lookup Manager.create_session register Registry.new Manager.update_session_status insert
    new_metadata Registry.update_status handle_disconnect_session add_session
unused_8 = refl

found_7 :
    find_session disconnected.session_manager.pool
      (secs 40)
      (connection_key Transport.default_config)
    ≡ some 7
unfolding new handle_request handle_create_session connect_client Manager.new find_session Pool.new
    lookup Manager.create_session register Registry.new Manager.update_session_status insert
    new_metadata Registry.update_status handle_disconnect_session add_session Pool.remove_session
    vscfreedev.Session.set_status vscfreedev.Base.Table.remove vscfreedev.Base.Index.index_push
    connection_key Pool.calculate_reuse_score
found_7 = refl

alone_7 : lookup 7 disconnected.active_clients ≡ none
unfolding new handle_request handle_create_session connect_client Manager.new find_session Pool.new
    lookup Manager.create_session register Registry.new Manager.update_session_status insert
    new_metadata Registry.update_status handle_disconnect_session add_session
    vscfreedev.Base.Table.remove
alone_7 = refl

started-IsSound : IsSound whole started.session_manager
unfolding new Manager.new vscfreedev.Session.Manager.Requests.run
started-IsSound = run-new-IsSound whole Manager.default_config [] (omega arith) tt

created-IsSound : IsSound whole created.session_manager
created-IsSound = handle_request-IsSound whole texts started 10 7 create started-IsSound unused_7

handle_request-IsSound_example :
    IsSound whole
      (handle_request whole texts created 20 8
        (DaemonRequest.disconnect_session 7)).0.session_manager
handle_request-IsSound_example =
    handle_request-IsSound whole texts created 20 8 (DaemonRequest.disconnect_session 7)
      created-IsSound unused_8

handle_create_session-unconnected_example :
    ((handle_create_session whole texts disconnected
        (secs 40)
        9
        "beta"
        Transport.default_config
        []
        none).1
      ≡ DaemonResponse.session_created 7 true)
    × ((handle_execute_command whole texts
          (handle_create_session whole texts disconnected
            (secs 40)
            9
            "beta"
            Transport.default_config
            []
            none).0
          (secs 41)
          7
          DaemonCommand.get_clipboard).1
        ≡ DaemonResponse.error ErrorCode.session_not_found
            ("Session " <> ("id" <> " not connected")))
handle_create_session-unconnected_example =
    handle_create_session-unconnected whole texts disconnected (secs 40) (secs 41) 9 "beta"
      Transport.default_config [] none 7 DaemonCommand.get_clipboard handle_request-IsSound_example
      found_7 alone_7

handle_create_session-result_example :
    ((id : SessionId) × (find_session disconnected.session_manager.pool 50
          (connection_key Transport.default_config)
        ≡ some id)
      × ((handle_create_session whole texts disconnected 50 9 "beta" Transport.default_config []
            none).1
          ≡ DaemonResponse.session_created id true)
      × ((handle_create_session whole texts disconnected 50 9 "beta" Transport.default_config []
            none).0.active_clients
          ≡ disconnected.active_clients))
    ⊎ ((find_session disconnected.session_manager.pool 50 (connection_key Transport.default_config)
          ≡ none)
        × ((((handle_create_session whole texts disconnected 50 9 "beta" Transport.default_config []
                  none).1
                ≡ DaemonResponse.session_created 9 false)
              × IsConnected whole texts
                  (handle_create_session whole texts disconnected 50 9 "beta"
                    Transport.default_config [] none).0
                  9)
            ⊎ ((e : YuhaError) × ((register disconnected.session_manager.registry
                    (new_metadata 9 50 "beta" Transport.default_config [] none)).1
                  ≡ err e)
                × ((handle_create_session whole texts disconnected 50 9 "beta"
                      Transport.default_config [] none).1
                    ≡ DaemonResponse.error ErrorCode.max_sessions_reached (texts.error_text e)))))
handle_create_session-result_example =
    handle_create_session-result whole texts disconnected 50 9 "beta" Transport.default_config []
      none handle_request-IsSound_example

handle_request-understood_example :
    understands create (handle_request whole texts started 10 7 create).1 ≡ true
handle_request-understood_example = handle_request-understood whole texts started 10 7 create
