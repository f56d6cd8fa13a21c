-- ===== src/Session/Manager/Tests.antt =====
-- Tests of the session manager, and instances of its theorems
-- (crates/core/src/session/manager.rs).
use vscfreedev.Base.{
  ℕ, ◌*◌, ◌/◌, String, ◌≡◌, refl, ◌≢◌, ◌⊎◌, true, false, none, some, List, [], ◌∷◌, arith, nat_eq,
  string_eq,
}
use vscfreedev.Base.Table.{lookup}
use vscfreedev.Errors.{ok, err, YuhaError, SessionError}
use vscfreedev.Transport.{connection_key}
use vscfreedev.Transport
use vscfreedev.Session.{SessionId, SessionMetadata, active, idle, new_metadata}
use vscfreedev.Session.Registry.{get, register, session_error}
use vscfreedev.Session.Registry
use vscfreedev.Session.Pool.{find_session}
use vscfreedev.Session.Metrics.{Floats}
use vscfreedev.Session.Manager.{
  Manager, default_config, new, connect_or_create_session, close_session,
}
use vscfreedev.Session.Manager.Status.{IsSound}
use vscfreedev.Session.Manager.Requests.{
  Request, creates, sets_status, uses, cleans, run, run-new-IsSound,
}
use vscfreedev.Session.Manager.Reuse.{connect_or_create_session-result, close_session-result}

-- Percentages in whole numbers.
abbrev whole : Floats
whole = record { Float = ℕ; zero_float = 0; percentage = λ part total. (part * 100) / total }

abbrev requests : List Request
requests =
    creates 10 7 "alpha" Transport.default_config [] none
    ∷ sets_status 20 7 active
    ∷ sets_status 30 7 idle
    ∷ uses 31 7
    ∷ cleans 40
    ∷ []

abbrev started : Manager whole
started = run whole (new whole default_config) requests

started-IsSound : IsSound whole started
unfolding new Registry.new lookup
started-IsSound =
    run-new-IsSound whole default_config requests (omega arith) (refl, (tt, (tt, (tt, (tt, tt)))))

run-new-IsSound_example : IsSound whole (run whole (new whole default_config) requests)
unfolding new Registry.new lookup
run-new-IsSound_example =
    run-new-IsSound whole default_config requests (omega arith) (refl, (tt, (tt, (tt, (tt, tt)))))

abbrev key : String
key = connection_key Transport.default_config

connect_or_create_session-result_example :
    ((id : SessionId) × (find_session started.pool 50 key ≡ some id)
      × ((connect_or_create_session whole started 50 8 "beta" Transport.default_config).1
          ≡ ok (id, true)))
    ⊎ ((find_session started.pool 50 key ≡ none)
        × (((connect_or_create_session whole started 50 8 "beta" Transport.default_config).1
              ≡ ok (8, false))
            ⊎ ((e : YuhaError) × ((connect_or_create_session whole started 50 8 "beta"
                    Transport.default_config).1
                  ≡ err e)
                × ((register started.registry
                      (new_metadata 8 50 "beta" Transport.default_config [] none)).1
                    ≡ err e))))
connect_or_create_session-result_example =
    connect_or_create_session-result started 50 8 "beta" Transport.default_config started-IsSound

close_session-result_example :
    ((s : SessionMetadata) × (get started.registry 7 ≡ some s)
      × ((close_session whole started 50 7).1 ≡ ok tt)
      × (get (close_session whole started 50 7).0.registry 7 ≡ none)
      × (lookup 7 (close_session whole started 50 7).0.pool.pool_metadata ≡ none)
      × ((j : SessionId)
          → j ≢ 7
          → (get (close_session whole started 50 7).0.registry j ≡ get started.registry j)
            × (lookup j (close_session whole started 50 7).0.pool.pool_metadata
                ≡ lookup j started.pool.pool_metadata)))
    ⊎ ((get started.registry 7 ≡ none)
        × (close_session whole started 50 7
            ≡ (started, err (session_error (SessionError.not_found 7)))))
close_session-result_example = close_session-result started 50 7 started-IsSound
