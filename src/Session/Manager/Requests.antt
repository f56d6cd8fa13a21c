-- ===== src/Session/Manager/Requests.antt =====
-- Sequences of calls of the manager (crates/core/src/session/manager.rs).
use vscfreedev.Base.{
  ℕ, ◌^◌, ◌<◌, String, ◌≡◌, refl, inl, inr, Option, none, some, List, [], ◌∷◌, nat_eq, string_eq,
  Bool-cases,
}
use vscfreedev.Errors.{Result, ok, err}
use vscfreedev.Transport.{TransportConfig}
use vscfreedev.Session.{SessionId, SessionStatus, SessionMetadata}
use vscfreedev.Session.Registry.{get}
use vscfreedev.Session.Registry.Invariant.{new-IsValid}
use vscfreedev.Session.Pool.Limits.{new-WithinLimits, new-lookup}
use vscfreedev.Session.Registry.Effects.{new-sessions, new-room, new-width}
use vscfreedev.Session.Metrics.{Floats}
use vscfreedev.Session.Manager.{
  Manager, ManagerConfig, new, create_session, update_session_status, use_session, close_session,
  connect_found, connect_or_create_session, reused, fresh, update_session_metadata, cleanup,
}
use vscfreedev.Session.Manager.Status.{IsSound, update_session_status-IsSound}
use vscfreedev.Session.Manager.Methods.{use_session-IsSound, close_session-IsSound}
use vscfreedev.Session.Manager.Steps.{
  create_session-IsSound, update_session_metadata-IsSound, cleanup-IsSound,
}

-- The first number of each is the time of the call; an id is that of the session concerned, or
-- the random id of the session that may be created.
pub data Request : Type 0 where
  creates : ℕ → SessionId → String → TransportConfig → List String → Option String → Request
  sets_status : ℕ → SessionId → SessionStatus → Request
  uses closes : ℕ → SessionId → Request
  connects : ℕ → SessionId → String → TransportConfig → Request
  updates : SessionId → SessionMetadata → Request
  cleans : ℕ → Request

module _ (fl : Floats) where
  unfoldable pub step : Manager fl → Request → Manager fl
  step m (creates now id name tc tags description) =
      (create_session fl m now id name tc tags description).0
  step m (sets_status now id status) = (update_session_status fl m now id status).0
  step m (uses now id) = (use_session fl m now id).0
  step m (closes now id) = (close_session fl m now id).0
  step m (connects now id name tc) = (connect_or_create_session fl m now id name tc).0
  step m (updates id s) = (update_session_metadata fl m id s).0
  step m (cleans now) = (cleanup fl m now).0

  -- A random id is not in use yet, and a metadata update leaves the status alone.
  abbrev pub Fits : Manager fl → Request → Type 0
  Fits m (creates now id name tc tags description) = get m.registry id ≡ none
  Fits m (connects now id name tc) = get m.registry id ≡ none
  Fits m (updates id s) =
      (old : SessionMetadata) → get m.registry id ≡ some old → old.status ≡ s.status
  Fits m _ = Unit

  unfoldable pub run : Manager fl → List Request → Manager fl
  run m [] = m
  run m (q ∷ qs) = run (step m q) qs

  abbrev pub AllFit : Manager fl → List Request → Type 0
  AllFit m [] = Unit
  AllFit m (q ∷ qs) = Fits m q × AllFit (step m q) qs

  reused-0 :
      (id : SessionId) (p : Manager fl × Result (Unit {0}))
      → IsSound fl p.0
      → IsSound fl (reused fl id p).0
  unfolding reused
  reused-0 id (m, ok _) v = v
  reused-0 id (m, err e) v = v

  fresh-0 : (p : Manager fl × Result SessionId) → IsSound fl p.0 → IsSound fl (fresh fl p).0
  unfolding fresh
  fresh-0 (m, ok id) v = v
  fresh-0 (m, err e) v = v

  connect_found-IsSound :
      (m : Manager fl) (now : ℕ) (id : SessionId) (name : String) (tc : TransportConfig)
      (o : Option SessionId)
      → IsSound fl m
      → get m.registry id ≡ none
      → IsSound fl (connect_found fl m now id name tc o).0
  unfolding connect_found
  connect_found-IsSound m now id name tc (some found) v fresh' =
      reused-0 found _ (use_session-IsSound m now found v)
  connect_found-IsSound m now id name tc none v fresh' =
      fresh-0 _ (create_session-IsSound m now id name tc [] none v fresh')

  step-IsSound : (m : Manager fl) (q : Request) → IsSound fl m → Fits m q → IsSound fl (step m q)
  unfolding step connect_or_create_session
  step-IsSound m (creates now id name tc tags description) v f =
      create_session-IsSound m now id name tc tags description v f
  step-IsSound m (sets_status now id status) v f = update_session_status-IsSound m now id status v
  step-IsSound m (uses now id) v f = use_session-IsSound m now id v
  step-IsSound m (closes now id) v f = close_session-IsSound m now id v
  step-IsSound m (connects now id name tc) v f = connect_found-IsSound m now id name tc _ v f
  step-IsSound m (updates id s) v f = update_session_metadata-IsSound m id s v f
  step-IsSound m (cleans now) v f = cleanup-IsSound m now v

  run-IsSound :
      (m : Manager fl) (qs : List Request) → IsSound fl m → AllFit m qs → IsSound fl (run m qs)
  unfolding run
  run-IsSound m [] v f = v
  run-IsSound m (q ∷ qs) v f = run-IsSound (step m q) qs (step-IsSound m q v f.0) f.1

  new-IsSound : (c : ManagerConfig) → c.registry.max_sessions < 2 ^ 32 → IsSound fl (new fl c)
  unfolding new
  new-IsSound c h = record {
    registry = record {
      valid = new-IsValid c.registry;
      room = new-room c.registry;
      width = new-width c.registry h;
    };
    pool = record { limits = new-WithinLimits c.pool; registered = λ i gone. new-lookup c.pool i };
    measured = elim (Bool-cases c.enable_metrics) [
      | inl on ↦ rw on (
          rw (new-sessions c.registry)
            (record { active_count = refl; idle_count = refl; failed_count = refl }))
      | inr off ↦ rw off tt
    ];
  }

  -- On a manager whose session limit is a `u32`, after any calls in which random ids are unused
  -- and metadata updates keep the status: the registry is well formed and within its limit, the
  -- pool is within its limits and holds registered sessions only, and the metrics, if there are
  -- any, count exactly the registered sessions that are active, idle and failed.
  pub run-new-IsSound :
      (c : ManagerConfig) (qs : List Request)
      → c.registry.max_sessions < 2 ^ 32
      → AllFit (new fl c) qs
      → IsSound fl (run (new fl c) qs)
  run-new-IsSound c qs h f = run-IsSound (new fl c) qs (new-IsSound c h) f
