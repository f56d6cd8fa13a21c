-- ===== src/Session/Manager/Methods.antt =====
-- Each method of the manager keeps it sound (crates/core/src/session/manager.rs).
use vscfreedev.Base.{
  ℕ, ◌≡◌, refl, subst, inl, inr, Option, none, some, nat_eq, string_eq, Bool-cases,
}
use vscfreedev.Errors.{Result, ok, err}
use vscfreedev.Session.{SessionId, idle, active, closing, SessionMetadata, touch, status_beq}
use vscfreedev.Session.Registry.{get, mark_used}
use vscfreedev.Session.Registry.Invariant
use vscfreedev.Session.Registry.Effects.{mark_used-found, mark_used-missing, unregister-sessions}
use vscfreedev.Session.Metrics.{Floats}
use vscfreedev.Session.Manager.{
  Manager, activate_if_idle, used, use_session, discard, closed_after, close_session,
}
use vscfreedev.Session.Manager.Sound.{
  discard-IsPoolSound, grow-IsPoolSound, unregister-IsRegistrySound,
}
use vscfreedev.Session.Manager.Status.{
  IsSound, same_length, grows, usage-IsMeasured, unregister-IsMeasured,
  update_session_status-IsSound,
}

module _ {fl : Floats} where
  activate-IsSound :
      (m : Manager fl) (now : ℕ) (id : SessionId) (o : Option SessionMetadata)
      → IsSound fl m
      → IsSound fl (activate_if_idle fl m now id o).0
  unfolding activate_if_idle
  activate-IsSound m now id none v = v
  activate-IsSound m now id (some s) v = elim (Bool-cases (status_beq s.status idle)) [
    | inl yes' ↦ rw yes' (update_session_status-IsSound m now id active v)
    | inr no' ↦ rw no' v
  ]

  used-IsSound :
      (m : Manager fl) (now : ℕ) (id : SessionId) (o : Option SessionMetadata)
      → IsSound fl m
      → get m.registry id ≡ o
      → IsSound fl (used fl m now id (mark_used m.registry now id)).0
  unfolding used touch
  used-IsSound m now id none v missing = rw (mark_used-missing m.registry now id missing) v
  used-IsSound m now id (some s) v found = rw (mark_used-found m.registry now id s found) (
      activate-IsSound _ now id _ (record {
        registry = record {
          valid =
              subst (λ p. Invariant.IsValid p.0) (mark_used-found m.registry now id s found)
                (Invariant.mark_used-IsValid m.registry now id v.registry.valid);
          room = rw (same_length m.registry id s (touch now s) found) v.registry.room;
          width = v.registry.width;
        };
        pool =
            grow-IsPoolSound m.pool m.registry _ v.pool (grows m.registry id s (touch now s) found);
        measured = usage-IsMeasured m.metrics m.registry id s (touch now s) _ found refl v.measured;
      }))

  pub use_session-IsSound :
      (m : Manager fl) (now : ℕ) (id : SessionId)
      → IsSound fl m
      → IsSound fl (use_session fl m now id).0
  unfolding use_session
  use_session-IsSound m now id v = used-IsSound m now id (get m.registry id) v refl

  discard-IsSound :
      (m : Manager fl) (now : ℕ) (id : SessionId) → IsSound fl m → IsSound fl (discard fl m now id)
  unfolding discard
  discard-IsSound m now id v = record {
    registry = unregister-IsRegistrySound m.registry id v.registry;
    pool = discard-IsPoolSound m.pool m.registry id v.pool;
    measured =
        rw ((unregister-sessions m.registry id).2)
          (unregister-IsMeasured m.metrics m.registry now id v.registry.valid.distinct v.measured);
  }

  closed_after-IsSound :
      (now : ℕ) (id : SessionId) (p : Manager fl × Result (Unit {0}))
      → IsSound fl p.0
      → IsSound fl (closed_after fl now id p).0
  unfolding closed_after
  closed_after-IsSound now id (m, ok _) v = discard-IsSound m now id v
  closed_after-IsSound now id (m, err e) v = v

  pub close_session-IsSound :
      (m : Manager fl) (now : ℕ) (id : SessionId)
      → IsSound fl m
      → IsSound fl (close_session fl m now id).0
  unfolding close_session
  close_session-IsSound m now id v =
      closed_after-IsSound now id _ (update_session_status-IsSound m now id closing v)
