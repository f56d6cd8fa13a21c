-- ===== src/Session/Lifecycle/Rules.antt =====
-- When a session expires or may reconnect, and how many cleanup loops run
-- (crates/core/src/session/lifecycle.rs).
use vscfreedev.Base.{ℕ, ◌+◌, ◌<◌, ◌≡◌, ◌↔◌, ◌⊎◌, true, List, [], ◌∷◌, arith, nat_eq, string_eq}
use vscfreedev.Session.{
  SessionStatus, creating, connecting, active, idle, reconnecting, failed, closing, closed,
  SessionMetadata, age, idle_time, status_beq,
}
use vscfreedev.Session.Lifecycle.{
  LifecycleConfig, Lifecycle, should_expire_session, should_reconnect_session, start_cleanup_task,
  stop_cleanup_task, cleanup_tick, new,
}

pub status_beq_iff : (a b : SessionStatus) → (status_beq a b ≡ true) ↔ (a ≡ b)
status_beq_iff creating b = ground arith
status_beq_iff connecting b = ground arith
status_beq_iff active b = ground arith
status_beq_iff idle b = ground arith
status_beq_iff reconnecting b = ground arith
status_beq_iff failed b = ground arith
status_beq_iff closing b = ground arith
status_beq_iff closed b = ground arith

-- A session expires exactly when it is idle for longer than the limit, or older than the
-- longest lifetime, or failed.
pub should_expire_session_iff :
    (c : LifecycleConfig) (now : ℕ) (s : SessionMetadata)
    → (should_expire_session c now s ≡ true) ↔ (
        ((s.status ≡ idle) × (c.max_idle_time < idle_time now s))
        ⊎ ((c.max_session_lifetime < age now s) ⊎ (s.status ≡ failed)))
unfolding should_expire_session
should_expire_session_iff c now s =
    ground (arith, status_beq_iff s.status idle, status_beq_iff s.status failed)

-- Every session that is fit for a reconnection is one that the cleanup expires at that moment.
pub should_reconnect-expires :
    (c : LifecycleConfig) (now : ℕ) (s : SessionMetadata)
    → should_reconnect_session c now s ≡ true
    → should_expire_session c now s ≡ true
unfolding should_reconnect_session should_expire_session
should_reconnect-expires c now s h = ground arith

pub data Event : Type 0 where
  starts stops ticks : Event

pub step : Lifecycle → Event → Lifecycle
step l starts = start_cleanup_task l
step l stops = stop_cleanup_task l
step l ticks = (cleanup_tick l).0

pub run : Lifecycle → List Event → Lifecycle
run l [] = l
run l (e ∷ es) = run (step l e) es

abbrev pub HasTask : Lifecycle → Type 0
HasTask l = l.cleanup_running ≡ true → 0 < l.live_tasks

step-HasTask : (l : Lifecycle) (e : Event) → HasTask l → HasTask (step l e)
unfolding step start_cleanup_task stop_cleanup_task cleanup_tick
step-HasTask l starts h = ground arith
step-HasTask l stops h = ground arith
step-HasTask l ticks h = ground arith

run-HasTask : (l : Lifecycle) (es : List Event) → HasTask l → HasTask (run l es)
unfolding run
run-HasTask l [] h = h
run-HasTask l (e ∷ es) h = run-HasTask (step l e) es (step-HasTask l e h)

-- Whatever is started, stopped and ticked, a cleanup loop is alive while the flag says that one
-- runs.
pub run-new-HasTask : (c : LifecycleConfig) (es : List Event) → HasTask (run (new c) es)
unfolding new
run-new-HasTask c es = run-HasTask _ es (λ h. cc)

-- While the flag says that a cleanup loop runs, a stop and a start with no tick between them
-- leave one more loop alive than before, also after the next tick.
pub restart_adds_task :
    (l : Lifecycle)
    → l.cleanup_running ≡ true
    → ((run l (stops ∷ starts ∷ [])).live_tasks ≡ l.live_tasks + 1)
      × ((run l (stops ∷ starts ∷ ticks ∷ [])).live_tasks ≡ l.live_tasks + 1)
unfolding run step start_cleanup_task stop_cleanup_task cleanup_tick
restart_adds_task l h = ground arith
