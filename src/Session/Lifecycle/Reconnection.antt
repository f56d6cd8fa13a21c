-- ===== src/Session/Lifecycle/Reconnection.antt =====
-- The limit on reconnection attempts (crates/core/src/session/lifecycle.rs).
use vscfreedev.Base.{
  ℕ, ◌+◌, ◌-◌, ◌%◌, ◌^◌, ◌≤◌, ◌<◌, ◌≡◌, ◌↔◌, true, none, some, List, [], ◌∷◌, arith, nat_beq_iff,
  nat_eq, string_eq, length,
}
use vscfreedev.Base.Table.{lookup, lookup-insert, lookup-remove}
use vscfreedev.Session.{SessionId}
use vscfreedev.Session.Lifecycle.{
  LifecycleConfig, Reconnections, or_zero, can_reconnect, record_reconnection_attempt,
  reset_reconnection,
}

-- One session tries again at each of some times, the latest last.
pub record_all : Reconnections → SessionId → List ℕ → Reconnections
record_all r id [] = r
record_all r id (t ∷ ts) = record_all (record_reconnection_attempt r t id) id ts

pub last_of : ℕ → List ℕ → ℕ
last_of t [] = t
last_of t (u ∷ us) = last_of u us

counted :
    (r : Reconnections) (id : SessionId) (t : ℕ)
    → or_zero (lookup id r.attempts) + 1 < 2 ^ 32
    → or_zero (lookup id (record_reconnection_attempt r t id).attempts)
      ≡ or_zero (lookup id r.attempts) + 1
unfolding record_reconnection_attempt
counted r id t h = ground (
  arith,
  lookup-insert id id ((or_zero (lookup id r.attempts) + 1) % 2 ^ 32) r.attempts,
  nat_beq_iff id id,
)

record_all-lookup :
    (r : Reconnections) (id : SessionId) (t : ℕ) (ts : List ℕ)
    → or_zero (lookup id r.attempts) + length ts + 1 < 2 ^ 32
    → (or_zero (lookup id (record_all r id (t ∷ ts)).attempts)
        ≡ or_zero (lookup id r.attempts) + length ts + 1)
      × (lookup id (record_all r id (t ∷ ts)).last_time ≡ some (last_of t ts))
unfolding record_all last_of record_reconnection_attempt
record_all-lookup r id t [] h = (
  ground (
    arith,
    lookup-insert id id ((or_zero (lookup id r.attempts) + 1) % 2 ^ 32) r.attempts,
    nat_beq_iff id id,
  ),
  ground (arith, lookup-insert id id t r.last_time, nat_beq_iff id id),
)
record_all-lookup r id t (u ∷ us) h =
    let r' = record_reconnection_attempt r t id in
    let one = counted r id t (omega arith) in
    let (n, last) = record_all-lookup r' id u us (omega (arith, one)) in
    (omega (arith, n, one), last)

reset-lookup :
    (r : Reconnections) (id : SessionId) → lookup id (reset_reconnection r id).attempts ≡ none
unfolding reset_reconnection
reset-lookup r id = ground (arith, lookup-remove id id r.attempts, nat_beq_iff id id)

-- After a reset and then fewer than 2 ^ 32 recorded attempts, the latest at `last_of t ts`, a
-- session may reconnect exactly when fewer than the allowed attempts were made and the delay
-- since the latest has passed.
pub can_reconnect-record_all :
    (r : Reconnections) (c : LifecycleConfig) (id : SessionId) (t now : ℕ) (ts : List ℕ)
    → length ts + 1 < 2 ^ 32
    → (can_reconnect (record_all (reset_reconnection r id) id (t ∷ ts)) now id c ≡ true)
      ↔ ((length ts + 1 < c.max_reconnect_attempts) × (c.reconnect_delay ≤ now - last_of t ts))
unfolding can_reconnect
can_reconnect-record_all r c id t now ts h =
    let zero' = reset-lookup r id in
    let (n, last) = record_all-lookup (reset_reconnection r id) id t ts (rw zero' (omega arith)) in
    ground (arith, n, last, zero')
