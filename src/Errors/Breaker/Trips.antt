-- ===== src/Errors/Breaker/Trips.antt =====
-- When the circuit breaker opens, blocks and recovers (crates/core/src/error/retry.rs).
use vscfreedev.Base.{
  ℕ, ◌+◌, ◌^◌, ◌≤◌, ◌<◌, ◌≡◌, refl, ◌∙◌, ◌↔◌, ◌⊎◌, inl, inr, false, List, [], ◌∷◌, map, arith, leb,
  if◌then◌else◌, nat_eq, string_eq, length,
}
use vscfreedev.Errors.Breaker.{
  closed, open_circuit, CircuitBreaker, new, can_execute, record_success, record_failure, Call,
  asks, succeeds, fails, step, run, IsBlocked, IsConsistent,
}

step-IsConsistent : (b : CircuitBreaker) (c : Call) → IsConsistent b → IsConsistent (step b c)
unfolding step can_execute record_success record_failure
step-IsConsistent b (asks now) v = ground arith
step-IsConsistent b succeeds v = ground arith
step-IsConsistent b (fails now) v = ground arith

run-IsConsistent : (b : CircuitBreaker) (cs : List Call) → IsConsistent b → IsConsistent (run b cs)
unfolding run
run-IsConsistent b [] v = v
run-IsConsistent b (c ∷ cs) v = run-IsConsistent (step b c) cs (step-IsConsistent b c v)

-- Whatever is asked and recorded from a new breaker on, a breaker that is not closed knows the
-- time of its last failure, and a closed one has counted fewer failures than its threshold, if
-- that is above zero.
pub run-new-IsConsistent :
    (threshold time_out : ℕ) (cs : List Call) → IsConsistent (run (new threshold time_out) cs)
unfolding new
run-new-IsConsistent threshold time_out cs =
    run-IsConsistent _ cs (record { dated = λ h. absurd (h refl); counting = λ _ h. h })

-- `can_execute` refuses exactly when the circuit is open and its last failure is less than the
-- timeout ago.
pub can_execute-IsBlocked :
    (b : CircuitBreaker) (now : ℕ) → ((can_execute b now).1 ≡ false) ↔ IsBlocked b now
unfolding can_execute
can_execute-IsBlocked b now = ground arith

record_failure-open :
    (b : CircuitBreaker) (now : ℕ)
    → b.state ≡ open_circuit
    → (record_failure b now).state ≡ open_circuit
unfolding record_failure
record_failure-open b now h = ground arith

record_failure-closed :
    (b : CircuitBreaker) (now : ℕ)
    → b.state ≡ closed
    → b.failure_count < b.failure_threshold
    → b.failure_threshold < 2 ^ 32
    → (((record_failure b now).state ≡ open_circuit) × (b.failure_threshold ≤ b.failure_count + 1))
      ⊎ (((record_failure b now).state ≡ closed)
          × ((record_failure b now).failure_count ≡ b.failure_count + 1)
          × ((record_failure b now).failure_threshold ≡ b.failure_threshold)
          × (b.failure_count + 1 < b.failure_threshold))
unfolding record_failure
record_failure-closed b now s c w = ground arith

failures_keep_open :
    (b : CircuitBreaker) (ts : List ℕ)
    → b.state ≡ open_circuit
    → (run b (map fails ts)).state ≡ open_circuit
unfolding run step
failures_keep_open b [] h = h
failures_keep_open b (t ∷ ts) h =
    failures_keep_open (record_failure b t) ts (record_failure-open b t h)

run_failures :
    (b : CircuitBreaker) (ts : List ℕ)
    → b.state ≡ closed
    → b.failure_count < b.failure_threshold
    → b.failure_threshold < 2 ^ 32
    → (run b (map fails ts)).state
      ≡ (if leb b.failure_threshold (b.failure_count + length ts) then open_circuit else closed)
unfolding run step
run_failures b [] s c w = ground arith
run_failures b (t ∷ ts) s c w = elim (record_failure-closed b t s c w) [
  | inl (opened, reached) ↦ rw (failures_keep_open (record_failure b t) ts opened) (ground arith)
  | inr (shut, counted, same, below) ↦
      rw
        (
          run_failures (record_failure b t) ts shut (rw (counted, same) below) (rw same w),
          counted,
          same,
        )
        (ground arith)
]

-- A new breaker with a threshold above zero and below 2 ^ 32 opens at exactly the threshold-th
-- failure in a row: after fewer failures it is closed, after as many or more it is open.
pub run_failures-new :
    (threshold time_out : ℕ) (ts : List ℕ)
    → 0 < threshold
    → threshold < 2 ^ 32
    → (run (new threshold time_out) (map fails ts)).state
      ≡ (if leb threshold (length ts) then open_circuit else closed)
unfolding new
run_failures-new threshold time_out ts h w = run_failures _ ts refl h w ∙ ground arith
