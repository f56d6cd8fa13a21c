-- ===== src/Errors/Tests.antt =====
-- Tests of the error classification, the retry loop and the circuit breaker, and instances of
-- their theorems (crates/core/src/error/).
use vscfreedev.Base.{
  ℕ, zero, suc, ◌*◌, ◌^◌, ◌≤◌, ◌≡◌, true, some, List, [], ◌∷◌, map, arith, leb, if◌then◌else◌,
  nat_eq, string_eq, length,
}
use vscfreedev.Errors.{YuhaError, Result, ok, err, internal}
use vscfreedev.Errors.Retry.{RetryPolicy, StopsAt, ms}
use vscfreedev.Errors.Retry.Loop.{retry_async-StopsAt}
use vscfreedev.Errors.Breaker.{
  open_circuit, closed, CircuitBreaker, new, run, asks, succeeds, fails, IsConsistent,
}
use vscfreedev.Errors.Breaker.Trips.{run-new-IsConsistent, run_failures-new}

abbrev broken : YuhaError
broken = internal "broken"

abbrev policy : RetryPolicy
policy = record { max_attempts = 3; initial_delay = 100 * ms; max_delay = 5000 * ms; jitter = true }

-- A backoff that doubles 100 milliseconds, and the largest jitter.
doubling : ℕ → ℕ
doubling n = 100 * 2 ^ n

largest : ℕ → ℕ
largest r = r

largest-le : (r : ℕ) → largest r ≤ r
unfolding largest
largest-le r = omega arith

-- Fails twice, then succeeds.
third_time : ℕ → Result ℕ
third_time zero = err broken
third_time (suc zero) = err broken
third_time n = ok n

retry_async-StopsAt_example : (n : ℕ) × StopsAt third_time policy n
retry_async-StopsAt_example = retry_async-StopsAt third_time policy

run-new-IsConsistent_example :
    IsConsistent (run (new 2 100) (fails 5 ∷ asks 6 ∷ fails 7 ∷ asks 8 ∷ asks 200 ∷ succeeds ∷ []))
run-new-IsConsistent_example =
    run-new-IsConsistent 2 100 (fails 5 ∷ asks 6 ∷ fails 7 ∷ asks 8 ∷ asks 200 ∷ succeeds ∷ [])

abbrev tripped : CircuitBreaker
tripped = record {
  state = open_circuit;
  failure_count = 2;
  failure_threshold = 2;
  success_threshold = 1;
  time_out = 100;
  last_failure_time = some 7;
}

abbrev times : List ℕ
times = 5 ∷ 7 ∷ 9 ∷ []

run_failures-new_example :
    (run (new 2 100) (map fails times)).state
    ≡ (if leb 2 (length times) then open_circuit else closed)
run_failures-new_example = run_failures-new 2 100 times (omega arith) (omega arith)
