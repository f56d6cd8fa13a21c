-- ===== src/Errors/Breaker.antt =====
-- crates/core/src/error/retry.rs: the circuit breaker. An `Instant` is a number of nanoseconds
-- from some origin, read by the caller at the call.
pub mod Trips
use vscfreedev.Base.{
  ℕ, ◌+◌, ◌-◌, ◌%◌, ◌^◌, ◌<◌, ◌≡◌, ◌≢◌, Bool, true, false, Option, none, some, List, [], ◌∷◌, leb,
  if◌then◌else◌, nat_eq, string_eq,
}

pub data CircuitState : Type 0 where
  closed open_circuit half_open : CircuitState

pub record CircuitBreaker : Type 0 where
  pub state : CircuitState
  pub failure_count : ℕ
  pub failure_threshold : ℕ
  pub success_threshold : ℕ
  pub time_out : ℕ
  pub last_failure_time : Option ℕ

unfoldable pub new : ℕ → ℕ → CircuitBreaker
new failure_threshold time_out = record {
  state = closed;
  failure_count = 0;
  failure_threshold = failure_threshold;
  success_threshold = 1;
  time_out = time_out;
  last_failure_time = none;
}

-- The branch of an open circuit.
try_half_open : CircuitBreaker → ℕ → Option ℕ → CircuitBreaker × Bool
try_half_open b now none = (b, true)
try_half_open b now (some last) =
    if leb b.time_out (now - last) then (record b { state = half_open }, true) else (b, false)

execute_in : CircuitBreaker → ℕ → CircuitState → CircuitBreaker × Bool
execute_in b now closed = (b, true)
execute_in b now open_circuit = try_half_open b now b.last_failure_time
execute_in b now half_open = (b, true)

unfoldable pub can_execute : CircuitBreaker → ℕ → CircuitBreaker × Bool
unfolding execute_in try_half_open
can_execute b now = execute_in b now b.state

success_in : CircuitBreaker → CircuitState → CircuitBreaker
success_in b half_open = record b { state = closed; failure_count = 0 }
success_in b closed = record b { failure_count = 0 }
success_in b open_circuit = b

unfoldable pub record_success : CircuitBreaker → CircuitBreaker
unfolding success_in
record_success b = success_in b b.state

-- `failure_count` is a `u32`.
counted : CircuitBreaker → ℕ → CircuitBreaker
counted b now = record b {
  failure_count = (b.failure_count + 1) % 2 ^ 32;
  last_failure_time = some now;
}

unfoldable pub record_failure : CircuitBreaker → ℕ → CircuitBreaker
unfolding counted
record_failure b now =
    let c = counted b now in
    if leb c.failure_threshold c.failure_count then record c { state = open_circuit } else c

pub data Call : Type 0 where
  asks : ℕ → Call
  succeeds : Call
  fails : ℕ → Call

unfoldable pub step : CircuitBreaker → Call → CircuitBreaker
step b (asks now) = (can_execute b now).0
step b succeeds = record_success b
step b (fails now) = record_failure b now

unfoldable pub run : CircuitBreaker → List Call → CircuitBreaker
run b [] = b
run b (c ∷ cs) = run (step b c) cs

-- What keeps an operation from running: the circuit is open and its timeout has not passed.
abbrev pub IsBlocked : CircuitBreaker → ℕ → Type 0
IsBlocked b now =
    (last : ℕ) × (b.state ≡ open_circuit)
    × (b.last_failure_time ≡ some last)
    × (now - last < b.time_out)

pub record IsConsistent (b : CircuitBreaker) : Type 0 where
  -- A circuit that is not closed has seen a failure.
  pub dated : b.state ≢ closed → b.last_failure_time ≢ none
  pub counting : b.state ≡ closed → 0 < b.failure_threshold → b.failure_count < b.failure_threshold
