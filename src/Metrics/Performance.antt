-- ===== src/Metrics/Performance.antt =====
-- `PerformanceMetrics` of crates/core/src/metrics.rs. The counts have 64 bits and wrap around; an
-- addition of durations that overflows and a division by zero are panics, which are `none`.
pub mod Summary
use vscfreedev.Base.{
  ℕ, ◌+◌, ◌-◌, ◌*◌, ◌/◌, ◌%◌, ◌^◌, Option, none, some, ltb, if◌then◌else◌, ◌==◌, nat_eq, string_eq,
}
use vscfreedev.Metrics.{Arithmetic}

-- `Duration::MAX`, in nanoseconds.
abbrev pub longest : ℕ
longest = 2 ^ 64 * 1000000000 - 1

module _ (ar : Arithmetic) where
  pub record PerformanceMetrics : Type 0 where
    pub operation_count : ℕ
    pub total_duration : ℕ
    pub avg_duration : ℕ
    pub min_duration : ℕ
    pub max_duration : ℕ
    pub success_rate : ar.Float
    pub error_count : ℕ

  unfoldable pub default : PerformanceMetrics
  default = record {
    operation_count = 0;
    total_duration = 0;
    avg_duration = 0;
    min_duration = longest;
    max_duration = 0;
    success_rate = ar.one_float;
    error_count = 0;
  }

  -- The total and the average where a duration is added after `n` operations; `as u32` drops the
  -- higher bits of the divisor.
  averaged : ℕ → ℕ → Option (ℕ × ℕ)
  averaged total n =
      if ltb longest total
      then none
      else if n % 2 ^ 32 == 0
      then none
      else some (total, total / (n % 2 ^ 32))

  spread : PerformanceMetrics → ℕ → Option (ℕ × ℕ) → Option PerformanceMetrics
  spread m duration none = none
  spread m duration (some (total, average)) = some (record m {
    total_duration = total;
    avg_duration = average;
    min_duration = (if ltb duration m.min_duration then duration else m.min_duration);
    max_duration = (if ltb m.max_duration duration then duration else m.max_duration);
  })

  -- The part that an operation with a duration adds.
  timed : PerformanceMetrics → ℕ → Option PerformanceMetrics
  unfolding averaged spread
  timed m duration = spread m duration (averaged (m.total_duration + duration) m.operation_count)

  -- The count of errors never exceeds that of operations before one of them wraps around.
  update_success_rate : PerformanceMetrics → PerformanceMetrics
  update_success_rate m = if m.operation_count == 0 then m else record m {
    success_rate =
        ar.ratio ((m.operation_count + 2 ^ 64 - m.error_count) % 2 ^ 64) m.operation_count;
  }

  rated : Option PerformanceMetrics → Option PerformanceMetrics
  unfolding update_success_rate
  rated none = none
  rated (some m) = some (update_success_rate m)

  unfoldable pub record_success : PerformanceMetrics → ℕ → Option PerformanceMetrics
  unfolding rated timed
  record_success m duration =
      rated (timed (record m { operation_count = (m.operation_count + 1) % 2 ^ 64 }) duration)

  failed_after : PerformanceMetrics → Option ℕ → Option PerformanceMetrics
  unfolding timed
  failed_after m none = some m
  failed_after m (some duration) = timed m duration

  unfoldable pub record_error : PerformanceMetrics → Option ℕ → Option PerformanceMetrics
  unfolding rated failed_after
  record_error m duration = rated (
      failed_after
        (record m {
          operation_count = (m.operation_count + 1) % 2 ^ 64;
          error_count = (m.error_count + 1) % 2 ^ 64;
        })
        duration)
