-- ===== src/Metrics/Tests.antt =====
-- Tests of the application's metrics, and instances of their theorems
-- (crates/core/src/metrics.rs).
use vscfreedev.Base.{
  ℕ, ◌+◌, ◌*◌, ◌/◌, ◌≤◌, ◌≡◌, none, some, List, [], ◌∷◌, map, arith, nat_eq, string_eq, length,
}
use vscfreedev.Metrics.{Arithmetic, counter, new}
use vscfreedev.Metrics.Samples.{
  Recording, sample_of, newest, value_after, add_samples, add_samples-new,
}
use vscfreedev.Metrics.Performance.{PerformanceMetrics, default, longest}
use vscfreedev.Metrics.Performance.Summary.{
  Operation, succeeded, failed, errors, durations, shorter, longer, total, record_all,
  record_all-default,
}

-- Whole numbers, with a ratio in hundredths.
abbrev whole : Arithmetic
whole = record {
  Float = ℕ;
  zero_float = 0;
  one_float = 100;
  add = ◌+◌;
  ratio = λ part all. (part * 100) / all;
}

abbrev recordings : List (Recording whole)
recordings = (1, 5, []) ∷ (2, 7, []) ∷ (3, 9, []) ∷ []

add_samples-new_example :
    ((add_samples whole (new whole "polls" counter "Polls") 2 recordings).samples
      ≡ newest 2 (map (sample_of whole) recordings))
    × ((add_samples whole (new whole "polls" counter "Polls") 2 recordings).current_value
        ≡ value_after whole counter 0 recordings)
    × (length (add_samples whole (new whole "polls" counter "Polls") 2 recordings).samples ≤ 2)
add_samples-new_example = add_samples-new whole "polls" counter "Polls" 2 recordings

abbrev operations : List Operation
operations = succeeded 30 ∷ failed none ∷ failed (some 10) ∷ []

record_all-default_example :
    (m : PerformanceMetrics whole) × (record_all whole (some (default whole)) operations ≡ some m)
    × (m.operation_count ≡ 3)
    × (m.error_count ≡ errors 0 operations)
    × (m.total_duration ≡ total operations)
    × (m.min_duration ≡ durations shorter longest operations)
    × (m.max_duration ≡ durations longer 0 operations)
record_all-default_example = record_all-default whole operations (omega arith) (omega arith)
