-- ===== src/Metrics/Performance/Summary.antt =====
-- What the performance metrics sum up (crates/core/src/metrics.rs).
use vscfreedev.Base.{
  ℕ, ◌+◌, ◌/◌, ◌%◌, ◌^◌, ◌≤◌, ◌<◌, ◌≡◌, refl, ap, ◌∙◌, inl, inr, Option, none, some, List, [], ◌∷◌,
  arith, ltb, if◌then◌else◌, ◌==◌, nat_eq, string_eq, Bool-cases, length,
}
use vscfreedev.Metrics.{Arithmetic}
use vscfreedev.Metrics.Performance.{
  PerformanceMetrics, longest, default, averaged, spread, timed, update_success_rate, rated,
  record_success, failed_after, record_error,
}

-- An operation, with its duration where there is one.
pub data Operation : Type 0 where
  succeeded : ℕ → Operation
  failed : Option ℕ → Operation

abbrev pub duration_of : Operation → Option ℕ
duration_of (succeeded d) = some d
duration_of (failed d) = d

abbrev error_of : Operation → ℕ
error_of (succeeded d) = 0
error_of (failed d) = 1

abbrev on_duration : (ℕ → ℕ → ℕ) → ℕ → Option ℕ → ℕ
on_duration f a none = a
on_duration f a (some d) = f a d

-- The errors, the total, the shortest and the longest of some operations, from those before.
abbrev pub errors : ℕ → List Operation → ℕ
errors e [] = e
errors e (o ∷ os) = errors (e + error_of o) os

abbrev pub durations : (ℕ → ℕ → ℕ) → ℕ → List Operation → ℕ
durations f a [] = a
durations f a (o ∷ os) = durations f (on_duration f a (duration_of o)) os

abbrev pub shorter : ℕ → ℕ → ℕ
shorter a d = if ltb d a then d else a

abbrev pub longer : ℕ → ℕ → ℕ
longer a d = if ltb a d then d else a

abbrev pub total : List Operation → ℕ
total os = durations ◌+◌ 0 os

module _ (ar : Arithmetic) where
  unfoldable pub record_operation :
      PerformanceMetrics ar → Operation → Option (PerformanceMetrics ar)
  record_operation m (succeeded d) = record_success ar m d
  record_operation m (failed d) = record_error ar m d

  unfoldable pub record_all :
      Option (PerformanceMetrics ar) → List Operation → Option (PerformanceMetrics ar)
  record_all m [] = m
  record_all none (o ∷ os) = record_all none os
  record_all (some m) (o ∷ os) = record_all (record_operation m o) os

  -- The metrics `m'` are those of `n` operations, after `m` and an operation.
  pub record Sums (m m' : PerformanceMetrics ar) (o : Operation) : Type 0 where
    pub count : m'.operation_count ≡ m.operation_count + 1
    pub errors : m'.error_count ≡ m.error_count + error_of o
    pub total : m'.total_duration ≡ on_duration ◌+◌ m.total_duration (duration_of o)
    pub min : m'.min_duration ≡ on_duration shorter m.min_duration (duration_of o)
    pub max : m'.max_duration ≡ on_duration longer m.max_duration (duration_of o)

  averaged-some : (t n : ℕ) → t ≤ longest → 0 < n → n < 2 ^ 32 → averaged ar t n ≡ some (t, t / n)
  unfolding averaged
  averaged-some t n a b c = ground (arith, a, b, c)

  update-Sums :
      (m : PerformanceMetrics ar)
      → ((update_success_rate ar m).operation_count ≡ m.operation_count)
        × ((update_success_rate ar m).error_count ≡ m.error_count)
        × ((update_success_rate ar m).total_duration ≡ m.total_duration)
        × ((update_success_rate ar m).min_duration ≡ m.min_duration)
        × ((update_success_rate ar m).max_duration ≡ m.max_duration)
  unfolding update_success_rate
  update-Sums m = elim (Bool-cases (m.operation_count == 0)) [
    | inl none' ↦ rw none' (refl, refl, refl, refl, refl)
    | inr some' ↦ rw some' (refl, refl, refl, refl, refl)
  ]

  -- Adding a duration to metrics whose count is up to date.
  timed-some :
      (m : PerformanceMetrics ar) (d : ℕ)
      → m.total_duration + d ≤ longest
      → 0 < m.operation_count
      → m.operation_count < 2 ^ 32
      → timed ar m d
        ≡ some (record m {
          total_duration = m.total_duration + d;
          avg_duration = (m.total_duration + d) / m.operation_count;
          min_duration = shorter m.min_duration d;
          max_duration = longer m.max_duration d;
        })
  unfolding timed spread
  timed-some m d a b c = rw (averaged-some (m.total_duration + d) m.operation_count a b c) refl

  small : (n : ℕ) → n + 1 < 2 ^ 32 → (n + 1) % 2 ^ 64 ≡ n + 1
  small n h = omega (arith, h)

  -- The metrics with the counts of one more operation.
  abbrev counted : PerformanceMetrics ar → ℕ → PerformanceMetrics ar
  counted m errors' = record m {
    operation_count = (m.operation_count + 1) % 2 ^ 64;
    error_count = errors';
  }

  summed-Sums :
      (m : PerformanceMetrics ar) (o : Operation) (d errors' : ℕ)
      → duration_of o ≡ some d
      → m.operation_count + 1 < 2 ^ 32
      → errors' ≡ m.error_count + error_of o
      → m.total_duration + d ≤ longest
      → (m' : PerformanceMetrics ar) × (rated ar (timed ar (counted m errors') d) ≡ some m')
        × Sums m m' o
  unfolding rated
  summed-Sums m o d errors' known n e room =
      let counts = small m.operation_count n in
      let done =
        timed-some (counted m errors') d room (omega (arith, counts)) (omega (arith, counts, n)) in
      let (count', error', total', min', max') = update-Sums (record (counted m errors') {
        total_duration = m.total_duration + d;
        avg_duration = (m.total_duration + d) / (counted m errors').operation_count;
        min_duration = shorter m.min_duration d;
        max_duration = longer m.max_duration d;
      }) in
      (
        _,
        ap (rated ar) done,
        record {
          count = count' ∙ counts;
          errors = error' ∙ e;
          total = rw known total';
          min = rw known min';
          max = rw known max';
        },
      )

  unsummed-Sums :
      (m : PerformanceMetrics ar) (o : Operation) (errors' : ℕ)
      → duration_of o ≡ none
      → m.operation_count + 1 < 2 ^ 32
      → errors' ≡ m.error_count + error_of o
      → Sums m (update_success_rate ar (counted m errors')) o
  unsummed-Sums m o errors' unknown n e =
      let (count', error', total', min', max') = update-Sums (counted m errors') in
      record {
        count = count' ∙ small m.operation_count n;
        errors = error' ∙ e;
        total = rw unknown total';
        min = rw unknown min';
        max = rw unknown max';
      }

  record_operation-Sums :
      (m : PerformanceMetrics ar) (o : Operation)
      → m.operation_count + 1 < 2 ^ 32
      → m.error_count ≤ m.operation_count
      → on_duration ◌+◌ m.total_duration (duration_of o) ≤ longest
      → (m' : PerformanceMetrics ar) × (record_operation m o ≡ some m') × Sums m m' o
  unfolding record_operation record_success record_error failed_after
  record_operation-Sums m (succeeded d) n e room =
      summed-Sums m (succeeded d) d m.error_count refl n (omega arith) room
  record_operation-Sums m (failed (some d)) n e room =
      summed-Sums m (failed (some d)) d ((m.error_count + 1) % 2 ^ 64) refl n (omega (arith, e, n))
        room
  record_operation-Sums m (failed none) n e room = (
    _,
    refl,
    unsummed-Sums m (failed none) ((m.error_count + 1) % 2 ^ 64) refl n (omega (arith, e, n)),
  )

  durations-le : (os : List Operation) (a : ℕ) → a ≤ durations ◌+◌ a os
  durations-le [] a = omega arith
  durations-le (succeeded d ∷ os) a = omega (arith, durations-le os (a + d))
  durations-le (failed none ∷ os) a = durations-le os a
  durations-le (failed (some d) ∷ os) a = omega (arith, durations-le os (a + d))

  error_of-le : (o : Operation) → error_of o ≤ 1
  error_of-le (succeeded d) = omega arith
  error_of-le (failed d) = omega arith

  -- From metrics that some operations have led to.
  record_all-from :
      (os : List Operation) (m : PerformanceMetrics ar)
      → m.operation_count + length os < 2 ^ 32
      → m.error_count ≤ m.operation_count
      → durations ◌+◌ m.total_duration os ≤ longest
      → (m' : PerformanceMetrics ar) × (record_all (some m) os ≡ some m')
        × (m'.operation_count ≡ m.operation_count + length os)
        × (m'.error_count ≡ errors m.error_count os)
        × (m'.total_duration ≡ durations ◌+◌ m.total_duration os)
        × (m'.min_duration ≡ durations shorter m.min_duration os)
        × (m'.max_duration ≡ durations longer m.max_duration os)
  unfolding record_all
  record_all-from [] m n e room = (m, refl, omega arith, refl, refl, refl, refl)
  record_all-from (o ∷ os) m n e room =
      let first : on_duration ◌+◌ m.total_duration (duration_of o) ≤ longest =
        omega (arith, durations-le os (on_duration ◌+◌ m.total_duration (duration_of o)), room) in
      let (m1, done, s) = record_operation-Sums m o (omega (arith, n)) e first in
      let (m', done', count', errors', total', min', max') =
        record_all-from os m1 (omega (arith, s.count, n))
          (omega (arith, s.count, s.errors, error_of-le o, e)) (rw s.total room) in
      (
        m',
        ap (λ x. record_all x os) done ∙ done',
        omega (arith, count', s.count),
        errors' ∙ ap (λ x. errors x os) s.errors,
        total' ∙ ap (λ x. durations ◌+◌ x os) s.total,
        min' ∙ ap (λ x. durations shorter x os) s.min,
        max' ∙ ap (λ x. durations longer x os) s.max,
      )

  -- Fewer than 2^32 operations whose durations fit into one are recorded without a panic. The
  -- metrics then hold their number and that of the errors, and the sum, the shortest and the
  -- longest of the durations that are known.
  pub record_all-default :
      (os : List Operation)
      → length os < 2 ^ 32
      → total os ≤ longest
      → (m : PerformanceMetrics ar) × (record_all (some (default ar)) os ≡ some m)
        × (m.operation_count ≡ length os)
        × (m.error_count ≡ errors 0 os)
        × (m.total_duration ≡ total os)
        × (m.min_duration ≡ durations shorter longest os)
        × (m.max_duration ≡ durations longer 0 os)
  unfolding default
  record_all-default os n room =
      let (m, done, count', errors', total', min', max') =
        record_all-from os (default ar) (omega (arith, n)) (omega arith) room in
      (m, done, omega (arith, count'), errors', total', min', max')
