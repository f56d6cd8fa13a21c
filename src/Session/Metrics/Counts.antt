-- ===== src/Session/Metrics/Counts.antt =====
-- The counters of sessions and the samples of crates/core/src/session/metrics.rs. The counters are
-- `u32`.
use vscfreedev.Base.{
  ℕ, ◌+◌, ◌-◌, ◌/◌, ◌%◌, ◌^◌, List, [], ◌∷◌, ◌++◌, ltb, if◌then◌else◌, nat_eq, string_eq, length,
  is_empty,
}
use vscfreedev.Session.{SessionStatus, active, idle, failed}

-- The numbers of the metrics that count sessions now.
pub record Counters : Type 0 where
  pub active_sessions : ℕ
  pub idle_sessions : ℕ
  pub failed_sessions : ℕ
  pub peak_concurrent_sessions : ℕ

abbrev pub no_counters : Counters
no_counters = record {
  active_sessions = 0;
  idle_sessions = 0;
  failed_sessions = 0;
  peak_concurrent_sessions = 0;
}

abbrev pub u32 : ℕ → ℕ
u32 n = n % 2 ^ 32

abbrev pub u64 : ℕ → ℕ
u64 n = n % 2 ^ 64

-- `saturating_sub(1)` of the counter of the status that a session leaves.
unfoldable pub leave_status : SessionStatus → Counters → Counters
leave_status active c = record c { active_sessions = c.active_sessions - 1 }
leave_status idle c = record c { idle_sessions = c.idle_sessions - 1 }
leave_status failed c = record c { failed_sessions = c.failed_sessions - 1 }
leave_status _ c = c

raise_peak : Counters → Counters
raise_peak c =
    let total = u32 (c.active_sessions + c.idle_sessions) in
    if ltb c.peak_concurrent_sessions total
    then record c { peak_concurrent_sessions = total }
    else c

unfoldable pub enter_status : SessionStatus → Counters → Counters
unfolding raise_peak
enter_status active c = raise_peak (record c { active_sessions = u32 (c.active_sessions + 1) })
enter_status idle c = record c { idle_sessions = u32 (c.idle_sessions + 1) }
enter_status failed c = record c { failed_sessions = u32 (c.failed_sessions + 1) }
enter_status _ c = c

unfoldable pub change_status : SessionStatus → SessionStatus → Counters → Counters
unfolding leave_status enter_status
change_status old new c = enter_status new (leave_status old c)

drop_first : List ℕ → List ℕ
drop_first [] = []
drop_first (x ∷ xs) = xs

-- `add_sample`: the oldest sample goes when there are more than `max_size`.
unfoldable pub add_sample : List ℕ → ℕ → ℕ → List ℕ
unfolding drop_first
add_sample samples sample max_size =
    let all = samples ++ sample ∷ [] in if ltb max_size (length all) then drop_first all else all

sum_durations : List ℕ → ℕ
sum_durations [] = 0
sum_durations (d ∷ ds) = d + sum_durations ds

-- The new average, or the one before where there is no sample.
unfoldable pub average : List ℕ → ℕ → ℕ
unfolding sum_durations
average samples before =
    if is_empty samples then before else sum_durations samples / u32 (length samples)
