-- ===== src/Metrics.antt =====
-- crates/core/src/metrics.rs: the metrics of the application. Times and durations are in
-- nanoseconds; an `f64` is a `Float` of a given arithmetic.
pub mod Performance
pub mod Samples
pub mod Collector
mod Tests
use Prim.Native.String.{◌++◌ as ◌<>◌}
use vscfreedev.Base.{
  ℕ, zero, suc, ◌+◌, ◌-◌, ◌*◌, ◌/◌, ◌%◌, ◌^◌, ◌≤◌, ◌<◌, min, max, String, ◌≡◌, refl, sym, ap, subst,
  ◌∙◌, ◌≢◌, ◌↔◌, ◌⊎◌, inl, inr, Bool, true, false, not, ◌&&◌, ◌||◌, Option, none, some, List, [],
  ◌∷◌, ◌++◌, map, arith, ltb, leb, if◌then◌else◌, Eq, ◌==◌, nat_beq, nat_beq_iff, nat_eq, string_eq,
  beq_refl, Bool-cases, Option-cases, length, is_empty, retain, All, every, exists, contains, count,
  without, length-append, length-retain-le, count-append, count-without, length-without-le,
}
use vscfreedev.Base.Table.{Table}
use vscfreedev.Protocol.Bytes.{drop}

-- The arithmetic of `f64` that the code uses; `ratio` divides two numbers of 64 bits.
pub record Arithmetic : Type 1 where
  pub Float : Type 0
  pub zero_float : Float
  pub one_float : Float
  pub add : Float → Float → Float
  pub ratio : ℕ → ℕ → Float

pub record MetricsConfig : Type 0 where
  pub enabled : Bool
  pub collection_interval : ℕ
  pub max_samples : ℕ
  pub export_enabled : Bool
  pub export_interval : ℕ
  pub export_formats : List String
  pub export_endpoints : Table String String

abbrev pub default_config : MetricsConfig
default_config = record {
  enabled = true;
  collection_interval = 30;
  max_samples = 1000;
  export_enabled = false;
  export_interval = 60;
  export_formats = "json" ∷ [];
  export_endpoints = [];
}

pub data MetricType : Type 0 where
  counter gauge histogram : MetricType

abbrev pub Labels : Type 0
Labels = Table String String

module _ (ar : Arithmetic) where
  pub record MetricSample : Type 0 where
    pub timestamp : ℕ
    pub value : ar.Float
    pub labels : Labels

  pub record Metric : Type 0 where
    pub name : String
    pub metric_type : MetricType
    pub help : String
    pub samples : List MetricSample
    pub current_value : ar.Float

  unfoldable pub new : String → MetricType → String → Metric
  new name type help = record {
    name = name;
    metric_type = type;
    help = help;
    samples = [];
    current_value = ar.zero_float;
  }

  updated : MetricType → ar.Float → ar.Float → ar.Float
  updated counter current value = ar.add current value
  updated gauge current value = value
  updated histogram current value = value

  -- One sample, the oldest, goes where there are too many.
  limited : ℕ → List MetricSample → List MetricSample
  limited max_samples ss = if ltb max_samples (length ss) then drop 1 ss else ss

  unfoldable pub add_sample : Metric → ℕ → ar.Float → Labels → ℕ → Metric
  unfolding updated limited
  add_sample m now value labels max_samples =
      let sample : MetricSample = record { timestamp = now; value = value; labels = labels } in
      record m {
        samples = limited max_samples (m.samples ++ (sample ∷ []));
        current_value = updated m.metric_type m.current_value value;
      }

  last : List MetricSample → Option MetricSample
  last [] = none
  last (s ∷ []) = some s
  last (s ∷ t ∷ ss) = last (t ∷ ss)

  unfoldable pub latest_sample : Metric → Option MetricSample
  unfolding last
  latest_sample m = last m.samples

  unfoldable pub samples_in_range : Metric → ℕ → ℕ → List MetricSample
  samples_in_range m start end =
      retain (λ s. leb start s.timestamp && leb s.timestamp end) m.samples
