-- ===== src/Session/Metrics.antt =====
-- crates/core/src/session/metrics.rs: the session metrics. The `f64` percentages stand behind an
-- interface: `percentage a b` is `(a as f64 / b as f64) * 100.0`. The counters of sessions are
-- `u32`, the totals `u64`. `SystemTime::now()` is an argument.
mod Counts
pub mod Gauges
pub mod Recorded
use vscfreedev.Base.{
  ℕ, zero, suc, ◌+◌, ◌-◌, ◌*◌, ◌/◌, ◌%◌, ◌^◌, ◌≤◌, ◌<◌, min, max, String, ◌≡◌, refl, sym, ap, subst,
  ◌∙◌, ◌≢◌, ◌↔◌, ◌⊎◌, inl, inr, Bool, true, false, not, ◌&&◌, ◌||◌, Option, none, some, List, [],
  ◌∷◌, ◌++◌, map, arith, ltb, leb, if◌then◌else◌, Eq, ◌==◌, nat_beq, nat_beq_iff, nat_eq, string_eq,
  beq_refl, Bool-cases, Option-cases, length, is_empty, retain, All, every, exists, contains, count,
  without, length-append, length-retain-le, count-append, count-without, length-without-le,
}
use vscfreedev.Base.Table.{Table, lookup, insert, values}
use vscfreedev.Transport.{TransportType, ssh, local, tcp, wsl}
use vscfreedev.Session.{SessionId, SessionStatus, active, idle, failed, SessionMetadata, idle_time}
pub use Counts.{Counters, no_counters, u32, u64}
unfoldable pub use Counts.{leave_status, enter_status, change_status, add_sample, average}

pub record Floats : Type 1 where
  pub Float : Type 0
  pub zero_float : Float
  pub percentage : ℕ → ℕ → Float

pub transport_beq : TransportType → TransportType → Bool
transport_beq ssh ssh = true
transport_beq local local = true
transport_beq tcp tcp = true
transport_beq wsl wsl = true
transport_beq _ _ = false

pub transport_beq_iff : (a b : TransportType) → (transport_beq a b ≡ true) ↔ (a ≡ b)
unfolding transport_beq
transport_beq_iff ssh b = ground arith
transport_beq_iff local b = ground arith
transport_beq_iff tcp b = ground arith
transport_beq_iff wsl b = ground arith

instance pub transport_eq : Eq TransportType
transport_eq = record { beq = transport_beq; beq_iff = transport_beq_iff }

pub record HistoryEntry : Type 0 where
  pub created_at : ℕ
  pub closed_at : Option ℕ
  pub transport_type : TransportType
  pub use_count : ℕ
  pub total_idle_time : ℕ
  pub was_reused : Bool

module _ (fl : Floats) where
  open fl use {Float, zero_float, percentage}

  pub record SessionMetrics : Type 0 where
    pub total_sessions_created : ℕ
    pub successful_connections : ℕ
    pub failed_connections : ℕ
    pub sessions_closed : ℕ
    pub counters : Counters
    pub avg_session_lifetime : ℕ
    pub avg_idle_time : ℕ
    pub transport_usage : Table TransportType ℕ
    pub connection_success_rate : Float
    pub session_reuse_rate : Float
    pub total_usage_count : ℕ

  pub record Collector : Type 0 where
    pub metrics : SessionMetrics
    pub session_history : Table SessionId HistoryEntry
    pub lifetime_samples : List ℕ
    pub idle_time_samples : List ℕ
    pub max_samples : ℕ

  abbrev pub no_metrics : SessionMetrics
  no_metrics = record {
    total_sessions_created = 0;
    successful_connections = 0;
    failed_connections = 0;
    sessions_closed = 0;
    counters = no_counters;
    avg_session_lifetime = 0;
    avg_idle_time = 0;
    transport_usage = [];
    connection_success_rate = zero_float;
    session_reuse_rate = zero_float;
    total_usage_count = 0;
  }

  abbrev pub new : Collector
  new = record {
    metrics = no_metrics;
    session_history = [];
    lifetime_samples = [];
    idle_time_samples = [];
    max_samples = 1000;
  }

  usage_or_zero : Option ℕ → ℕ
  usage_or_zero none = 0
  usage_or_zero (some n) = n

  bump_usage : TransportType → Table TransportType ℕ → Table TransportType ℕ
  unfolding usage_or_zero
  bump_usage t usage = insert t (u32 (usage_or_zero (lookup t usage) + 1)) usage

  opened : SessionMetadata → HistoryEntry
  opened s = record {
    created_at = s.created_at;
    closed_at = none;
    transport_type = s.transport_config.transport_type;
    use_count = 0;
    total_idle_time = 0;
    was_reused = false;
  }

  unfoldable pub record_session_created : Collector → SessionMetadata → Collector
  unfolding bump_usage opened
  record_session_created c s = record c {
    metrics = record c.metrics {
      total_sessions_created = u64 (c.metrics.total_sessions_created + 1);
      transport_usage = bump_usage s.transport_config.transport_type c.metrics.transport_usage;
    };
    session_history = insert s.id (opened s) c.session_history;
  }

  update_connection_success_rate : SessionMetrics → SessionMetrics
  update_connection_success_rate m =
      let total = u64 (m.successful_connections + m.failed_connections) in
      if ltb 0 total
      then record m { connection_success_rate = percentage m.successful_connections total }
      else m

  unfoldable pub record_connection_success : Collector → Collector
  unfolding update_connection_success_rate
  record_connection_success c = record c {
    metrics =
        update_connection_success_rate (record c.metrics {
          successful_connections = u64 (c.metrics.successful_connections + 1);
        });
  }

  unfoldable pub record_connection_failure : Collector → Collector
  unfolding update_connection_success_rate
  record_connection_failure c = record c {
    metrics =
        update_connection_success_rate
          (record c.metrics { failed_connections = u64 (c.metrics.failed_connections + 1) });
  }

  unfoldable pub record_status_change : Collector → SessionStatus → SessionStatus → Collector
  unfolding change_status
  record_status_change c old new = record c {
    metrics = record c.metrics { counters = change_status old new c.metrics.counters };
  }

  used_history :
      SessionId
      → ℕ
      → Option HistoryEntry
      → Table SessionId HistoryEntry
      → Table SessionId HistoryEntry
  used_history id usage none t = t
  used_history id usage (some h) t =
      insert id
        (record h { use_count = usage; was_reused = (if ltb 1 usage then true else h.was_reused) })
        t

  unfoldable pub record_session_usage : Collector → SessionId → ℕ → Collector
  unfolding used_history
  record_session_usage c id usage = record c {
    metrics = record c.metrics { total_usage_count = u64 (c.metrics.total_usage_count + 1) };
    session_history = used_history id usage (lookup id c.session_history) c.session_history;
  }

  -- The history and the samples, where the session has a history.
  close_history : ℕ → SessionMetadata → Option HistoryEntry → Collector → Collector
  close_history now s none c = c
  close_history now s (some h) c = record c {
    session_history =
        insert s.id (record h { closed_at = some now; total_idle_time = idle_time now s })
          c.session_history;
    lifetime_samples =
        (if leb h.created_at now
          then add_sample c.lifetime_samples (now - h.created_at) c.max_samples
          else c.lifetime_samples);
    idle_time_samples = add_sample c.idle_time_samples (idle_time now s) c.max_samples;
  }

  reused_count : Table SessionId HistoryEntry → ℕ
  reused_count t = length (retain (λ h. h.was_reused) (values t))

  update_averages : Collector → Collector
  unfolding average
  update_averages c = record c {
    metrics = record c.metrics {
      avg_session_lifetime = average c.lifetime_samples c.metrics.avg_session_lifetime;
      avg_idle_time = average c.idle_time_samples c.metrics.avg_idle_time;
    };
  }

  update_reuse_rate : Collector → Collector
  unfolding reused_count
  update_reuse_rate c =
      if ltb 0 (length c.session_history)
      then record c {
        metrics = record c.metrics {
          session_reuse_rate =
              percentage (reused_count c.session_history) (length c.session_history);
        };
      }
      else c

  count_closed : Collector → SessionMetadata → Collector
  unfolding leave_status
  count_closed c s = record c {
    metrics = record c.metrics {
      sessions_closed = u64 (c.metrics.sessions_closed + 1);
      counters = leave_status s.status c.metrics.counters;
    };
  }

  unfoldable pub record_session_closed : Collector → ℕ → SessionMetadata → Collector
  unfolding close_history update_averages update_reuse_rate count_closed
  record_session_closed c now s =
      update_reuse_rate
        (update_averages (close_history now s (lookup s.id c.session_history) (count_closed c s)))

  abbrev pub get_metrics : Collector → SessionMetrics
  get_metrics c = c.metrics

  unfoldable pub reset : Collector → Collector
  reset c = record c {
    metrics = no_metrics;
    session_history = [];
    lifetime_samples = [];
    idle_time_samples = [];
  }

  is_recent : ℕ → ℕ → Option ℕ → Bool
  is_recent now max_age none = true
  is_recent now max_age (some closed) =
      if leb closed now && ltb max_age (now - closed) then false else true

  unfoldable pub cleanup_old_history : Collector → ℕ → ℕ → Collector
  unfolding is_recent
  cleanup_old_history c now max_age = record c {
    session_history = retain (λ e. is_recent now max_age e.1.closed_at) c.session_history;
  }
