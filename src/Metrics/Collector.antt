-- ===== src/Metrics/Collector.antt =====
-- `MetricsCollector` of crates/core/src/metrics.rs. A recording, which the code spawns as a task,
-- is one step; of a background task the collector counts how many loops are alive.
use Prim.Native.String.{◌++◌ as ◌<>◌}
use vscfreedev.Base.{
  ℕ, suc, ◌+◌, ◌-◌, ◌%◌, ◌^◌, String, Bool, true, false, Option, none, some, [], if◌then◌else◌,
  nat_eq, string_eq,
}
use vscfreedev.Base.Table.{Table, lookup, insert}
use vscfreedev.Transport.{TransportType}
use vscfreedev.Session.Metrics.{transport_eq}
use vscfreedev.Metrics.{
  Arithmetic, MetricsConfig, default_config, MetricType, counter, gauge, histogram, Labels, Metric,
  add_sample,
}
use vscfreedev.Metrics
use vscfreedev.Metrics.Performance.{PerformanceMetrics, record_success, record_error}
use vscfreedev.Metrics.Performance

module _ (ar : Arithmetic) where
  pub record TransportMetrics : Type 0 where
    pub connections : PerformanceMetrics ar
    pub bytes_sent : ℕ
    pub bytes_received : ℕ
    pub messages_sent : ℕ
    pub messages_received : ℕ
    pub latency : PerformanceMetrics ar
    pub reconnections : ℕ

  unfoldable pub no_transport : TransportMetrics
  no_transport = record {
    connections = Performance.default ar;
    bytes_sent = 0;
    bytes_received = 0;
    messages_sent = 0;
    messages_received = 0;
    latency = Performance.default ar;
    reconnections = 0;
  }

  pub record SystemMetrics : Type 0 where
    pub transport_metrics : Table TransportType TransportMetrics
    pub feature_usage : Table String ℕ
    pub memory_usage : ℕ
    pub cpu_usage : ar.Float
    pub uptime : ℕ
    pub start_time : ℕ

  pub record MetricsCollector : Type 0 where
    pub config : MetricsConfig
    pub metrics : Table String (Metric ar)
    pub system_metrics : SystemMetrics
    pub collection_task_running : Bool
    pub export_task_running : Bool
    pub collection_loops : ℕ
    pub export_loops : ℕ

  unfoldable pub new : ℕ → MetricsCollector
  new now = record {
    config = default_config;
    metrics = [];
    system_metrics = record {
      transport_metrics = [];
      feature_usage = [];
      memory_usage = 0;
      cpu_usage = ar.zero_float;
      uptime = 0;
      start_time = now;
    };
    collection_task_running = false;
    export_task_running = false;
    collection_loops = 0;
    export_loops = 0;
  }

  help : MetricType → String → String
  help counter name = "Counter metric: " <> name
  help gauge name = "Gauge metric: " <> name
  help histogram name = "Histogram metric: " <> name

  -- `entry(name).or_insert_with`.
  entry : MetricType → String → Option (Metric ar) → Metric ar
  unfolding help
  entry type name none = Metrics.new ar name type (help type name)
  entry type name (some m) = m

  -- `counter`, `gauge` and `record_histogram`.
  unfoldable pub record_metric :
      MetricType → MetricsCollector → ℕ → String → ar.Float → Labels → MetricsCollector
  unfolding entry
  record_metric type c now name value labels =
      if c.config.enabled
      then record c {
        metrics =
            insert name
              (add_sample ar (entry type name (lookup name c.metrics)) now value labels
                c.config.max_samples)
              c.metrics;
      }
      else c

  -- `entry(transport_type).or_default()`.
  transport_entry : Option TransportMetrics → TransportMetrics
  transport_entry none = no_transport
  transport_entry (some t) = t

  connected :
      MetricsCollector
      → TransportType
      → TransportMetrics
      → Option (PerformanceMetrics ar)
      → Option MetricsCollector
  connected c type t none = none
  connected c type t (some connections) = some (record c {
    system_metrics = record c.system_metrics {
      transport_metrics =
          insert type (record t { connections = connections }) c.system_metrics.transport_metrics;
    };
  })

  unfoldable pub record_transport_connection :
      MetricsCollector → TransportType → ℕ → Bool → Option MetricsCollector
  unfolding connected transport_entry
  record_transport_connection c type duration success =
      let t = transport_entry (lookup type c.system_metrics.transport_metrics) in
      connected c type t (
        if success
        then record_success ar t.connections duration
        else record_error ar t.connections (some duration))

  unfoldable pub record_data_transfer : MetricsCollector → TransportType → ℕ → ℕ → MetricsCollector
  unfolding transport_entry
  record_data_transfer c type bytes_sent bytes_received =
      let t = transport_entry (lookup type c.system_metrics.transport_metrics) in
      record c {
        system_metrics = record c.system_metrics {
          transport_metrics =
              insert type
                (record t {
                  bytes_sent = (t.bytes_sent + bytes_sent) % 2 ^ 64;
                  bytes_received = (t.bytes_received + bytes_received) % 2 ^ 64;
                })
                c.system_metrics.transport_metrics;
        };
      }

  usage : Option ℕ → ℕ
  usage none = 0
  usage (some n) = n

  unfoldable pub record_feature_usage : MetricsCollector → String → MetricsCollector
  unfolding usage
  record_feature_usage c feature = record c {
    system_metrics = record c.system_metrics {
      feature_usage =
          insert feature ((usage (lookup feature c.system_metrics.feature_usage) + 1) % 2 ^ 64)
            c.system_metrics.feature_usage;
    };
  }

  abbrev pub get_metrics_snapshot : MetricsCollector → Table String (Metric ar)
  get_metrics_snapshot c = c.metrics

  -- A clock that has gone back gives no uptime.
  unfoldable pub get_system_metrics : MetricsCollector → ℕ → MetricsCollector × SystemMetrics
  get_system_metrics c now =
      let s = record c.system_metrics { uptime = now - c.system_metrics.start_time } in
      (record c { system_metrics = s }, s)

  unfoldable pub start_collection_task : MetricsCollector → MetricsCollector
  start_collection_task c =
      if c.collection_task_running
      then c
      else record c { collection_task_running = true; collection_loops = suc c.collection_loops }

  unfoldable pub start_export_task : MetricsCollector → MetricsCollector
  start_export_task c =
      if c.export_task_running
      then c
      else record c { export_task_running = true; export_loops = suc c.export_loops }

  unfoldable pub init : MetricsCollector → MetricsConfig → MetricsCollector
  init c config =
      let c' = record c { config = config } in
      if config.enabled
      then if config.export_enabled
        then start_export_task (start_collection_task c')
        else start_collection_task c'
      else c'

  -- One of the loops of the collection wakes up: it ends, or it collects.
  unfoldable pub collection_wakes : MetricsCollector → MetricsCollector
  collection_wakes c =
      if c.collection_task_running
      then record c {
        system_metrics = record c.system_metrics { memory_usage = 0; cpu_usage = ar.zero_float };
      }
      else record c { collection_loops = c.collection_loops - 1 }

  unfoldable pub export_wakes : MetricsCollector → ℕ → MetricsCollector
  export_wakes c now =
      if c.export_task_running
      then (get_system_metrics c now).0
      else record c { export_loops = c.export_loops - 1 }

  unfoldable pub stop : MetricsCollector → MetricsCollector
  stop c = record c { collection_task_running = false; export_task_running = false }
