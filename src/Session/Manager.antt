-- ===== src/Session/Manager.antt =====
-- crates/core/src/session/manager.rs: the session manager, over the registry, the pool, the
-- metrics and the lifecycle rules. Each method is one step: what other tasks do at its `await`
-- points is not modelled. `now` is the clock during the call.
mod Tests
pub mod Sound
pub mod Status
pub mod Methods
pub mod Reuse
pub mod Requests
pub mod Steps
use vscfreedev.Base.{
  ℕ, zero, suc, ◌+◌, ◌-◌, ◌*◌, ◌/◌, ◌%◌, ◌^◌, ◌≤◌, ◌<◌, min, max, String, ◌≡◌, refl, sym, ap, subst,
  ◌∙◌, ◌≢◌, ◌↔◌, ◌⊎◌, inl, inr, Bool, true, false, not, ◌&&◌, ◌||◌, Option, none, some, List, [],
  ◌∷◌, ◌++◌, map, arith, ltb, leb, if◌then◌else◌, Eq, ◌==◌, nat_beq, nat_beq_iff, nat_eq, string_eq,
  beq_refl, Bool-cases, Option-cases, length, is_empty, retain, All, every, exists, contains, count,
  without, length-append, length-retain-le, count-append, count-without, length-without-le,
}
use vscfreedev.Errors.{Result, ok, err, SessionError}
use vscfreedev.Transport.{TransportConfig}
use vscfreedev.Transport
use vscfreedev.Session.{
  SessionId, SessionStatus, connecting, active, idle, reconnecting, failed, closing, closed,
  SessionMetadata, new_metadata, status_beq, secs,
}
use vscfreedev.Session.Registry.{Registry, RegistryConfig}
use vscfreedev.Session.Registry
use vscfreedev.Session.Pool.{Pool, PoolConfig}
use vscfreedev.Session.Pool
use vscfreedev.Session.Lifecycle.{Lifecycle, LifecycleConfig, should_expire_session}
use vscfreedev.Session.Lifecycle
use vscfreedev.Session.Metrics.{Floats, Collector, SessionMetrics}
use vscfreedev.Session.Metrics

pub record ManagerConfig : Type 0 where
  pub registry : RegistryConfig
  pub pool : PoolConfig
  pub lifecycle : LifecycleConfig
  pub enable_metrics : Bool

abbrev pub default_config : ManagerConfig
default_config = record {
  registry = Registry.default_config;
  pool = Pool.default_config;
  lifecycle = Lifecycle.default_config;
  enable_metrics = true;
}

module _ (fl : Floats) where
  pub record Manager : Type 0 where
    pub registry : Registry
    pub pool : Pool
    pub metrics : Option (Collector fl)
    pub lifecycle : Lifecycle
    pub config : ManagerConfig

  unfoldable pub new : ManagerConfig → Manager
  new c = record {
    registry = Registry.new c.registry;
    pool = Pool.new c.pool;
    metrics = (if c.enable_metrics then some (Metrics.new fl) else none);
    lifecycle = Lifecycle.new c.lifecycle;
    config = c;
  }

  -- `if let Some(ref metrics) = self.metrics`.
  abbrev pub measure : (Collector fl → Collector fl) → Option (Collector fl) → Option (Collector fl)
  measure f none = none
  measure f (some c) = some (f c)

  abbrev not_found : {A : Type 0} → SessionId → Result A
  not_found id = err (Registry.session_error (SessionError.not_found id))

  created : Manager → SessionMetadata → Registry × Result SessionId → Manager × Result SessionId
  created m s (r, err e) = (record m { registry = r }, err e)
  created m s (r, ok _) = (
    record m {
      registry = r;
      metrics = measure (λ c. Metrics.record_session_created fl c s) m.metrics;
    },
    ok s.id,
  )

  unfoldable pub create_session :
      Manager
      → ℕ
      → SessionId
      → String
      → TransportConfig
      → List String
      → Option String
      → Manager × Result SessionId
  unfolding created
  create_session m now id name transport_config tags description =
      let s = new_metadata id now name transport_config tags description in
      created m s (Registry.register m.registry s)

  abbrev pub get_session : Manager → SessionId → Option SessionMetadata
  get_session m id = Registry.get m.registry id

  add_if_found : Pool → ℕ → Option SessionMetadata → Pool
  add_if_found p now none = p
  add_if_found p now (some s) = (Pool.add_session p now s).0

  -- The pool's share of a status change.
  repool : Pool → Registry → ℕ → SessionId → SessionStatus → Pool
  unfolding add_if_found
  repool p r now id idle = add_if_found p now (Registry.get r id)
  repool p r now id active = (Pool.remove_session p id).0
  repool p r now id failed = (Pool.remove_session p id).0
  repool p r now id closed = (Pool.remove_session p id).0
  repool p r now id _ = p

  was_connecting : SessionStatus → Bool
  was_connecting connecting = true
  was_connecting reconnecting = true
  was_connecting _ = false

  -- The metrics' share of a status change.
  connection_outcome : SessionStatus → SessionStatus → Collector fl → Collector fl
  unfolding was_connecting
  connection_outcome old active c =
      if was_connecting old then Metrics.record_connection_success fl c else c
  connection_outcome old failed c =
      if was_connecting old then Metrics.record_connection_failure fl c else c
  connection_outcome old _ c = c

  status_measured : SessionStatus → SessionStatus → Collector fl → Collector fl
  unfolding connection_outcome
  status_measured old new c = connection_outcome old new (Metrics.record_status_change fl c old new)

  -- What follows the change in the registry, whose result is propagated by `?`.
  status_changed :
      Manager
      → ℕ
      → SessionId
      → SessionStatus
      → SessionStatus
      → Registry × Result (Unit {0})
      → Manager × Result (Unit {0})
  unfolding repool status_measured
  status_changed m now id old new (r, err e) = (record m { registry = r }, err e)
  status_changed m now id old new (r, ok _) = (
    record m {
      registry = r;
      pool = repool m.pool r now id new;
      metrics = measure (status_measured old new) m.metrics;
    },
    ok tt,
  )

  status_found :
      Manager → ℕ → SessionId → SessionStatus → Option SessionMetadata → Manager × Result (Unit {0})
  unfolding status_changed
  status_found m now id new none = (m, not_found id)
  status_found m now id new (some s) =
      status_changed m now id s.status new (Registry.update_status m.registry now id new)

  unfoldable pub update_session_status :
      Manager → ℕ → SessionId → SessionStatus → Manager × Result (Unit {0})
  unfolding status_found
  update_session_status m now id status = status_found m now id status (Registry.get m.registry id)

  pub usage_measured : SessionId → Option SessionMetadata → Collector fl → Collector fl
  usage_measured id none c = c
  usage_measured id (some s) c = Metrics.record_session_usage fl c id s.use_count

  activate_if_idle : Manager → ℕ → SessionId → Option SessionMetadata → Manager × Result (Unit {0})
  activate_if_idle m now id none = (m, ok tt)
  activate_if_idle m now id (some s) =
      if status_beq s.status idle then update_session_status m now id active else (m, ok tt)

  used : Manager → ℕ → SessionId → Registry × Result (Unit {0}) → Manager × Result (Unit {0})
  unfolding usage_measured activate_if_idle
  used m now id (r, err e) = (record m { registry = r }, err e)
  used m now id (r, ok _) =
      let found = Registry.get r id in
      activate_if_idle
        (record m { registry = r; metrics = measure (usage_measured id found) m.metrics }) now id
        found

  unfoldable pub use_session : Manager → ℕ → SessionId → Manager × Result (Unit {0})
  unfolding used
  use_session m now id = used m now id (Registry.mark_used m.registry now id)

  pub closed_measured : ℕ → Option SessionMetadata → Collector fl → Collector fl
  closed_measured now none c = c
  closed_measured now (some s) c = Metrics.record_session_closed fl c now s

  -- Out of the pool and the registry, and counted as closed.
  discard : Manager → ℕ → SessionId → Manager
  unfolding closed_measured
  discard m now id =
      let (r, removed) = Registry.unregister m.registry id in
      record m {
        registry = r;
        pool = (Pool.remove_session m.pool id).0;
        metrics = measure (closed_measured now removed) m.metrics;
      }

  closed_after : ℕ → SessionId → Manager × Result (Unit {0}) → Manager × Result (Unit {0})
  unfolding discard
  closed_after now id (m, err e) = (m, err e)
  closed_after now id (m, ok _) = (discard m now id, ok tt)

  unfoldable pub close_session : Manager → ℕ → SessionId → Manager × Result (Unit {0})
  unfolding closed_after
  close_session m now id = closed_after now id (update_session_status m now id closing)

  abbrev pub find_reusable_session : Manager → ℕ → String → Option SessionId
  find_reusable_session m now key = Pool.find_session m.pool now key

  reused : SessionId → Manager × Result (Unit {0}) → Manager × Result (SessionId × Bool)
  reused id (m, err e) = (m, err e)
  reused id (m, ok _) = (m, ok (id, true))

  fresh : Manager × Result SessionId → Manager × Result (SessionId × Bool)
  fresh (m, err e) = (m, err e)
  fresh (m, ok id) = (m, ok (id, false))

  connect_found :
      Manager
      → ℕ
      → SessionId
      → String
      → TransportConfig
      → Option SessionId
      → Manager × Result (SessionId × Bool)
  unfolding reused fresh
  connect_found m now new_id name transport_config (some id) = reused id (use_session m now id)
  connect_found m now new_id name transport_config none =
      fresh (create_session m now new_id name transport_config [] none)

  -- `new_id` is the random id of the session that may be created.
  unfoldable pub connect_or_create_session :
      Manager → ℕ → SessionId → String → TransportConfig → Manager × Result (SessionId × Bool)
  unfolding connect_found
  connect_or_create_session m now new_id name transport_config =
      connect_found m now new_id name transport_config
        (find_reusable_session m now (Transport.connection_key transport_config))

  unfoldable pub update_session_metadata :
      Manager → SessionId → SessionMetadata → Manager × Result (Unit {0})
  update_session_metadata m id s =
      let (r, result) = Registry.update m.registry id s in (record m { registry = r }, result)

  -- The body of the cleanup callback's loop: in it the pool is touched only if the session was
  -- still registered.
  expire_found : Manager → ℕ → SessionId → Option SessionMetadata → Registry → Manager
  expire_found m now id none r = record m { registry = r }
  expire_found m now id (some s) r = record m {
    registry = r;
    pool = (Pool.remove_session m.pool id).0;
    metrics = measure (λ c. Metrics.record_session_closed fl c now s) m.metrics;
  }

  expire_one : Manager → ℕ → SessionId → Manager
  unfolding expire_found
  expire_one m now id =
      let (r, removed) = Registry.unregister m.registry id in expire_found m now id removed r

  expire_each : Manager → ℕ → List SessionMetadata → Manager × List SessionId
  unfolding expire_one
  expire_each m now [] = (m, [])
  expire_each m now (s ∷ rest) =
      let expires = should_expire_session m.lifecycle.config now s in
      let (m', ids) = expire_each (if expires then expire_one m now s.id else m) now rest in
      (m', if expires then s.id ∷ ids else ids)

  -- The cleanup callback of `start_cleanup_task`.
  unfoldable pub cleanup : Manager → ℕ → Manager × List SessionId
  unfolding expire_each
  cleanup m now =
      let (m', ids) = expire_each m now (Registry.list_all m.registry) in
      let (p, pooled) = Pool.cleanup_expired m'.pool now m'.lifecycle.config.max_idle_time in
      (
        record m' {
          pool = p;
          metrics = measure (λ c. Metrics.cleanup_old_history fl c now (secs 86400)) m'.metrics;
        },
        ids ++ pooled,
      )

  unfoldable pub start_cleanup_task : Manager → Manager
  start_cleanup_task m = record m { lifecycle = Lifecycle.start_cleanup_task m.lifecycle }

  unfoldable pub stop_cleanup_task : Manager → Manager
  stop_cleanup_task m = record m { lifecycle = Lifecycle.stop_cleanup_task m.lifecycle }

  abbrev pub list_sessions : Manager → List SessionMetadata
  list_sessions m = Registry.list_all m.registry

  abbrev pub get_metrics : Manager → Option (SessionMetrics fl)
  get_metrics m = elim m.metrics [ none ↦ none | some c ↦ some c.metrics ]

  abbrev pub session_exists : Manager → SessionId → Bool
  session_exists m id = Registry.is_registered m.registry id
