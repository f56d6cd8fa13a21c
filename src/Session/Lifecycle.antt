-- ===== src/Session/Lifecycle.antt =====
-- crates/core/src/session/lifecycle.rs: expiry rules, the cleanup task's flag, and the
-- reconnection tracking. Durations and times are in nanoseconds; `Instant::now()` is an argument.
mod Tests
pub mod Rules
pub mod Reconnection
use vscfreedev.Base.{
  ℕ, zero, suc, ◌+◌, ◌-◌, ◌*◌, ◌/◌, ◌%◌, ◌^◌, ◌≤◌, ◌<◌, min, max, String, ◌≡◌, refl, sym, ap, subst,
  ◌∙◌, ◌≢◌, ◌↔◌, ◌⊎◌, inl, inr, Bool, true, false, not, ◌&&◌, ◌||◌, Option, none, some, List, [],
  ◌∷◌, ◌++◌, map, arith, ltb, leb, if◌then◌else◌, Eq, ◌==◌, nat_beq, nat_beq_iff, nat_eq, string_eq,
  beq_refl, Bool-cases, Option-cases, length, is_empty, retain, All, every, exists, contains, count,
  without, length-append, length-retain-le, count-append, count-without, length-without-le,
}
use vscfreedev.Base.Table.{Table, lookup, insert, remove, values}
use vscfreedev.Session.{
  SessionId, SessionStatus, idle, failed, SessionMetadata, status_beq, age, idle_time, secs,
}

pub record LifecycleConfig : Type 0 where
  pub max_idle_time : ℕ
  pub max_session_lifetime : ℕ
  pub cleanup_interval : ℕ
  pub enable_auto_reconnect : Bool
  pub max_reconnect_attempts : ℕ
  pub reconnect_delay : ℕ

abbrev pub default_config : LifecycleConfig
default_config = record {
  max_idle_time = secs 300;
  max_session_lifetime = secs 3600;
  cleanup_interval = secs 60;
  enable_auto_reconnect = true;
  max_reconnect_attempts = 3;
  reconnect_delay = secs 5;
}

-- `live_tasks` counts the spawned loops that have not ended.
pub record Lifecycle : Type 0 where
  pub config : LifecycleConfig
  pub cleanup_running : Bool
  pub live_tasks : ℕ

unfoldable pub new : LifecycleConfig → Lifecycle
new config = record { config = config; cleanup_running = false; live_tasks = 0 }

unfoldable pub start_cleanup_task : Lifecycle → Lifecycle
start_cleanup_task l =
    if l.cleanup_running
    then l
    else record l { cleanup_running = true; live_tasks = l.live_tasks + 1 }

unfoldable pub stop_cleanup_task : Lifecycle → Lifecycle
stop_cleanup_task l = record l { cleanup_running = false }

-- One tick of one live loop: the loop ends, or it runs the callback (`true`).
unfoldable pub cleanup_tick : Lifecycle → Lifecycle × Bool
cleanup_tick l =
    if l.cleanup_running then (l, true) else (record l { live_tasks = l.live_tasks - 1 }, false)

unfoldable pub should_expire_session : LifecycleConfig → ℕ → SessionMetadata → Bool
should_expire_session c now s =
    if status_beq s.status idle && ltb c.max_idle_time (idle_time now s)
    then true
    else if ltb c.max_session_lifetime (age now s)
    then true
    else if status_beq s.status failed
    then true
    else false

unfoldable pub should_reconnect_session : LifecycleConfig → ℕ → SessionMetadata → Bool
should_reconnect_session c now s =
    if not c.enable_auto_reconnect
    then false
    else if not (status_beq s.status failed)
    then false
    else if ltb c.max_session_lifetime (age now s)
    then false
    else if ltb c.max_idle_time (idle_time now s)
    then false
    else true

unfoldable pub update_config : Lifecycle → LifecycleConfig → Lifecycle
update_config l c = record l { config = c }

pub record Reconnections : Type 0 where
  pub attempts : Table SessionId ℕ
  pub last_time : Table SessionId ℕ

abbrev pub no_reconnections : Reconnections
no_reconnections = record { attempts = []; last_time = [] }

abbrev pub or_zero : Option ℕ → ℕ
or_zero none = 0
or_zero (some n) = n

too_soon : LifecycleConfig → ℕ → Option ℕ → Bool
too_soon c now none = false
too_soon c now (some last) = ltb (now - last) c.reconnect_delay

unfoldable pub can_reconnect : Reconnections → ℕ → SessionId → LifecycleConfig → Bool
unfolding too_soon
can_reconnect r now id c =
    if leb c.max_reconnect_attempts (or_zero (lookup id r.attempts))
    then false
    else if too_soon c now (lookup id r.last_time)
    then false
    else true

-- The counter is a `u32`.
unfoldable pub record_reconnection_attempt : Reconnections → ℕ → SessionId → Reconnections
record_reconnection_attempt r now id = record {
  attempts = insert id ((or_zero (lookup id r.attempts) + 1) % 2 ^ 32) r.attempts;
  last_time = insert id now r.last_time;
}

unfoldable pub reset_reconnection : Reconnections → SessionId → Reconnections
reset_reconnection r id = record {
  attempts = remove id r.attempts;
  last_time = remove id r.last_time;
}

unfoldable pub cleanup_session : Reconnections → SessionId → Reconnections
cleanup_session r id = record { attempts = remove id r.attempts; last_time = remove id r.last_time }

pub record ReconnectionStats : Type 0 where
  pub sessions_with_attempts : ℕ
  pub total_attempts : ℕ
  pub max_attempts_for_session : ℕ

-- The sum is a `u32`.
sum32 : List ℕ → ℕ
sum32 [] = 0
sum32 (n ∷ ns) = (n + sum32 ns) % 2 ^ 32

maximum : List ℕ → ℕ
maximum [] = 0
maximum (n ∷ ns) = max n (maximum ns)

unfoldable pub get_stats : Reconnections → ReconnectionStats
unfolding sum32 maximum
get_stats r = record {
  sessions_with_attempts = length r.attempts;
  total_attempts = sum32 (values r.attempts);
  max_attempts_for_session = maximum (values r.attempts);
}
