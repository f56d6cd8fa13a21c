-- ===== src/Session/Pool.antt =====
-- crates/core/src/session/pool.rs: the session pool. Every method holds its locks to the end,
-- apart from `add_session`, whose tests and writes run here with no other task between.
-- The time is an argument; a method that returns `Ok(b)` on every path returns `b`.
mod Tests
pub mod Invariant
pub mod Limits
pub mod Reuse
pub mod Expiry
pub mod Waiting
use vscfreedev.Base.{
  ℕ, zero, suc, ◌+◌, ◌-◌, ◌*◌, ◌/◌, ◌%◌, ◌^◌, ◌≤◌, ◌<◌, min, max, String, ◌≡◌, refl, sym, ap, subst,
  ◌∙◌, ◌≢◌, ◌↔◌, ◌⊎◌, inl, inr, Bool, true, false, not, ◌&&◌, ◌||◌, Option, none, some, List, [],
  ◌∷◌, ◌++◌, map, arith, ltb, leb, if◌then◌else◌, Eq, ◌==◌, nat_beq, nat_beq_iff, nat_eq, string_eq,
  beq_refl, Bool-cases, Option-cases, length, is_empty, retain, All, every, exists, contains, count,
  without, length-append, length-retain-le, count-append, count-without, length-without-le,
}
use vscfreedev.Base.Table.{Table, lookup, insert, remove, keys, values, contains_key}
use vscfreedev.Base.Index.{Index, index_push, index_drop, bucket, or_empty}
use vscfreedev.Session.{
  SessionId, SessionStatus, SessionPriority, low, normal, high, critical, SessionMetadata,
  session_key, is_usable_status, secs,
}

pub record PoolConfig : Type 0 where
  pub enabled : Bool
  pub max_sessions_per_connection : ℕ
  pub max_total_sessions : ℕ
  pub prefer_reuse : Bool
  pub min_idle_time : ℕ

abbrev pub default_config : PoolConfig
default_config = record {
  enabled = true;
  max_sessions_per_connection = 5;
  max_total_sessions = 50;
  prefer_reuse = true;
  min_idle_time = 5;
}

pub record PooledSessionMetadata : Type 0 where
  pub connection_key : String
  pub pooled_at : ℕ
  pub priority : SessionPriority
  pub use_count : ℕ

pub record Pool : Type 0 where
  pub config : PoolConfig
  pub pools : Index String
  pub pool_metadata : Table SessionId PooledSessionMetadata

unfoldable pub new : PoolConfig → Pool
new config = record { config = config; pools = []; pool_metadata = [] }

-- The per-connection limit is looked at only where the connection has an entry.
connection_full : Pool → Option (List SessionId) → Bool
connection_full p none = false
connection_full p (some ids) = leb p.config.max_sessions_per_connection (length ids)

-- The tests of `add_session`, in their order.
accepts : Pool → SessionMetadata → Bool
unfolding connection_full
accepts p s =
    if not p.config.enabled
    then false
    else if not (is_usable_status s.status)
    then false
    else if connection_full p (lookup (session_key s) p.pools)
    then false
    else if leb p.config.max_total_sessions (length p.pool_metadata)
    then false
    else true

pub pooled : ℕ → SessionMetadata → PooledSessionMetadata
pooled now s = record {
  connection_key = session_key s;
  pooled_at = now;
  priority = s.priority;
  use_count = s.use_count;
}

put : Pool → ℕ → SessionMetadata → Pool
unfolding pooled
put p now s = record p {
  pools = index_push (session_key s) s.id p.pools;
  pool_metadata = insert s.id (pooled now s) p.pool_metadata;
}

unfoldable pub add_session : Pool → ℕ → SessionMetadata → Pool × Bool
unfolding accepts put
add_session p now s = if accepts p s then (put p now s, true) else (p, false)

take_out : Pool → SessionId → Option PooledSessionMetadata → Pool × Bool
take_out p id none = (record p { pool_metadata = remove id p.pool_metadata }, false)
take_out p id (some m) = (
  record p {
    pools = index_drop m.connection_key id p.pools;
    pool_metadata = remove id p.pool_metadata;
  },
  true,
)

unfoldable pub remove_session : Pool → SessionId → Pool × Bool
unfolding take_out
remove_session p id = take_out p id (lookup id p.pool_metadata)

priority_score : SessionPriority → ℕ
priority_score critical = 100
priority_score high = 75
priority_score normal = 50
priority_score low = 25

-- `elapsed().unwrap_or_default()`: a clock that went back gives zero.
abbrev pub pooled_for : ℕ → PooledSessionMetadata → ℕ
pooled_for now m = now - m.pooled_at

unfoldable pub calculate_reuse_score : ℕ → PooledSessionMetadata → ℕ
unfolding priority_score
calculate_reuse_score now m =
    priority_score m.priority
    + (if ltb m.use_count 10 then 20 else if ltb m.use_count 50 then 10 else 0)
    + (if ltb (pooled_for now m) (secs 60)
        then 15
        else if ltb (pooled_for now m) (secs 300)
        then 10
        else 0)

-- The score of a session that has waited long enough.
scored : Pool → ℕ → Option PooledSessionMetadata → Option ℕ
scored p now none = none
scored p now (some m) =
    if ltb (pooled_for now m) (secs p.config.min_idle_time)
    then none
    else some (calculate_reuse_score now m)

candidate : Pool → ℕ → SessionId → Option ℕ
unfolding scored
candidate p now id = scored p now (lookup id p.pool_metadata)

pub record Best : Type 0 where
  pub best_session : Option SessionId
  pub best_score : ℕ

abbrev no_best : Best
no_best = record { best_session = none; best_score = 0 }

offer : Option ℕ → SessionId → Best → Best
offer none id b = b
offer (some score) id b =
    if ltb b.best_score score then record { best_session = some id; best_score = score } else b

scan : (SessionId → Option ℕ) → List SessionId → Best → Best
unfolding offer
scan f [] b = b
scan f (id ∷ ids) b = scan f ids (offer (f id) id b)

unfoldable pub find_session : Pool → ℕ → String → Option SessionId
unfolding scan candidate
find_session p now key =
    if not p.config.enabled || not p.config.prefer_reuse
    then none
    else (scan (candidate p now) (bucket key p.pools) no_best).best_session

abbrev pub list_pool : Pool → String → List SessionId
list_pool p key = bucket key p.pools

abbrev pub list_connection_keys : Pool → List String
list_connection_keys p = keys p.pools

pub record PoolStats : Type 0 where
  pub enabled : Bool
  pub total_pooled_sessions : ℕ
  pub connection_pools : ℕ
  pub largest_pool_size : ℕ
  pub max_sessions_per_connection : ℕ
  pub max_total_sessions : ℕ

largest : List (List SessionId) → ℕ
largest [] = 0
largest (ids ∷ rest) = max (length ids) (largest rest)

unfoldable pub get_stats : Pool → PoolStats
unfolding largest
get_stats p = record {
  enabled = p.config.enabled;
  total_pooled_sessions = length p.pool_metadata;
  connection_pools = length p.pools;
  largest_pool_size = largest (values p.pools);
  max_sessions_per_connection = p.config.max_sessions_per_connection;
  max_total_sessions = p.config.max_total_sessions;
}

-- `now.duration_since(pooled_at)` is an error where the entry is from the future.
is_expired : ℕ → ℕ → PooledSessionMetadata → Bool
is_expired now max_idle m = leb m.pooled_at now && ltb max_idle (now - m.pooled_at)

expired_ids : ℕ → ℕ → Table SessionId PooledSessionMetadata → List SessionId
unfolding is_expired
expired_ids now max_idle [] = []
expired_ids now max_idle ((id, m) ∷ t) =
    let rest = expired_ids now max_idle t in if is_expired now max_idle m then id ∷ rest else rest

remove_each : Pool → List SessionId → Pool
remove_each p [] = p
remove_each p (id ∷ ids) = remove_each (remove_session p id).0 ids

unfoldable pub cleanup_expired : Pool → ℕ → ℕ → Pool × List SessionId
unfolding expired_ids remove_each
cleanup_expired p now max_idle =
    let expired = expired_ids now max_idle p.pool_metadata in (remove_each p expired, expired)

unfoldable pub clear : Pool → Pool
clear p = record p { pools = []; pool_metadata = [] }

abbrev pub is_pooled : Pool → SessionId → Bool
is_pooled p id = contains_key id p.pool_metadata

abbrev pub get_pool_metadata : Pool → SessionId → Option PooledSessionMetadata
get_pool_metadata p id = lookup id p.pool_metadata
