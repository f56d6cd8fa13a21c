-- ===== src/Session.antt =====
-- crates/core/src/session/mod.rs: session ids, status, priority and metadata. A `Uuid` is a
-- number; `SystemTime::now()` and the fresh `Uuid` of a new session are arguments; a time is a
-- number of nanoseconds.
pub mod Registry
pub mod Manager
pub mod Metrics
pub mod Lifecycle
pub mod Pool
use vscfreedev.Base.{
  ℕ, zero, suc, ◌+◌, ◌-◌, ◌*◌, ◌/◌, ◌%◌, ◌^◌, ◌≤◌, ◌<◌, min, max, String, ◌≡◌, refl, sym, ap, subst,
  ◌∙◌, ◌≢◌, ◌↔◌, ◌⊎◌, inl, inr, Bool, true, false, not, ◌&&◌, ◌||◌, Option, none, some, List, [],
  ◌∷◌, ◌++◌, map, arith, ltb, leb, if◌then◌else◌, Eq, ◌==◌, nat_beq, nat_beq_iff, nat_eq, string_eq,
  beq_refl, Bool-cases, Option-cases, length, is_empty, retain, All, every, exists, contains, count,
  without, length-append, length-retain-le, count-append, count-without, length-without-le,
}
use vscfreedev.Transport.{TransportConfig}
use vscfreedev.Transport

abbrev pub SessionId : Type 0
SessionId = ℕ

pub data SessionStatus : Type 0 where
  creating connecting active idle reconnecting failed closing closed : SessionStatus

pub data SessionPriority : Type 0 where
  low normal high critical : SessionPriority

pub record SessionMetadata : Type 0 where
  pub id : SessionId
  pub name : String
  pub transport_config : TransportConfig
  pub status : SessionStatus
  pub priority : SessionPriority
  pub created_at : ℕ
  pub last_used : ℕ
  pub use_count : ℕ
  pub tags : List String
  pub description : Option String

abbrev pub status_beq : SessionStatus → SessionStatus → Bool
status_beq creating creating = true
status_beq connecting connecting = true
status_beq active active = true
status_beq idle idle = true
status_beq reconnecting reconnecting = true
status_beq failed failed = true
status_beq closing closing = true
status_beq closed closed = true
status_beq _ _ = false

-- The session starts with the default priority.
unfoldable pub new_metadata :
    SessionId → ℕ → String → TransportConfig → List String → Option String → SessionMetadata
new_metadata id now name transport_config tags description = record {
  id = id;
  name = name;
  transport_config = transport_config;
  status = creating;
  priority = normal;
  created_at = now;
  last_used = now;
  use_count = 0;
  tags = tags;
  description = description;
}

-- `use_count` is a `u64`.
unfoldable pub touch : ℕ → SessionMetadata → SessionMetadata
touch now s = record s { last_used = now; use_count = (s.use_count + 1) % 2 ^ 64 }

abbrev pub is_usable_status : SessionStatus → Bool
is_usable_status active = true
is_usable_status idle = true
is_usable_status _ = false

unfoldable pub set_status : ℕ → SessionStatus → SessionMetadata → SessionMetadata
set_status now status s = record s {
  status = status;
  last_used = (if is_usable_status status then now else s.last_used);
}

unfoldable pub set_priority : SessionPriority → SessionMetadata → SessionMetadata
set_priority priority s = record s { priority = priority }

-- `duration_since(…).unwrap_or(Duration::ZERO)`: a clock that went back gives zero.
abbrev pub age : ℕ → SessionMetadata → ℕ
age now s = now - s.created_at

abbrev pub idle_time : ℕ → SessionMetadata → ℕ
idle_time now s = now - s.last_used

unfoldable pub has_tags : List String → SessionMetadata → Bool
has_tags tags s = every (λ tag. contains tag s.tags) tags

unfoldable pub has_any_tag : List String → SessionMetadata → Bool
has_any_tag tags s = exists (λ tag. contains tag s.tags) tags

abbrev pub session_key : SessionMetadata → String
session_key s = Transport.connection_key s.transport_config

unfoldable pub is_usable : SessionMetadata → Bool
is_usable s = is_usable_status s.status

is_terminated_status : SessionStatus → Bool
is_terminated_status failed = true
is_terminated_status closed = true
is_terminated_status _ = false

unfoldable pub is_terminated : SessionMetadata → Bool
unfolding is_terminated_status
is_terminated s = is_terminated_status s.status

is_transitional_status : SessionStatus → Bool
is_transitional_status creating = true
is_transitional_status connecting = true
is_transitional_status reconnecting = true
is_transitional_status closing = true
is_transitional_status _ = false

unfoldable pub is_transitional : SessionMetadata → Bool
unfolding is_transitional_status
is_transitional s = is_transitional_status s.status

-- A `Duration` of whole seconds.
abbrev pub secs : ℕ → ℕ
secs n = n * 1_000_000_000
