-- ===== src/Session/Pool/Tests.antt =====
-- Tests of the session pool, and instances of its theorems (crates/core/src/session/pool.rs).
use vscfreedev.Base.{
  String, ◌≡◌, refl, ◌⊎◌, inr, true, false, ◌&&◌, none, some, [], arith, if◌then◌else◌, nat_eq,
  string_eq, count,
}
use vscfreedev.Base.Table.{lookup, insert}
use vscfreedev.Base.Index.{index_push}
use vscfreedev.Transport
use vscfreedev.Session.{SessionId, SessionMetadata, active, normal, session_key, secs}
use vscfreedev.Session.Pool.{
  Pool, default_config, new, add_session, find_session, cleanup_expired, accepts, connection_full,
  put, pooled,
}
use vscfreedev.Session.Pool.Invariant.{IsValid, new-IsValid, add_session-IsValid}
use vscfreedev.Session.Pool.Limits.{
  WithinLimits, Accepts, Holds, add_session-Accepts, add_session-WithinLimits, new-WithinLimits,
  new-lookup,
}
use vscfreedev.Session.Pool.Reuse.{Finds, find_session-best}
use vscfreedev.Session.Pool.Expiry.{overdue, cleanup_expired-overdue}

abbrev session : SessionId → String → SessionMetadata
session id name = record {
  id = id;
  name = name;
  transport_config = Transport.default_config;
  status = active;
  priority = normal;
  created_at = secs 5;
  last_used = secs 5;
  use_count = 0;
  tags = [];
  description = none;
}

abbrev empty : Pool
empty = new default_config

-- A pool with one session, put in at second 10.
abbrev one : Pool
one = (add_session empty (secs 10) (session 1 "alpha")).0

one-IsValid : IsValid one
one-IsValid =
    add_session-IsValid empty (secs 10) (session 1 "alpha") (new-IsValid default_config)
      (new-lookup default_config 1)

one-WithinLimits : WithinLimits one
one-WithinLimits =
    add_session-WithinLimits empty (secs 10) (session 1 "alpha") (new-WithinLimits default_config)

pooled_1 : lookup 1 one.pool_metadata ≡ some (pooled (secs 10) (session 1 "alpha"))
unfolding new add_session accepts connection_full put lookup insert
pooled_1 = refl

fresh_2 : lookup 2 one.pool_metadata ≡ none
unfolding new add_session accepts connection_full put lookup insert
fresh_2 = refl

add_session-Accepts_example :
    WithinLimits (add_session one (secs 11) (session 2 "beta")).0
    × ((Accepts one (session 2 "beta")
          × ((add_session one (secs 11) (session 2 "beta")).1 ≡ true)
          × Holds one (add_session one (secs 11) (session 2 "beta")).0 (secs 11) (session 2 "beta"))
        ⊎ (¬ Accepts one (session 2 "beta")
            × (add_session one (secs 11) (session 2 "beta") ≡ (one, false))))
add_session-Accepts_example = add_session-Accepts one (secs 11) (session 2 "beta") one-WithinLimits

one-Accepts : Accepts one (session 1 "alpha")
unfolding new add_session accepts connection_full put lookup insert index_push
one-Accepts = (
  refl,
  refl,
  inr (
      ground (
        arith,
        string_eq.beq_iff (session_key (session 1 "alpha")) (session_key (session 1 "alpha")),
      )),
  omega arith,
)

find_session-best_example :
    (((one.config.enabled && one.config.prefer_reuse) ≡ true)
      × Finds one
          (secs 20)
          "local://yuha-remote"
          (find_session one (secs 20) "local://yuha-remote"))
    ⊎ (((one.config.enabled && one.config.prefer_reuse) ≡ false)
        × (find_session one (secs 20) "local://yuha-remote" ≡ none))
find_session-best_example = find_session-best one (secs 20) "local://yuha-remote"

cleanup_expired-overdue_example :
    (count 1 (cleanup_expired one (secs 500) (secs 300)).1
      ≡ (if overdue (secs 500) (secs 300) (lookup 1 one.pool_metadata) then 1 else 0))
    × (lookup 1 (cleanup_expired one (secs 500) (secs 300)).0.pool_metadata ≡ (
        if overdue (secs 500) (secs 300) (lookup 1 one.pool_metadata)
        then none
        else lookup 1 one.pool_metadata))
cleanup_expired-overdue_example = cleanup_expired-overdue one (secs 500) (secs 300) 1 one-IsValid
