-- ===== src/Session/Pool/Invariant.antt =====
-- The bookkeeping of the pool: its lists and its metadata agree
-- (crates/core/src/session/pool.rs).
use vscfreedev.Base.{
  ℕ, String, ◌≡◌, refl, inl, inr, Option, none, some, List, [], ◌∷◌, arith, nat_beq_iff, nat_eq,
  string_eq, Bool-cases,
}
use vscfreedev.Base.Table.{lookup, IsMap, insert-IsMap, remove-IsMap, lookup-remove}
use vscfreedev.Base.Indexed.{IsIndexOf, push-IsIndexOf, drop-IsIndexOf}
use vscfreedev.Session.{SessionId, SessionMetadata}
use vscfreedev.Session.Pool.{
  PoolConfig, PooledSessionMetadata, Pool, new, accepts, put, pooled, add_session, take_out,
  remove_session, expired_ids, remove_each, cleanup_expired, clear,
}

abbrev pub key_of : PooledSessionMetadata → String
key_of m = m.connection_key

pub record IsValid (p : Pool) : Type 0 where
  pub distinct : IsMap p.pool_metadata
  pub by_key : IsIndexOf key_of p.pool_metadata p.pools

pub new-IsValid : (c : PoolConfig) → IsValid (new c)
unfolding new lookup
new-IsValid c = record { distinct = tt; by_key = λ k i. refl }

put-IsValid :
    (p : Pool) (now : ℕ) (s : SessionMetadata)
    → IsValid p
    → lookup s.id p.pool_metadata ≡ none
    → IsValid (put p now s)
unfolding put
put-IsValid p now s v fresh = record {
  distinct = insert-IsMap s.id (pooled now s) p.pool_metadata v.distinct;
  by_key = push-IsIndexOf key_of p.pool_metadata p.pools s.id v.by_key (pooled now s) fresh;
}

-- Adding a session that is not in the pool, whether it is taken in or not, keeps the pool well
-- formed: the lists of the connections and the metadata agree.
pub add_session-IsValid :
    (p : Pool) (now : ℕ) (s : SessionMetadata)
    → IsValid p
    → lookup s.id p.pool_metadata ≡ none
    → IsValid (add_session p now s).0
unfolding add_session
add_session-IsValid p now s v fresh = elim (Bool-cases (accepts p s)) [
  | inl fine ↦ rw fine (put-IsValid p now s v fresh)
  | inr no' ↦ rw no' v
]

take_out-IsValid :
    (p : Pool) (id : SessionId) (found : Option PooledSessionMetadata)
    → IsValid p
    → lookup id p.pool_metadata ≡ found
    → IsValid (take_out p id found).0
unfolding take_out
take_out-IsValid p id none v e = record {
  distinct = remove-IsMap id p.pool_metadata v.distinct;
  by_key =
      λ k i. ground (arith, lookup-remove id i p.pool_metadata, nat_beq_iff id i, v.by_key k i);
}
take_out-IsValid p id (some m) v e = record {
  distinct = remove-IsMap id p.pool_metadata v.distinct;
  by_key = drop-IsIndexOf key_of p.pool_metadata p.pools id v.by_key m e;
}

-- Removing any id, pooled or not, keeps a pool well formed.
pub remove_session-IsValid :
    (p : Pool) (id : SessionId) → IsValid p → IsValid (remove_session p id).0
unfolding remove_session
remove_session-IsValid p id v = take_out-IsValid p id (lookup id p.pool_metadata) v refl

remove_each-IsValid : (p : Pool) (ids : List SessionId) → IsValid p → IsValid (remove_each p ids)
unfolding remove_each
remove_each-IsValid p [] v = v
remove_each-IsValid p (id ∷ ids) v =
    remove_each-IsValid (remove_session p id).0 ids (remove_session-IsValid p id v)

pub cleanup_expired-IsValid :
    (p : Pool) (now max_idle : ℕ) → IsValid p → IsValid (cleanup_expired p now max_idle).0
unfolding cleanup_expired
cleanup_expired-IsValid p now max_idle v =
    remove_each-IsValid p (expired_ids now max_idle p.pool_metadata) v

clear-IsValid : (p : Pool) → IsValid (clear p)
unfolding clear lookup
clear-IsValid p = record { distinct = tt; by_key = λ k i. refl }
