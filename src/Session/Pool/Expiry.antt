-- ===== src/Session/Pool/Expiry.antt =====
-- The cleanup of the pool (crates/core/src/session/pool.rs, `cleanup_expired`).
use vscfreedev.Base.{
  ℕ, ◌-◌, ◌≡◌, refl, Bool, false, Option, none, some, List, [], ◌∷◌, arith, ltb, if◌then◌else◌,
  ◌==◌, nat_beq_iff, nat_eq, string_eq, count,
}
use vscfreedev.Base.Table.{Table, lookup, IsMap, lookup-remove}
use vscfreedev.Session.{SessionId}
use vscfreedev.Session.Pool.{
  Pool, PooledSessionMetadata, is_expired, expired_ids, take_out, remove_session, remove_each,
  cleanup_expired,
}
use vscfreedev.Session.Pool.Invariant.{IsValid}

take_out-lookup :
    (p : Pool) (id i : SessionId) (found : Option PooledSessionMetadata)
    → lookup i (take_out p id found).0.pool_metadata
      ≡ (if id == i then none else lookup i p.pool_metadata)
unfolding take_out
take_out-lookup p id i none = lookup-remove id i p.pool_metadata
take_out-lookup p id i (some m) = lookup-remove id i p.pool_metadata

pub lookup-remove_session :
    (p : Pool) (id i : SessionId)
    → lookup i (remove_session p id).0.pool_metadata
      ≡ (if id == i then none else lookup i p.pool_metadata)
unfolding remove_session
lookup-remove_session p id i = take_out-lookup p id i (lookup id p.pool_metadata)

lookup-remove_each :
    (p : Pool) (ids : List SessionId) (i : SessionId)
    → lookup i (remove_each p ids).pool_metadata
      ≡ (if ltb 0 (count i ids) then none else lookup i p.pool_metadata)
unfolding remove_each
lookup-remove_each p [] i = refl
lookup-remove_each p (id ∷ ids) i =
    ground (arith, lookup-remove_each (remove_session p id).0 ids i, lookup-remove_session p id i)

-- Whether an entry has waited longer than `max_idle`.
abbrev pub overdue : ℕ → ℕ → Option PooledSessionMetadata → Bool
overdue now max_idle none = false
overdue now max_idle (some m) = ltb max_idle (now - m.pooled_at)

count-expired_ids :
    (now max_idle : ℕ) (t : Table SessionId PooledSessionMetadata) (i : SessionId)
    → IsMap t
    → count i (expired_ids now max_idle t) ≡ (if overdue now max_idle (lookup i t) then 1 else 0)
unfolding expired_ids is_expired lookup
count-expired_ids now max_idle [] i d = refl
count-expired_ids now max_idle ((k, m) ∷ t) i d =
    ground (arith, count-expired_ids now max_idle t i d.1, nat_beq_iff k i)

-- On a well-formed pool the cleanup reports each session that has waited longer than the given
-- time, once, and no other; it takes exactly these out, and keeps the entries of all others.
pub cleanup_expired-overdue :
    (p : Pool) (now max_idle : ℕ) (i : SessionId)
    → IsValid p
    → (count i (cleanup_expired p now max_idle).1
        ≡ (if overdue now max_idle (lookup i p.pool_metadata) then 1 else 0))
      × (lookup i (cleanup_expired p now max_idle).0.pool_metadata ≡ (
          if overdue now max_idle (lookup i p.pool_metadata)
          then none
          else lookup i p.pool_metadata))
unfolding cleanup_expired
cleanup_expired-overdue p now max_idle i v =
    let n = count-expired_ids now max_idle p.pool_metadata i v.distinct in
    (n, ground (arith, n, lookup-remove_each p (expired_ids now max_idle p.pool_metadata) i))

remove_each-keeps {ℓ} :
    (P : Pool → Type ℓ) (keep : (p : Pool) (id : SessionId) → P p → P (remove_session p id).0)
    (p : Pool) (ids : List SessionId)
    → P p
    → P (remove_each p ids)
unfolding remove_each
remove_each-keeps P keep p [] h = h
remove_each-keeps P keep p (id ∷ ids) h =
    remove_each-keeps P keep (remove_session p id).0 ids (keep p id h)

-- What a removal keeps, the cleanup keeps.
pub cleanup_expired-keeps {ℓ} :
    (P : Pool → Type ℓ) (keep : (p : Pool) (id : SessionId) → P p → P (remove_session p id).0)
    (p : Pool) (now max_idle : ℕ)
    → P p
    → P (cleanup_expired p now max_idle).0
unfolding cleanup_expired
cleanup_expired-keeps P keep p now max_idle h =
    remove_each-keeps P keep p (expired_ids now max_idle p.pool_metadata) h
