-- ===== src/Session/Pool/Limits.antt =====
-- The limits of the pool, and when a session is taken in (crates/core/src/session/pool.rs).
use vscfreedev.Base.{
  ℕ, ◌≤◌, ◌<◌, max, String, ◌≡◌, refl, ◌∙◌, ◌≢◌, ◌↔◌, ◌⊎◌, inl, inr, true, false, ◌&&◌, Option,
  none, some, List, [], ◌∷◌, ◌++◌, arith, if◌then◌else◌, ◌==◌, nat_beq_iff, nat_eq, string_eq,
  beq_refl, Bool-cases, length, count, length-append, length-without-le,
}
use vscfreedev.Base.Table.{lookup, lookup-insert, length-insert, length-remove-le}
use vscfreedev.Base.Index.{bucket, bucket-push, bucket-drop, or_empty, count-push}
use vscfreedev.Session.{SessionId, SessionMetadata, session_key, is_usable_status}
use vscfreedev.Session.Pool.{
  new, PoolConfig, Pool, PooledSessionMetadata, accepts, connection_full, put, pooled, add_session,
  take_out, remove_session,
}
use vscfreedev.Session.Pool.Invariant.{IsValid}

-- A per-connection limit of zero still lets one session in.
pub record WithinLimits (p : Pool) : Type 0 where
  pub total : length p.pool_metadata ≤ p.config.max_total_sessions
  pub per_connection :
      (k : String) → length (bucket k p.pools) ≤ max 1 p.config.max_sessions_per_connection

-- What `add_session` asks of the pool and the session.
abbrev pub Accepts : Pool → SessionMetadata → Type 0
Accepts p s =
    (p.config.enabled ≡ true)
    × (is_usable_status s.status ≡ true)
    × ((lookup (session_key s) p.pools ≡ none)
        ⊎ (length (bucket (session_key s) p.pools) < p.config.max_sessions_per_connection))
    × (length p.pool_metadata < p.config.max_total_sessions)

room-cases :
    (p : Pool) (o : Option (List SessionId))
    → (connection_full p o ≡ false)
      ↔ ((o ≡ none) ⊎ (length (or_empty o) < p.config.max_sessions_per_connection))
unfolding connection_full
room-cases p none = ground arith
room-cases p (some ids) = ground arith

accepts-Accepts : (p : Pool) (s : SessionMetadata) → (accepts p s ≡ true) ↔ Accepts p s
unfolding accepts
accepts-Accepts p s = ground (arith, room-cases p (lookup (session_key s) p.pools))

put-WithinLimits :
    (p : Pool) (now : ℕ) (s : SessionMetadata)
    → WithinLimits p
    → Accepts p s
    → WithinLimits (put p now s)
unfolding put
put-WithinLimits p now s w a = record {
  total = ground (arith, length-insert s.id (pooled now s) p.pool_metadata);
  per_connection = λ k. ground (
    arith,
    bucket-push (session_key s) k s.id p.pools,
    length-append (bucket k p.pools) (s.id ∷ []),
    string_eq.beq_iff (session_key s) k,
    w.per_connection k,
  );
}

-- What the pool holds of a session that was taken in, next to what it held before.
abbrev pub Holds : Pool → Pool → ℕ → SessionMetadata → Type 0
Holds p p' now s =
    (lookup s.id p'.pool_metadata ≡ some (pooled now s))
    × ((i : SessionId) → i ≢ s.id → lookup i p'.pool_metadata ≡ lookup i p.pool_metadata)
    × (bucket (session_key s) p'.pools ≡ bucket (session_key s) p.pools ++ (s.id ∷ []))
    × ((k : String) → k ≢ session_key s → bucket k p'.pools ≡ bucket k p.pools)

put-Holds : (p : Pool) (now : ℕ) (s : SessionMetadata) → Holds p (put p now s) now s
unfolding put
put-Holds p now s = (
  lookup-insert s.id s.id (pooled now s) p.pool_metadata ∙ rw (beq_refl s.id) refl,
  λ i other.
      ground
        (arith, lookup-insert s.id i (pooled now s) p.pool_metadata, nat_beq_iff s.id i, other),
  bucket-push (session_key s) (session_key s) s.id p.pools ∙ rw (beq_refl (session_key s)) refl,
  λ k other. ground (
    arith,
    bucket-push (session_key s) k s.id p.pools,
    string_eq.beq_iff (session_key s) k,
    other,
  ),
)

-- Adding a session, whether it is taken in or not, keeps the limits of the pool.
pub add_session-WithinLimits :
    (p : Pool) (now : ℕ) (s : SessionMetadata)
    → WithinLimits p
    → WithinLimits (add_session p now s).0
unfolding add_session
add_session-WithinLimits p now s w = elim (Bool-cases (accepts p s)) [
  | inl fine ↦ rw fine (put-WithinLimits p now s w ((accepts-Accepts p s).0 fine))
  | inr no' ↦ rw no' w
]

-- A pool within its limits stays so when a session is offered to it, and takes the session in
-- exactly when the pool is enabled, the session is active or idle, its connection has no entry or
-- fewer sessions than the limit, and the pool has fewer than the total limit: then the metadata of
-- the session can be looked up and its id stands last in the list of its connection, while the
-- metadata of other sessions and the lists of other connections are as before. A session that is
-- not taken in leaves the pool unchanged.
pub add_session-Accepts :
    (p : Pool) (now : ℕ) (s : SessionMetadata)
    → WithinLimits p
    → WithinLimits (add_session p now s).0
      × ((Accepts p s × ((add_session p now s).1 ≡ true) × Holds p (add_session p now s).0 now s)
          ⊎ (¬ Accepts p s × (add_session p now s ≡ (p, false))))
unfolding add_session
add_session-Accepts p now s w = (
  add_session-WithinLimits p now s w,
  elim (Bool-cases (accepts p s)) [
    | inl fine ↦ rw fine (inl ((accepts-Accepts p s).0 fine, refl, put-Holds p now s))
    | inr no' ↦ rw no' (inr (λ a. absurd (ground (arith, accepts-Accepts p s, a)), refl))
  ],
)

take_out-WithinLimits :
    (p : Pool) (id : SessionId) (found : Option PooledSessionMetadata)
    → WithinLimits p
    → WithinLimits (take_out p id found).0
unfolding take_out
take_out-WithinLimits p id none w = record {
  total = omega (arith, length-remove-le id p.pool_metadata, w.total);
  per_connection = w.per_connection;
}
take_out-WithinLimits p id (some m) w = record {
  total = omega (arith, length-remove-le id p.pool_metadata, w.total);
  per_connection = λ k. ground (
    arith,
    bucket-drop m.connection_key k id p.pools,
    length-without-le id (bucket k p.pools),
    w.per_connection k,
  );
}

-- A removal keeps the limits, whether the id is pooled or not.
pub remove_session-WithinLimits :
    (p : Pool) (id : SessionId) → WithinLimits p → WithinLimits (remove_session p id).0
unfolding remove_session
remove_session-WithinLimits p id w = take_out-WithinLimits p id (lookup id p.pool_metadata) w

-- On a well-formed pool, a session that is pooled already and meets the conditions of
-- `add_session` is taken in once more: if its connection key is the same, its id then stands
-- twice in the list of the connection; if the key has changed, the list of the old connection
-- keeps the id, while the metadata names the new connection only.
pub add_session_again :
    (p : Pool) (now : ℕ) (s : SessionMetadata) (m : PooledSessionMetadata)
    → IsValid p
    → Accepts p s
    → lookup s.id p.pool_metadata ≡ some m
    → ((m.connection_key ≡ session_key s)
        × (count s.id (bucket (session_key s) (add_session p now s).0.pools) ≡ 2))
      ⊎ ((m.connection_key ≢ session_key s)
          × (count s.id (bucket m.connection_key (add_session p now s).0.pools) ≡ 1)
          × (lookup s.id (add_session p now s).0.pool_metadata ≡ some (pooled now s)))
unfolding add_session
add_session_again p now s m v a held =
    rw ((accepts-Accepts p s).1 a, put)
      (elim (Bool-cases (m.connection_key == session_key s)) [
        | inl yes' ↦
            let same = (string_eq.beq_iff m.connection_key (session_key s)).0 yes' in
            inl (
              same,
              ground (
                arith,
                count-push (session_key s) (session_key s) s.id s.id p.pools,
                v.by_key (session_key s) s.id,
                beq_refl s.id,
                string_eq.beq_iff m.connection_key (session_key s),
                string_eq.beq_iff (session_key s) (session_key s),
              ),
            )
        | inr no' ↦ inr (
          λ same. ground (arith, string_eq.beq_iff m.connection_key (session_key s)),
          ground (
            arith,
            count-push (session_key s) m.connection_key s.id s.id p.pools,
            v.by_key m.connection_key s.id,
            string_eq.beq_iff (session_key s) m.connection_key,
            string_eq.beq_iff m.connection_key (session_key s),
            string_eq.beq_iff m.connection_key m.connection_key,
          ),
          ground (
            arith,
            lookup-insert s.id s.id (pooled now s) p.pool_metadata,
            nat_beq_iff s.id s.id,
          ),
        )
      ])

pub lookup-add_session :
    (p : Pool) (now : ℕ) (s : SessionMetadata) (i : SessionId)
    → lookup i (add_session p now s).0.pool_metadata ≡ (
        if (add_session p now s).1 && s.id == i
        then some (pooled now s)
        else lookup i p.pool_metadata)
unfolding add_session
lookup-add_session p now s i = ground (arith, lookup-insert s.id i (pooled now s) p.pool_metadata)

pub new-WithinLimits : (c : PoolConfig) → WithinLimits (new c)
unfolding new lookup
new-WithinLimits c = record { total = omega arith; per_connection = λ k. omega arith }

pub new-lookup : (c : PoolConfig) (i : SessionId) → lookup i (new c).pool_metadata ≡ none
unfolding new lookup
new-lookup c i = refl
