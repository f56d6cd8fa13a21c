-- ===== src/Session/Pool/Waiting.antt =====
-- A session just pooled is not offered yet (crates/core/src/session/pool.rs).
use vscfreedev.Base.{
  ℕ, ◌-◌, ◌<◌, String, ◌≡◌, inl, inr, ◌&&◌, none, [], arith, nat_beq_iff, nat_eq, string_eq,
  beq_refl, Bool-cases,
}
use vscfreedev.Base.Table.{lookup-insert}
use vscfreedev.Base.Index.{bucket, bucket-push}
use vscfreedev.Session.{SessionId, SessionMetadata, session_key, secs}
use vscfreedev.Session.Pool.{
  Pool, PooledSessionMetadata, accepts, put, pooled, add_session, find_session,
}
use vscfreedev.Session.Pool.Reuse.{IsEligible, find_session-Finds}

none_eligible :
    (p : Pool) (now : ℕ) (key : String)
    → ((i : SessionId) (m : PooledSessionMetadata) → ¬ IsEligible p now key i m)
    → find_session p now key ≡ none
none_eligible p now key h = elim (Bool-cases (p.config.enabled && p.config.prefer_reuse)) [
  | inl on ↦ elim ((find_session-Finds p now key).0 on) [
    | inl (nothing, _) ↦ nothing
    | inr (i, m, _, eligible, _) ↦ absurd (h i m eligible)
  ]
  | inr off ↦ (find_session-Finds p now key).1 off
]

put-IsEligible :
    (p : Pool) (now later : ℕ) (s : SessionMetadata)
    → bucket (session_key s) p.pools ≡ []
    → later - now < secs p.config.min_idle_time
    → (i : SessionId) (m : PooledSessionMetadata)
    → ¬ IsEligible (put p now s) later (session_key s) i m
unfolding put pooled
put-IsEligible p now later s alone early i m h = ground (
  arith,
  bucket-push (session_key s) (session_key s) s.id p.pools,
  beq_refl (session_key s),
  lookup-insert s.id i (pooled now s) p.pool_metadata,
  nat_beq_iff s.id i,
)

-- A session added to the pool as the only one of its connection is not found for reuse at a later
-- time that comes sooner than the least idle time.
pub add_session_waits :
    (p : Pool) (now later : ℕ) (s : SessionMetadata)
    → bucket (session_key s) p.pools ≡ []
    → later - now < secs p.config.min_idle_time
    → find_session (add_session p now s).0 later (session_key s) ≡ none
unfolding add_session
add_session_waits p now later s alone early = elim (Bool-cases (accepts p s)) [
  | inl fine ↦
      rw fine (
        none_eligible (put p now s) later (session_key s)
          (put-IsEligible p now later s alone early))
  | inr no' ↦ rw no' (none_eligible p later (session_key s) (λ i m h. ground arith))
]
