-- ===== src/Session/Pool/Reuse.antt =====
-- Which session the pool offers for reuse (crates/core/src/session/pool.rs, `find_session`).
use vscfreedev.Base.{
  ℕ, ◌≤◌, ◌<◌, String, ◌≡◌, refl, subst, ◌⊎◌, inl, inr, true, false, ◌&&◌, Option, none, some, List,
  [], ◌∷◌, arith, ltb, nat_beq, nat_beq_iff, nat_eq, string_eq, beq_refl, Bool-cases, Option-cases,
  count,
}
use vscfreedev.Base.Table.{lookup}
use vscfreedev.Base.Index.{bucket}
use native.Mathlib.Nat.{le_trans}
use vscfreedev.Session.{SessionId, secs}
use vscfreedev.Session.Pool.{
  Pool, PooledSessionMetadata, pooled_for, calculate_reuse_score, candidate, Best, no_best, offer,
  scan, find_session,
}

-- A score lies between 25 and 135.
calculate_reuse_score_bounds :
    (now : ℕ) (m : PooledSessionMetadata)
    → (25 ≤ calculate_reuse_score now m) × (calculate_reuse_score now m ≤ 135)
unfolding calculate_reuse_score
calculate_reuse_score_bounds now m = ground arith

module _ (f : SessionId → Option ℕ) (Listed : SessionId → Type 0) where
  -- What is held as the best so far is a listed candidate with that score.
  abbrev IsHeld : Best → Type 0
  IsHeld b =
      ((b.best_session ≡ none) × (b.best_score ≡ 0))
      ⊎ ((i : SessionId) × (b.best_session ≡ some i)
          × (f i ≡ some b.best_score)
          × (0 < b.best_score)
          × Listed i)

  -- Nothing in a list beats a score.
  abbrev Unbeaten : ℕ → List SessionId → Type 0
  Unbeaten n ids = (i : SessionId) (k : ℕ) → 0 < count i ids → f i ≡ some k → k ≤ n

  offer-IsHeld : (x : SessionId) (b : Best) → Listed x → IsHeld b → IsHeld (offer (f x) x b)
  unfolding offer
  offer-IsHeld x b l h = elim (Option-cases (f x)) [
    | inl none' ↦ rw (none', offer) h
    | inr (k, e) ↦
        rw (e, offer)
          (elim (Bool-cases (ltb b.best_score k)) [
            | inl better ↦ rw better (inr (x, refl, e, ground arith, l))
            | inr worse ↦ rw worse h
          ])
  ]

  offer-best_score :
      (x : SessionId) (b : Best)
      → (b.best_score ≤ (offer (f x) x b).best_score)
        × ((k : ℕ) → f x ≡ some k → k ≤ (offer (f x) x b).best_score)
  unfolding offer
  offer-best_score x b = elim (Option-cases (f x)) [
    | inl none' ↦ rw (none', offer) (omega arith, λ k e. cc)
    | inr (k, e) ↦ rw (e, offer) (ground arith, λ j e'. ground arith)
  ]

  scan-best :
      (ids : List SessionId) (b : Best)
      → ((i : SessionId) → 0 < count i ids → Listed i)
      → IsHeld b
      → IsHeld (scan f ids b)
        × (b.best_score ≤ (scan f ids b).best_score)
        × Unbeaten (scan f ids b).best_score ids
  unfolding scan
  scan-best [] b l h = (h, omega arith, λ i k n e. absurd (omega arith))
  scan-best (x ∷ ids) b l h =
      let b' = offer (f x) x b in
      let (grows, covers) = offer-best_score x b in
      let (held, above, rest) =
        scan-best ids b' (λ i n. l i (ground arith))
          (offer-IsHeld x b (l x (ground (arith, beq_refl x))) h) in
      (
        held,
        omega (arith, grows, above),
        λ i k n e. elim (Bool-cases (nat_beq x i)) [
          | inl here ↦ le_trans (covers k (rw ((nat_beq_iff x i).0 here) e)) above
          | inr later ↦ rest i k (ground arith) e
        ],
      )

-- A session of the connection with its metadata, pooled for the least idle time.
abbrev pub IsEligible : Pool → ℕ → String → SessionId → PooledSessionMetadata → Type 0
IsEligible p now key i m =
    (0 < count i (bucket key p.pools))
    × (lookup i p.pool_metadata ≡ some m)
    × (secs p.config.min_idle_time ≤ pooled_for now m)

candidate-score :
    (p : Pool) (now : ℕ) (i : SessionId) (k : ℕ)
    → candidate p now i ≡ some k
    → (m : PooledSessionMetadata) × (lookup i p.pool_metadata ≡ some m)
      × (secs p.config.min_idle_time ≤ pooled_for now m)
      × (k ≡ calculate_reuse_score now m)
unfolding candidate
candidate-score p now i k e = elim (Option-cases (lookup i p.pool_metadata)) [
  | inl miss ↦ absurd (ground (arith, miss))
  | inr (m, hit) ↦ (m, hit, ground (arith, hit), ground (arith, hit))
]

eligible-candidate :
    (p : Pool) (now : ℕ) (key : String) (i : SessionId) (m : PooledSessionMetadata)
    → IsEligible p now key i m
    → candidate p now i ≡ some (calculate_reuse_score now m)
unfolding candidate
eligible-candidate p now key i m h = rw h.1 (ground arith)

-- The end of the scan over the list of a connection.
result : Pool → ℕ → String → Best
unfolding find_session
result p now key = scan (candidate p now) (bucket key p.pools) no_best

-- What it means that a search found the best session.
abbrev pub Finds : Pool → ℕ → String → Option SessionId → Type 0
Finds p now key found =
    ((found ≡ none) × ((i : SessionId) (m : PooledSessionMetadata) → ¬ IsEligible p now key i m))
    ⊎ ((i : SessionId) × (m : PooledSessionMetadata) × (found ≡ some i)
        × IsEligible p now key i m
        × ((j : SessionId) (n : PooledSessionMetadata)
            → IsEligible p now key j n
            → calculate_reuse_score now n ≤ calculate_reuse_score now m))

result-Finds : (p : Pool) (now : ℕ) (key : String) → Finds p now key (result p now key).best_session
unfolding result
result-Finds p now key =
    let (held, _, unbeaten) =
      scan-best (candidate p now) (λ i. 0 < count i (bucket key p.pools)) (bucket key p.pools)
        no_best (λ i h. h) (inl (refl, refl)) in
    elim held [
      | inl (nothing, zero') ↦ inl (
        nothing,
        λ i m h.
            let le = unbeaten i _ h.0 (eligible-candidate p now key i m h) in
            absurd (omega (arith, le, zero', calculate_reuse_score_bounds now m)),
      )
      | inr (i, found, score, _, listed) ↦
          let (m, hit, waited, same) = candidate-score p now i _ score in
          inr (
            i,
            m,
            found,
            (listed, hit, waited),
            λ j n h. rw (← same) (unbeaten j _ h.0 (eligible-candidate p now key j n h)),
          )
    ]

-- The two settings of the pool.
pub find_session-Finds :
    (p : Pool) (now : ℕ) (key : String)
    → ((p.config.enabled && p.config.prefer_reuse) ≡ true
        → Finds p now key (find_session p now key))
      × ((p.config.enabled && p.config.prefer_reuse) ≡ false → find_session p now key ≡ none)
unfolding find_session result
find_session-Finds p now key = (λ on. ground (arith, result-Finds p now key), λ off. ground arith)

-- With the pool and the reuse turned on, `find_session` finds a session exactly when one is
-- eligible, and then an eligible one whose score no eligible session beats. With one of them
-- turned off it finds none.
pub find_session-best :
    (p : Pool) (now : ℕ) (key : String)
    → (((p.config.enabled && p.config.prefer_reuse) ≡ true)
        × Finds p now key (find_session p now key))
      ⊎ (((p.config.enabled && p.config.prefer_reuse) ≡ false) × (find_session p now key ≡ none))
find_session-best p now key = elim (Bool-cases (p.config.enabled && p.config.prefer_reuse)) [
  | inl on ↦ inl (on, (find_session-Finds p now key).0 on)
  | inr off ↦ inr (off, (find_session-Finds p now key).1 off)
]

found_once : (o : Option SessionId) (i j : SessionId) → o ≡ some i → o ≡ some j → i ≡ j
found_once o i j h k = cc

-- What is found is eligible.
pub find_session-IsEligible :
    (p : Pool) (now : ℕ) (key : String) (id : SessionId)
    → find_session p now key ≡ some id
    → (m : PooledSessionMetadata) × IsEligible p now key id m
find_session-IsEligible p now key id h =
    elim (Bool-cases (p.config.enabled && p.config.prefer_reuse)) [
      | inl on ↦ elim ((find_session-Finds p now key).0 on) [
        | inl (nothing, _) ↦ absurd (ground arith)
        | inr (i, m, found, eligible, _) ↦
            (m, subst (λ j. IsEligible p now key j m) (found_once _ i id found h) eligible)
      ]
      | inr off ↦ absurd (ground (arith, (find_session-Finds p now key).1 off))
    ]
