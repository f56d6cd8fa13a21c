-- ===== src/Session/Registry/Race.antt =====
-- Registrations that run at the same time (`register` of crates/core/src/session/registry.rs). The
-- read lock of its checks is let go before the write lock of the insertion is taken, so a task may
-- store its session after others have stored theirs. The lock of each part is held throughout it.
use vscfreedev.Base.{
  ℕ, ◌+◌, ◌-◌, ◌≤◌, ◌<◌, ◌≡◌, refl, sym, ◌∙◌, ◌≢◌, none, List, [], ◌∷◌, ◌++◌, arith, nat_beq_iff,
  nat_eq, string_eq, length, length-append,
}
use vscfreedev.Base.Table.{lookup-insert, lookup, length-insert}
use vscfreedev.Errors.{ok}
use vscfreedev.Session.{SessionId, SessionMetadata}
use vscfreedev.Session.Registry.Invariant.{started-id}
use vscfreedev.Session.Registry.{Registry, admission, started, enroll}

-- The registry, and the sessions whose task has passed the checks and has not stored it yet.
pub record Tasks : Type 0 where
  pub registry : Registry
  pub admitted : List SessionMetadata

-- The two parts of `register`, of any task.
pub data Step : Tasks → Tasks → Type 0 where
  checks :
      (t : Tasks) (m : SessionMetadata)
      → admission t.registry m ≡ ok tt
      → Step t (record t { admitted = m ∷ t.admitted })
  stores :
      (r : Registry) (before after : List SessionMetadata) (m : SessionMetadata)
      → Step
          (record { registry = r; admitted = before ++ m ∷ after })
          (record { registry = enroll r (started m); admitted = before ++ after })

-- Steps during which at most `n` tasks are between their two parts.
pub data Reaches (n : ℕ) : Tasks → Tasks → Type 0 where
  done : (t : Tasks) → Reaches n t t
  next : (t u v : Tasks) → Step t u → length u.admitted ≤ n → Reaches n u v → Reaches n t v

abbrev Bounded : ℕ → ℕ → Tasks → Type 0
Bounded limit n t =
    (t.registry.config.max_sessions ≡ limit)
    × (length t.registry.sessions + length t.admitted ≤ limit + (n - 1))

enroll-length :
    (r : Registry) (m : SessionMetadata)
    → (length (enroll r m).sessions ≤ length r.sessions + 1) × ((enroll r m).config ≡ r.config)
unfolding enroll
enroll-length r m = (ground (arith, length-insert m.id m r.sessions), refl)

admission-room :
    (r : Registry) (m : SessionMetadata)
    → admission r m ≡ ok tt
    → length r.sessions < r.config.max_sessions
unfolding admission
admission-room r m h = ground arith

Step-Bounded :
    (limit n : ℕ) (t u : Tasks)
    → Step t u
    → length u.admitted ≤ n
    → Bounded limit n t
    → Bounded limit n u
Step-Bounded limit n _ _ (checks t m fits) few (same, bound) =
    (same, omega (arith, admission-room t.registry m fits, few, same))
Step-Bounded limit n _ _ (stores r before after m) few (same, bound) =
    let (longer, config) = enroll-length r (started m) in
    (
      rw config same,
      omega (arith, longer, bound, length-append before (m ∷ after), length-append before after),
    )

Reaches-Bounded :
    (limit n : ℕ) (t u : Tasks) → Reaches n t u → Bounded limit n t → Bounded limit n u
Reaches-Bounded limit n _ _ (done t) b = b
Reaches-Bounded limit n _ _ (next t u v s few rest) b =
    Reaches-Bounded limit n u v rest (Step-Bounded limit n t u s few b)

-- While at most `n` registrations run at the same time, and at least one may, a registry that
-- kept its limit before them exceeds it by at most `n - 1` sessions.
pub Reaches-room :
    (n : ℕ) (r : Registry) (t : Tasks)
    → 0 < n
    → length r.sessions ≤ r.config.max_sessions
    → Reaches n (record { registry = r; admitted = [] }) t
    → length t.registry.sessions ≤ r.config.max_sessions + (n - 1)
Reaches-room n r t h room steps =
    let (_, bound) =
      Reaches-Bounded r.config.max_sessions n (record { registry = r; admitted = [] }) t steps
        (refl, omega (arith, room)) in
    omega (arith, bound)

enroll-new :
    (r : Registry) (m : SessionMetadata)
    → lookup m.id r.sessions ≡ none
    → length (enroll r (started m)).sessions ≡ length r.sessions + 1
unfolding enroll
enroll-new r m new' =
    ground (arith, started-id m, new', length-insert (started m).id (started m) r.sessions)

enroll-other :
    (r : Registry) (m : SessionMetadata) (id : SessionId)
    → m.id ≢ id
    → lookup id r.sessions ≡ none
    → lookup id (enroll r (started m)).sessions ≡ none
unfolding enroll
enroll-other r m id differ new' =
    rw (lookup-insert (started m).id id (started m) r.sessions, started-id m)
      (ground (arith, nat_beq_iff m.id id, differ, new'))

-- Where one more session is allowed, two registrations of new and different sessions that the
-- checks admit, both checked before either is stored, reach a registry with one session more than
-- the limit.
pub Reaches-exceeds :
    (r : Registry) (m n : SessionMetadata)
    → length r.sessions + 1 ≡ r.config.max_sessions
    → admission r m ≡ ok tt
    → admission r n ≡ ok tt
    → lookup m.id r.sessions ≡ none
    → lookup n.id r.sessions ≡ none
    → m.id ≢ n.id
    → (t : Tasks) × Reaches 2 (record { registry = r; admitted = [] }) t
      × (length t.registry.sessions ≡ r.config.max_sessions + 1)
Reaches-exceeds r m n room m_fits n_fits m_new n_new differ = (
  record { registry = enroll (enroll r (started n)) (started m); admitted = [] },
  next _ _ _ (checks _ m m_fits) (omega arith) (
      next _ _ _ (checks _ n n_fits) (omega arith) (
        next _ _ _ (stores r [] (m ∷ []) n) (omega arith)
          (next _ _ _ (stores (enroll r (started n)) [] [] m) (omega arith) (done _)))),
  enroll-new (enroll r (started n)) m (enroll-other r n m.id (λ e. differ (sym e)) m_new)
      ∙ omega (arith, enroll-new r n n_new, room),
)
