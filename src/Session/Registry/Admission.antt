-- ===== src/Session/Registry/Admission.antt =====
-- What `register` admits and refuses, and what the registry answers afterwards
-- (crates/core/src/session/registry.rs).
use vscfreedev.Base.{
  ◌≤◌, ◌<◌, ◌≡◌, refl, sym, ap, ◌∙◌, ◌≢◌, ◌↔◌, ◌⊎◌, inl, inr, true, false, not, ◌&&◌, Option, none,
  some, List, [], ◌∷◌, arith, leb, if◌then◌else◌, ◌==◌, nat_beq_iff, nat_eq, string_eq, beq_refl,
  Bool-cases, length,
}
use vscfreedev.Base.Table.{lookup, lookup-insert, lookup-remove, length-insert}
use vscfreedev.Base.Index.{bucket, or_empty}
use vscfreedev.Session.{SessionId, SessionMetadata}
use vscfreedev.Errors.{ok, err, YuhaError, SessionError}
use vscfreedev.Session.Registry.{
  Registry, get, register, register_if, admission, taken, started, enroll, unregister,
  unregister_found, session_error,
}
use vscfreedev.Session.Registry.Invariant.{IsValid}

-- There is room, and where duplicate names are not allowed the name index shows no session
-- with the name.
abbrev pub Admits : Registry → SessionMetadata → Type 0
Admits r m =
    (length r.sessions < r.config.max_sessions)
    × ((r.config.allow_duplicate_names ≡ true) ⊎ (bucket m.name r.name_index ≡ []))

taken-cases : (o : Option (List SessionId)) → (taken o ≡ false) ↔ (or_empty o ≡ [])
unfolding taken
taken-cases none = ground arith
taken-cases (some []) = ground arith
taken-cases (some (x ∷ xs)) = ground arith

admission-cases :
    (r : Registry) (m : SessionMetadata)
    → (Admits r m × (admission r m ≡ ok tt))
      ⊎ ((¬ Admits r m) × ((e : YuhaError) × (admission r m ≡ err e)))
unfolding admission
admission-cases r m =
    let seen = lookup m.name r.name_index in
    elim (Bool-cases (leb r.config.max_sessions (length r.sessions))) [
      | inl full ↦ inr (
        λ a. ground arith,
        (session_error (SessionError.max_sessions_reached r.config.max_sessions), rw full),
      )
      | inr room ↦ elim (Bool-cases (not r.config.allow_duplicate_names && taken seen)) [
        | inl held ↦ inr (
          λ a. ground (arith, taken-cases seen),
          (session_error (SessionError.already_exists m.name), rw (room, held)),
        )
        | inr free ↦ inl ((ground arith, ground (arith, taken-cases seen)), rw (room, free))
      ]
    ]

pub register-admitted :
    (r : Registry) (m : SessionMetadata)
    → Admits r m
    → register r m ≡ (enroll r (started m), ok m.id)
unfolding register
register-admitted r m fits = elim (admission-cases r m) [
  | inl (_, fine) ↦ rw (fine, register_if)
  | inr (no', _) ↦ absurd (no' fits)
]

-- The observable effect of a registration that is admitted.
abbrev pub Registered : Registry → SessionMetadata → Registry → Type 0
Registered r m r' =
    ((i : SessionId) → get r' i ≡ (if m.id == i then some (started m) else get r i))
    × (length r'.sessions ≤ r'.config.max_sessions)
    × (r'.config ≡ r.config)

register-refused :
    (r : Registry) (m : SessionMetadata) (e : YuhaError)
    → admission r m ≡ err e
    → register r m ≡ (r, err e)
unfolding register
register-refused r m e refused = rw (refused, register_if)

enroll-Registered :
    (r : Registry) (m : SessionMetadata) → Admits r m → Registered r m (enroll r (started m))
unfolding enroll started
enroll-Registered r m fits = (
  λ i. ground (arith, lookup-insert m.id i (started m) r.sessions),
  ground (arith, length-insert m.id (started m) r.sessions),
  refl,
)

-- A registration succeeds exactly when there is room for a session and, where duplicate names are
-- not allowed, the name index shows no session with the name. Then the session can be read back,
-- `creating` turned into `connecting`, every other session is as before, and the session limit
-- holds. Otherwise the registry is unchanged.
pub register-Admits :
    (r : Registry) (m : SessionMetadata)
    → (Admits r m × ((register r m).1 ≡ ok m.id) × Registered r m (register r m).0)
      ⊎ (¬ Admits r m × ((e : YuhaError) × ((register r m).1 ≡ err e)) × ((register r m).0 ≡ r))
register-Admits r m = elim (admission-cases r m) [
  | inl (fits, _) ↦ inl (
    fits,
    ap (λ p. p.1) (register-admitted r m fits),
    rw (register-admitted r m fits) (enroll-Registered r m fits),
  )
  | inr (no', (e, refused)) ↦
      let same = register-refused r m e refused in
      inr (no', (e, ap (λ p. p.1) same), ap (λ p. p.0) same)
]

-- On a well-formed registry with the name index turned off and room for a session, a registration
-- always succeeds: the test for duplicate names refuses no session, whatever names are taken and
-- whatever `allow_duplicate_names` says.
pub register-unindexed :
    (r : Registry) (m : SessionMetadata)
    → IsValid r
    → r.config.enable_name_index ≡ false
    → length r.sessions < r.config.max_sessions
    → (register r m).1 ≡ ok m.id
unfolding lookup
register-unindexed r m v off room =
    ap (λ p. p.1) (register-admitted r m (room, inr (rw (v.unused off, lookup))))

-- No two sessions share a name.
abbrev pub NamesDiffer : Registry → Type 0
NamesDiffer r =
    (i j : SessionId) (m n : SessionMetadata)
    → get r i ≡ some m
    → get r j ≡ some n
    → m.name ≡ n.name
    → i ≡ j

started-name : (m : SessionMetadata) → (started m).name ≡ m.name
unfolding started
started-name m = ground arith

free_name :
    (r : Registry) (m n : SessionMetadata) (i : SessionId)
    → IsValid r
    → r.config.allow_duplicate_names ≡ false
    → r.config.enable_name_index ≡ true
    → Admits r m
    → get r i ≡ some n
    → n.name ≢ m.name
free_name r m n i v strict on fits h e =
    ground (arith, v.by_name on m.name i, string_eq.beq_iff n.name m.name, fits.1)

joined-NamesDiffer :
    (r : Registry) (m : SessionMetadata)
    → IsValid r
    → r.config.allow_duplicate_names ≡ false
    → r.config.enable_name_index ≡ true
    → Admits r m
    → NamesDiffer r
    → (i j : SessionId) (a b : SessionMetadata)
    → (if m.id == i then some (started m) else get r i) ≡ some a
    → (if m.id == j then some (started m) else get r j) ≡ some b
    → a.name ≡ b.name
    → i ≡ j
joined-NamesDiffer r m v strict on fits differ i j a b ha hb same = ground (
  arith,
  nat_beq_iff m.id i,
  nat_beq_iff m.id j,
  started-name m,
  free_name r m a i v strict on fits,
  free_name r m b j v strict on fits,
  differ i j a b,
)

-- On a well-formed registry that allows no duplicate names and has the name index on, a
-- registration of a new id keeps the names of the sessions different.
pub register-NamesDiffer :
    (r : Registry) (m : SessionMetadata)
    → IsValid r
    → r.config.allow_duplicate_names ≡ false
    → r.config.enable_name_index ≡ true
    → lookup m.id r.sessions ≡ none
    → NamesDiffer r
    → NamesDiffer (register r m).0
register-NamesDiffer r m v strict on fresh differ = elim (register-Admits r m) [
  | inl (fits, _, (seen, _, _)) ↦ λ i j a b ha hb same.
      joined-NamesDiffer r m v strict on fits differ i j a b (sym (seen i) ∙ ha) (sym (seen j) ∙ hb)
        same
  | inr (_, _, same) ↦ rw same differ
]

unregister_found-get :
    (r : Registry) (id i : SessionId) (found : Option SessionMetadata)
    → get (unregister_found r id found) i ≡ (if id == i then none else get r i)
unfolding unregister_found
unregister_found-get r id i none = lookup-remove id i r.sessions
unregister_found-get r id i (some m) = lookup-remove id i r.sessions

pub get-unregister :
    (r : Registry) (id i : SessionId)
    → get (unregister r id).0 i ≡ (if id == i then none else get r i)
unfolding unregister
get-unregister r id i = unregister_found-get r id i (lookup id r.sessions)

-- Unregistering a session right after its registration was admitted under a new id gives it back
-- and leaves every lookup as it was before.
pub unregister-register :
    (r : Registry) (m : SessionMetadata)
    → Admits r m
    → lookup m.id r.sessions ≡ none
    → ((unregister (register r m).0 m.id).1 ≡ some (started m))
      × ((i : SessionId) → get (unregister (register r m).0 m.id).0 i ≡ get r i)
unfolding unregister started
unregister-register r m fits fresh = rw (register-admitted r m fits) (
  seen m.id ∙ rw (beq_refl m.id),
  λ i. get-unregister (enroll r (started m)) m.id i ∙ ground (arith, seen i, nat_beq_iff m.id i),
)
  where
    seen :
        (i : SessionId)
        → get (enroll r (started m)) i ≡ (if m.id == i then some (started m) else get r i)
    seen = (enroll-Registered r m fits).0
