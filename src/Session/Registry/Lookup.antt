-- ===== src/Session/Registry/Lookup.antt =====
-- The listings of the registry against the stored sessions
-- (crates/core/src/session/registry.rs, `list_by_name` to `count_by_status`).
use vscfreedev.Base.{
  ℕ, String, ◌≡◌, refl, ap, ◌∙◌, inl, inr, Bool, Option, none, some, List, [], ◌∷◌, map, arith,
  ◌==◌, nat_beq_iff, nat_eq, string_eq, beq_refl, Bool-cases, Option-cases, retain, All, count,
}
use vscfreedev.Base.Table.{Table, lookup, values, IsMap}
use vscfreedev.Base.Index.{bucket}
use vscfreedev.Session.{
  SessionId, SessionStatus, SessionMetadata, session_key, status_beq, has_tags,
}
use vscfreedev.Session.Registry.{
  Registry, get, keep_found, fetch, list_by_name, list_by_status, list_by_connection_key,
  list_by_tags,
}
use vscfreedev.Base.Indexed.{passing}
use vscfreedev.Session.Registry.Invariant.{IsValid}

abbrev pub ids : List SessionMetadata → List SessionId
ids = map (λ m. m.id)

-- A listing is right if it has each session that passes the test once, as it is stored, and no other.
abbrev pub Lists : Registry → (SessionMetadata → Bool) → List SessionMetadata → Type 0
Lists r p ms =
    ((i : SessionId) → count i (ids ms) ≡ passing p (get r i)) × All (λ m. get r m.id ≡ some m) ms

AreOwn : Table SessionId SessionMetadata → Type 0
AreOwn t = (i : SessionId) (m : SessionMetadata) → lookup i t ≡ some m → m.id ≡ i

AreOwn-tail :
    (k : SessionId) (m : SessionMetadata) (t : Table SessionId SessionMetadata)
    → IsMap ((k, m) ∷ t)
    → AreOwn ((k, m) ∷ t)
    → AreOwn t
unfolding AreOwn lookup
AreOwn-tail k m t d own i n h = own i n (ground (arith, nat_beq_iff k i))

AreOwn-head :
    (k : SessionId) (m : SessionMetadata) (t : Table SessionId SessionMetadata)
    → AreOwn ((k, m) ∷ t)
    → m.id ≡ k
unfolding AreOwn lookup
AreOwn-head k m t own = own k m (ground (arith, nat_beq_iff k k))

count-scan :
    (p : SessionMetadata → Bool) (t : Table SessionId SessionMetadata) (i : SessionId)
    → IsMap t
    → AreOwn t
    → count i (ids (retain p (values t))) ≡ passing p (lookup i t)
unfolding lookup
count-scan p [] i d own = refl
count-scan p ((k, m) ∷ t) i d own = ground (
  arith,
  AreOwn-head k m t own,
  count-scan p t i d.1 (AreOwn-tail k m t d own),
  nat_beq_iff k i,
  nat_beq_iff m.id i,
)

All-scan :
    (P : SessionMetadata → Type 0) (p : SessionMetadata → Bool)
    (t : Table SessionId SessionMetadata)
    → IsMap t
    → AreOwn t
    → ((m : SessionMetadata) → lookup m.id t ≡ some m → P m)
    → All P (retain p (values t))
unfolding lookup
All-scan P p [] d own f = tt
All-scan P p ((k, m) ∷ t) d own f =
    let rest = All-scan P p t d.1 (AreOwn-tail k m t d own) (λ n h. f n (shadow n h)) in
    ground (arith, rest, f m (rw (AreOwn-head k m t own, beq_refl k)))
  where
    shadow : (n : SessionMetadata) → lookup n.id t ≡ some n → lookup n.id ((k, m) ∷ t) ≡ some n
    shadow n h = ground (arith, nat_beq_iff k n.id)

-- The linear search.
scan-Lists :
    (r : Registry) (p : SessionMetadata → Bool)
    → IsValid r
    → Lists r p (retain p (values r.sessions))
unfolding AreOwn
scan-Lists r p v = (
  λ i. count-scan p r.sessions i v.distinct v.own_ids,
  All-scan (λ m. get r m.id ≡ some m) p r.sessions v.distinct v.own_ids (λ m h. h),
)

found_id : Option SessionMetadata → ℕ → ℕ
found_id none n = 0
found_id (some m) n = n

count-fetch :
    (r : Registry) (xs : List SessionId) (i : SessionId)
    → IsValid r
    → count i (ids (fetch r xs)) ≡ found_id (get r i) (count i xs)
unfolding fetch found_id
count-fetch r [] i v = ground arith
count-fetch r (x ∷ xs) i v = elim (Option-cases (get r x)) [
  | inl miss ↦ rw (miss, keep_found) (ground (arith, count-fetch r xs i v, nat_beq_iff x i, miss))
  | inr (m, hit) ↦
      rw (hit, keep_found)
        (ground (arith, count-fetch r xs i v, nat_beq_iff x i, hit, v.own_ids x m hit))
]

All-fetch :
    (r : Registry) (xs : List SessionId) → IsValid r → All (λ m. get r m.id ≡ some m) (fetch r xs)
unfolding fetch
All-fetch r [] v = tt
All-fetch r (x ∷ xs) v = elim (Option-cases (get r x)) [
  | inl miss ↦ rw (miss, keep_found) (All-fetch r xs v)
  | inr (m, hit) ↦
      rw (hit, keep_found) (ap (λ i. get r i) (v.own_ids x m hit) ∙ hit, All-fetch r xs v)
]

fetch-Lists :
    (r : Registry) (xs : List SessionId) (p : SessionMetadata → Bool)
    → IsValid r
    → ((i : SessionId) → count i xs ≡ passing p (get r i))
    → Lists r p (fetch r xs)
unfolding found_id
fetch-Lists r xs p v h = (λ i. ground (arith, count-fetch r xs i v, h i), All-fetch r xs v)

-- On a well-formed registry, `list_by_name` gives each session with the name once, as it is
-- stored, and no other, whether it reads the name index or searches all sessions.
pub list_by_name-Lists :
    (r : Registry) (name : String) → IsValid r → Lists r (λ m. m.name == name) (list_by_name r name)
unfolding list_by_name
list_by_name-Lists r name v = elim (Bool-cases r.config.enable_name_index) [
  | inl on ↦ rw on (fetch-Lists r (bucket name r.name_index) _ v (v.by_name on name))
  | inr off ↦ rw off (scan-Lists r _ v)
]

-- On a well-formed registry, `list_by_connection_key` gives each session with the connection key
-- once, as it is stored, and no other.
pub list_by_connection_key-Lists :
    (r : Registry) (key : String)
    → IsValid r
    → Lists r (λ m. session_key m == key) (list_by_connection_key r key)
unfolding list_by_connection_key
list_by_connection_key-Lists r key v =
    fetch-Lists r (bucket key r.connection_index) _ v (v.by_key key)

pub list_by_status-Lists :
    (r : Registry) (st : SessionStatus)
    → IsValid r
    → Lists r (λ m. status_beq m.status st) (list_by_status r st)
unfolding list_by_status
list_by_status-Lists r st v = scan-Lists r _ v

pub list_by_tags-Lists :
    (r : Registry) (tags : List String) → IsValid r → Lists r (has_tags tags) (list_by_tags r tags)
unfolding list_by_tags
list_by_tags-Lists r tags v = scan-Lists r _ v
