-- ===== src/Session/Registry/Invariant.antt =====
-- The well-formedness of the registry, and that every operation keeps it
-- (crates/core/src/session/registry.rs).
use vscfreedev.Base.{
  ℕ, String, ◌≡◌, refl, sym, ◌∙◌, inl, inr, true, false, Option, none, some, [], arith, ◌==◌,
  nat_beq_iff, nat_eq, string_eq, Bool-cases,
}
use vscfreedev.Base.Table.{
  lookup, insert, remove, IsMap, insert-IsMap, remove-IsMap, lookup-insert, lookup-remove,
}
use vscfreedev.Session.{
  SessionId, SessionStatus, SessionMetadata, session_key, set_status, touch, creating, connecting,
}
use vscfreedev.Errors.{Result, ok, err}
use vscfreedev.Session.Registry.{
  RegistryConfig, Registry, new, register, register_if, admission, started, enroll, unregister,
  unregister_found, withdraw, update, update_found, replace, modify, modify_found, update_status,
  mark_used, clear,
}
use vscfreedev.Base.Indexed.{
  IsIndexOf, push-IsIndexOf, drop-IsIndexOf, keep-IsIndexOf, reindex-IsIndexOf,
}

abbrev pub name_of : SessionMetadata → String
name_of m = m.name

pub record IsValid (r : Registry) : Type 0 where
  pub distinct : IsMap r.sessions
  -- A session stands under its own id.
  pub own_ids : (i : SessionId) (m : SessionMetadata) → lookup i r.sessions ≡ some m → m.id ≡ i
  pub by_key : IsIndexOf session_key r.sessions r.connection_index
  pub by_name : r.config.enable_name_index ≡ true → IsIndexOf name_of r.sessions r.name_index
  -- Without the name index its map stays empty.
  pub unused : r.config.enable_name_index ≡ false → r.name_index ≡ []

pub new-IsValid : (c : RegistryConfig) → IsValid (new c)
unfolding new lookup
new-IsValid c = record {
  distinct = tt;
  own_ids = λ i m h. cc;
  by_key = λ k i. refl;
  by_name = λ h k i. refl;
  unused = λ h. refl;
}

insert-own_ids :
    (r : Registry) (id : SessionId) (m : SessionMetadata)
    → IsValid r
    → m.id ≡ id
    → (i : SessionId) (n : SessionMetadata) → lookup i (insert id m r.sessions) ≡ some n
    → n.id ≡ i
insert-own_ids r id m v own i n h =
    ground (arith, lookup-insert id i m r.sessions, nat_beq_iff id i, v.own_ids i n)

enroll-IsValid :
    (r : Registry) (m : SessionMetadata)
    → IsValid r
    → lookup m.id r.sessions ≡ none
    → IsValid (enroll r m)
unfolding enroll
enroll-IsValid r m v fresh = record {
  distinct = insert-IsMap m.id m r.sessions v.distinct;
  own_ids = insert-own_ids r m.id m v refl;
  by_key = push-IsIndexOf session_key r.sessions r.connection_index m.id v.by_key m fresh;
  by_name =
      λ on. rw on (push-IsIndexOf name_of r.sessions r.name_index m.id (v.by_name on) m fresh);
  unused = λ off. rw off (v.unused off);
}

pub started-id : (m : SessionMetadata) → (started m).id ≡ m.id
unfolding started
started-id m = ground arith

pub started-status : (m : SessionMetadata) → m.status ≡ creating → (started m).status ≡ connecting
unfolding started
started-status m h = rw h

register_if-IsValid :
    (r : Registry) (m : SessionMetadata) (admitted : Result (Unit {0}))
    → IsValid r
    → lookup m.id r.sessions ≡ none
    → IsValid (register_if r m admitted).0
unfolding register_if
register_if-IsValid r m (ok _) v fresh = enroll-IsValid r (started m) v (rw (started-id m) fresh)
register_if-IsValid r m (err e) v fresh = v

-- A registration keeps a registry well formed, whether it is admitted or refused, if the id of
-- the new session is not in use.
pub register-IsValid :
    (r : Registry) (m : SessionMetadata)
    → IsValid r
    → lookup m.id r.sessions ≡ none
    → IsValid (register r m).0
unfolding register
register-IsValid r m v fresh = register_if-IsValid r m (admission r m) v fresh

withdraw-IsValid :
    (r : Registry) (id : SessionId) (m : SessionMetadata)
    → IsValid r
    → lookup id r.sessions ≡ some m
    → IsValid (withdraw r id m)
unfolding withdraw
withdraw-IsValid r id m v found = record {
  distinct = remove-IsMap id r.sessions v.distinct;
  own_ids = λ i n h. ground (arith, lookup-remove id i r.sessions, v.own_ids i n);
  by_key = drop-IsIndexOf session_key r.sessions r.connection_index id v.by_key m found;
  by_name = λ on. rw on (drop-IsIndexOf name_of r.sessions r.name_index id (v.by_name on) m found);
  unused = λ off. rw off (v.unused off);
}

missing-IsValid :
    (r : Registry) (id : SessionId)
    → IsValid r
    → lookup id r.sessions ≡ none
    → IsValid (record r { sessions = remove id r.sessions })
missing-IsValid r id v missing = record {
  distinct = remove-IsMap id r.sessions v.distinct;
  own_ids = λ i n h. ground (arith, lookup-remove id i r.sessions, v.own_ids i n);
  by_key = λ k i. ground (arith, lookup-remove id i r.sessions, nat_beq_iff id i, v.by_key k i);
  by_name =
      λ on k i. ground (arith, lookup-remove id i r.sessions, nat_beq_iff id i, v.by_name on k i);
  unused = v.unused;
}

unregister_found-IsValid :
    (r : Registry) (id : SessionId) (found : Option SessionMetadata)
    → IsValid r
    → lookup id r.sessions ≡ found
    → IsValid (unregister_found r id found)
unfolding unregister_found
unregister_found-IsValid r id none v e = missing-IsValid r id v e
unregister_found-IsValid r id (some m) v e = withdraw-IsValid r id m v e

-- Unregistering any id, registered or not, keeps a registry well formed.
pub unregister-IsValid : (r : Registry) (id : SessionId) → IsValid r → IsValid (unregister r id).0
unfolding unregister
unregister-IsValid r id v = unregister_found-IsValid r id (lookup id r.sessions) v refl

replace-IsValid :
    (r : Registry) (id : SessionId) (old m : SessionMetadata)
    → IsValid r
    → lookup id r.sessions ≡ some old
    → m.id ≡ id
    → IsValid (replace r id old m)
unfolding replace
replace-IsValid r id old m v found own = record {
  distinct = insert-IsMap id m r.sessions v.distinct;
  own_ids = insert-own_ids r id m v own;
  by_key = reindex-IsIndexOf session_key r.sessions r.connection_index id v.by_key old m found;
  by_name =
      λ on. rw on (reindex-IsIndexOf name_of r.sessions r.name_index id (v.by_name on) old m found);
  unused = λ off. rw off (v.unused off);
}

update_found-IsValid :
    (r : Registry) (id : SessionId) (m : SessionMetadata) (found : Option SessionMetadata)
    → IsValid r
    → lookup id r.sessions ≡ found
    → m.id ≡ id
    → IsValid (update_found r id m found).0
unfolding update_found
update_found-IsValid r id m none v e own = v
update_found-IsValid r id m (some old) v e own = replace-IsValid r id old m v e own

-- An update keeps a registry well formed, whether it is accepted or refused, also where it moves
-- the session to another name and another connection key.
pub update-IsValid :
    (r : Registry) (id : SessionId) (m : SessionMetadata) → IsValid r → IsValid (update r id m).0
unfolding update
update-IsValid r id m v = elim (Bool-cases (m.id == id)) [
  | inl same ↦ rw same (update_found-IsValid r id m _ v refl ((nat_beq_iff m.id id).0 same))
  | inr other ↦ rw other v
]

-- A change in place that leaves id, name and connection key alone.
abbrev Gentle : (SessionMetadata → SessionMetadata) → Type 0
Gentle f =
    (m : SessionMetadata)
    → ((f m).id ≡ m.id) × (name_of (f m) ≡ name_of m) × (session_key (f m) ≡ session_key m)

module _ (f : SessionMetadata → SessionMetadata) (g : Gentle f) where
  modify_found-IsValid :
      (r : Registry) (id : SessionId) (found : Option SessionMetadata)
      → IsValid r
      → lookup id r.sessions ≡ found
      → IsValid (modify_found r id f found).0
  unfolding modify_found
  modify_found-IsValid r id none v e = v
  modify_found-IsValid r id (some m) v e = record {
    distinct = insert-IsMap id (f m) r.sessions v.distinct;
    own_ids = insert-own_ids r id (f m) v ((g m).0 ∙ v.own_ids id m e);
    by_key =
        keep-IsIndexOf session_key r.sessions r.connection_index id v.by_key m (f m) e
          (sym ((g m).2));
    by_name = λ on.
        keep-IsIndexOf name_of r.sessions r.name_index id (v.by_name on) m (f m) e (sym ((g m).1));
    unused = v.unused;
  }

  modify-IsValid : (r : Registry) (id : SessionId) → IsValid r → IsValid (modify r id f).0
  unfolding modify
  modify-IsValid r id v = modify_found-IsValid r id (lookup id r.sessions) v refl

pub update_status-IsValid :
    (r : Registry) (now : ℕ) (id : SessionId) (st : SessionStatus)
    → IsValid r
    → IsValid (update_status r now id st).0
unfolding update_status set_status
update_status-IsValid r now id st v =
    modify-IsValid (set_status now st) (λ m. (refl, refl, refl)) r id v

pub mark_used-IsValid :
    (r : Registry) (now : ℕ) (id : SessionId) → IsValid r → IsValid (mark_used r now id).0
unfolding mark_used touch
mark_used-IsValid r now id v = modify-IsValid (touch now) (λ m. (refl, refl, refl)) r id v

clear-IsValid : (r : Registry) → IsValid (clear r)
unfolding clear lookup
clear-IsValid r = record {
  distinct = tt;
  own_ids = λ i m h. cc;
  by_key = λ k i. refl;
  by_name = λ h k i. refl;
  unused = λ h. refl;
}
