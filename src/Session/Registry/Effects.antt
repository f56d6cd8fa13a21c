-- ===== src/Session/Registry/Effects.antt =====
-- What the operations of the registry do to its sessions and its configuration, for the modules
-- that use the registry (crates/core/src/session/registry.rs).
use vscfreedev.Base.{
  ℕ, ◌^◌, ◌≤◌, ◌<◌, ◌≡◌, refl, ◌∙◌, ◌⊎◌, inl, inr, Option, none, some, [], arith, ◌==◌, nat_beq_iff,
  nat_eq, string_eq, Bool-cases, Option-cases, length,
}
use vscfreedev.Base.Table.{lookup, insert, remove}
use vscfreedev.Errors.{ok, err, YuhaError, SessionError}
use vscfreedev.Session.{SessionId, SessionStatus, SessionMetadata, set_status, touch}
use vscfreedev.Session.Registry.{
  new, RegistryConfig, Registry, get, register, enroll, started, unregister, unregister_found,
  update, update_found, replace, modify_found, update_status, mark_used, session_error,
}
use vscfreedev.Session.Registry.Invariant.{started-id}
use vscfreedev.Session.Registry.Admission.{Admits, register-Admits, register-admitted}

unregister_found-sessions :
    (r : Registry) (id : SessionId) (o : Option SessionMetadata)
    → ((unregister_found r id o).sessions ≡ remove id r.sessions)
      × ((unregister_found r id o).config ≡ r.config)
unfolding unregister_found
unregister_found-sessions r id none = (refl, refl)
unregister_found-sessions r id (some m) = (refl, refl)

pub unregister-sessions :
    (r : Registry) (id : SessionId)
    → ((unregister r id).0.sessions ≡ remove id r.sessions)
      × ((unregister r id).0.config ≡ r.config)
      × ((unregister r id).1 ≡ get r id)
unfolding unregister
unregister-sessions r id =
    let (s, c) = unregister_found-sessions r id (lookup id r.sessions) in (s, c, refl)

abbrev pub with_session : Registry → SessionId → SessionMetadata → Registry
with_session r id m = record r { sessions = insert id m r.sessions }

-- The status of a registered session changes, and nothing else in the registry.
pub update_status-found :
    (r : Registry) (now : ℕ) (id : SessionId) (st : SessionStatus) (m : SessionMetadata)
    → get r id ≡ some m
    → update_status r now id st ≡ (with_session r id (set_status now st m), ok tt)
unfolding update_status
update_status-found r now id st m found = rw (found, modify_found)

pub mark_used-found :
    (r : Registry) (now : ℕ) (id : SessionId) (m : SessionMetadata)
    → get r id ≡ some m
    → mark_used r now id ≡ (with_session r id (touch now m), ok tt)
unfolding mark_used
mark_used-found r now id m found = rw (found, modify_found)

-- A change of a session that is not registered is refused and changes nothing.
pub update_status-missing :
    (r : Registry) (now : ℕ) (id : SessionId) (st : SessionStatus)
    → get r id ≡ none
    → update_status r now id st ≡ (r, err (session_error (SessionError.not_found id)))
unfolding update_status
update_status-missing r now id st missing = rw (missing, modify_found)

pub mark_used-missing :
    (r : Registry) (now : ℕ) (id : SessionId)
    → get r id ≡ none
    → mark_used r now id ≡ (r, err (session_error (SessionError.not_found id)))
unfolding mark_used
mark_used-missing r now id missing = rw (missing, modify_found)

-- An update of a registered session under its own id stores the new metadata; any other update
-- is refused and changes nothing.
pub update-cases :
    (r : Registry) (id : SessionId) (m : SessionMetadata)
    → ((old : SessionMetadata) × (get r id ≡ some old)
        × (m.id ≡ id)
        × ((update r id m).1 ≡ ok tt)
        × ((update r id m).0.sessions ≡ insert id m r.sessions)
        × ((update r id m).0.config ≡ r.config))
      ⊎ (((update r id m).0 ≡ r) × ((e : YuhaError) × ((update r id m).1 ≡ err e)))
unfolding update
update-cases r id m = elim (Bool-cases (m.id == id)) [
  | inl same ↦ rw same (elim (Option-cases (lookup id r.sessions)) [
    | inl missing ↦
        rw (missing, update_found) (inr (refl, (session_error (SessionError.not_found id), refl)))
    | inr (old, found) ↦
        rw (found, update_found, replace)
          (inl (old, refl, (nat_beq_iff m.id id).0 same, refl, refl, refl))
  ])
  | inr other ↦ rw other (
      inr (
        refl,
        (
          session_error (SessionError.invalid_state "metadata ID mismatch" "matching session ID"),
          refl,
        ),
      ))
]

enroll-sessions :
    (r : Registry) (m : SessionMetadata) → (enroll r m).sessions ≡ insert m.id m r.sessions
unfolding enroll
enroll-sessions r m = refl

-- An admitted registration stores the session and nothing else; a refused one changes nothing.
pub register-cases :
    (r : Registry) (m : SessionMetadata)
    → (((register r m).0.sessions ≡ insert m.id (started m) r.sessions)
        × ((register r m).0.config ≡ r.config)
        × (length (register r m).0.sessions ≤ r.config.max_sessions)
        × ((register r m).1 ≡ ok m.id))
      ⊎ (((register r m).0 ≡ r) × ((e : YuhaError) × ((register r m).1 ≡ err e)))
register-cases r m = elim (register-Admits r m) [
  | inl (fits, done, (_, room, same)) ↦ inl (stored fits, same, rw same at room, done)
  | inr (_, failed', unchanged) ↦ inr (unchanged, failed')
]
  where
    stored : Admits r m → (register r m).0.sessions ≡ insert m.id (started m) r.sessions
    stored fits =
        rw (register-admitted r m fits) (enroll-sessions r (started m) ∙ rw (started-id m))

pub new-room : (c : RegistryConfig) → length (new c).sessions ≤ (new c).config.max_sessions
unfolding new
new-room c = omega arith

pub new-width :
    (c : RegistryConfig) → c.max_sessions < 2 ^ 32 → (new c).config.max_sessions < 2 ^ 32
unfolding new
new-width c h = h

pub new-sessions : (c : RegistryConfig) → (new c).sessions ≡ []
unfolding new
new-sessions c = refl
