-- ===== src/Session/Manager/Reuse.antt =====
-- What a caller of the manager sees when it connects or closes
-- (crates/core/src/session/manager.rs).
use vscfreedev.Base.{
  ℕ, String, ◌≡◌, refl, ◌≢◌, ◌⊎◌, inl, inr, true, false, Option, none, some, List, [], arith,
  nat_beq_iff, nat_eq, string_eq, beq_refl, Bool-cases, Option-cases,
}
use vscfreedev.Base.Table.{lookup, lookup-insert}
use vscfreedev.Session.Pool.Expiry.{lookup-remove_session}
use vscfreedev.Session.Registry.Admission.{get-unregister}
use vscfreedev.Errors.{Result, ok, err, YuhaError, SessionError}
use vscfreedev.Transport.{TransportConfig, connection_key}
use vscfreedev.Session.{
  SessionId, SessionStatus, active, idle, SessionMetadata, status_beq, new_metadata, closing,
  set_status,
}
use vscfreedev.Session.Registry.{Registry, get, register, unregister, session_error, started}
use vscfreedev.Session.Registry.Effects.{
  update_status-found, mark_used-found, mark_used-missing, register-cases, with_session,
}
use vscfreedev.Session.Pool.{find_session, remove_session}
use vscfreedev.Session.Pool.Reuse.{find_session-IsEligible}
use vscfreedev.Session.Metrics.{Floats}
use vscfreedev.Session.Manager.{
  Manager, status_changed, status_found, update_session_status, activate_if_idle, used, use_session,
  connect_found, connect_or_create_session, reused, created, create_session, fresh, close_session,
  closed_after, repool, discard, Pool,
}
use vscfreedev.Session.Manager.Sound.{IsPoolSound}
use vscfreedev.Session.Manager.Status.{IsSound}

kept_registry :
    (r : Registry) (id j : SessionId) (s : SessionMetadata)
    → j ≢ id
    → get (unregister (with_session r id s) id).0 j ≡ get r j
kept_registry r id j s other =
    rw (get-unregister (with_session r id s) id j, lookup-insert id j s r.sessions)
      (ground (arith, nat_beq_iff id j, other))

kept_pool :
    (p : Pool) (id j : SessionId)
    → j ≢ id
    → lookup j (remove_session p id).0.pool_metadata ≡ lookup j p.pool_metadata
kept_pool p id j other = rw (lookup-remove_session p id j) (ground (arith, nat_beq_iff id j, other))

module _ {fl : Floats} where
  -- A status change of a registered session succeeds.
  pub update_session_status-ok :
      (m : Manager fl) (now : ℕ) (id : SessionId) (st : SessionStatus) (s : SessionMetadata)
      → get m.registry id ≡ some s
      → (update_session_status fl m now id st).1 ≡ ok tt
  unfolding update_session_status status_found status_changed
  update_session_status-ok m now id st s found =
      rw (found, status_found, update_status-found m.registry now id st s found)

  activate-ok :
      (m : Manager fl) (now : ℕ) (id : SessionId) (o : Option SessionMetadata)
      → get m.registry id ≡ o
      → (activate_if_idle fl m now id o).1 ≡ ok tt
  unfolding activate_if_idle
  activate-ok m now id none e = refl
  activate-ok m now id (some s) e = elim (Bool-cases (status_beq s.status idle)) [
    | inl yes' ↦ rw yes' (update_session_status-ok m now id active s e)
    | inr no' ↦ rw no'
  ]

  pub use_session-ok :
      (m : Manager fl) (now : ℕ) (id : SessionId) (s : SessionMetadata)
      → get m.registry id ≡ some s
      → (use_session fl m now id).1 ≡ ok tt
  unfolding use_session used
  use_session-ok m now id s found =
      rw (mark_used-found m.registry now id s found) (activate-ok _ now id _ refl)

  use_session-missing :
      (m : Manager fl) (now : ℕ) (id : SessionId)
      → get m.registry id ≡ none
      → use_session fl m now id ≡ (m, err (session_error (SessionError.not_found id)))
  unfolding use_session used
  use_session-missing m now id missing = rw (mark_used-missing m.registry now id missing)

  -- A session is used when it is registered; otherwise nothing changes.
  pub use_session-cases :
      (m : Manager fl) (now : ℕ) (id : SessionId)
      → ((use_session fl m now id).1 ≡ ok tt)
        ⊎ ((get m.registry id ≡ none)
            × (use_session fl m now id ≡ (m, err (session_error (SessionError.not_found id)))))
  use_session-cases m now id = elim (Option-cases (get m.registry id)) [
    | inr (s, found) ↦ inl (use_session-ok m now id s found)
    | inl missing ↦ inr (missing, use_session-missing m now id missing)
  ]

  -- A change to a registered session leaves it registered, with the new status.
  pub update_session_status-get :
      (m : Manager fl) (now : ℕ) (id : SessionId) (st : SessionStatus) (s : SessionMetadata)
      → get m.registry id ≡ some s
      → get (update_session_status fl m now id st).0.registry id ≡ some (set_status now st s)
  unfolding update_session_status status_found status_changed
  update_session_status-get m now id st s found = rw (
    found,
    status_found,
    update_status-found m.registry now id st s found,
    lookup-insert id id (set_status now st s) m.registry.sessions,
    beq_refl id,
  )

  pub found_is_registered :
      (m : Manager fl) (now : ℕ) (key : String) (id : SessionId)
      → IsPoolSound m.pool m.registry
      → find_session m.pool now key ≡ some id
      → (s : SessionMetadata) × (get m.registry id ≡ some s)
  found_is_registered m now key id v h = elim (Option-cases (get m.registry id)) [
    | inl gone ↦
        let (n, eligible) = find_session-IsEligible m.pool now key id h in
        absurd (ground (arith, v.registered id gone, eligible.1))
    | inr (s, e) ↦ (s, e)
  ]

  reused-1 :
      (id : SessionId) (p : Manager fl × Result (Unit {0}))
      → p.1 ≡ ok tt
      → (reused fl id p).1 ≡ ok (id, true)
  unfolding reused
  reused-1 id (m, ok _) h = refl
  reused-1 id (m, err e) h = cc

  fresh-1 :
      (id : SessionId) (p : Manager fl × Result SessionId)
      → ((p.1 ≡ ok id) → (fresh fl p).1 ≡ ok (id, false))
        × ((e : YuhaError) → p.1 ≡ err e → (fresh fl p).1 ≡ err e)
  unfolding fresh
  fresh-1 id (m, ok _) = (λ h. ground arith, λ e h. cc)
  fresh-1 id (m, err e) = (λ h. cc, λ e h. ground arith)

  created-1 :
      (m : Manager fl) (s : SessionMetadata) (p : Registry × Result SessionId)
      → ((p.1 ≡ ok s.id) → (created fl m s p).1 ≡ ok s.id)
        × ((e : YuhaError) → p.1 ≡ err e → (created fl m s p).1 ≡ err e)
  unfolding created
  created-1 m s (r, ok _) = (λ h. refl, λ e h. cc)
  created-1 m s (r, err e) = (λ h. cc, λ e h. ground arith)

  pub create_session-result :
      (m : Manager fl) (now : ℕ) (new_id : SessionId) (name : String) (tc : TransportConfig)
      (tags : List String) (description : Option String)
      → ((create_session fl m now new_id name tc tags description).1 ≡ ok new_id)
        ⊎ ((e : YuhaError) × ((create_session fl m now new_id name tc tags description).1 ≡ err e)
            × ((register m.registry (new_metadata new_id now name tc tags description)).1 ≡ err e))
  unfolding create_session new_metadata
  create_session-result m now new_id name tc tags description =
      let s = new_metadata new_id now name tc tags description in
      elim (register-cases m.registry s) [
        | inl (_, _, _, done) ↦ inl ((created-1 m s (register m.registry s)).0 done)
        | inr (_, (e, refused)) ↦
            inr (e, (created-1 m s (register m.registry s)).1 e refused, refused)
      ]

  created-registry :
      (m : Manager fl) (s : SessionMetadata) (p : Registry × Result SessionId)
      → (created fl m s p).0.registry ≡ p.0
  unfolding created
  created-registry m s (r, ok _) = refl
  created-registry m s (r, err e) = refl

  -- A session that was created is registered.
  pub create_session-get :
      (m : Manager fl) (now : ℕ) (new_id : SessionId) (name : String) (tc : TransportConfig)
      (tags : List String) (description : Option String)
      → (create_session fl m now new_id name tc tags description).1 ≡ ok new_id
      → (s : SessionMetadata) × (get
            (create_session fl m now new_id name tc tags description).0.registry
            new_id
          ≡ some s)
  unfolding create_session new_metadata
  create_session-get m now new_id name tc tags description done =
      let s = new_metadata new_id now name tc tags description in
      elim (register-cases m.registry s) [
        | inl (stored, _, _, _) ↦ (
          started s,
          rw
              (
                created-registry m s (register m.registry s),
                stored,
                lookup-insert new_id new_id (started s) m.registry.sessions,
                beq_refl new_id,
              )
              refl,
        )
        | inr (_, (e, refused)) ↦
            let failed' = (created-1 m s (register m.registry s)).1 e refused in cc
      ]

  fresh_result :
      {B : YuhaError → Type 0}
      → (id : SessionId) (p : Manager fl × Result SessionId)
      → ((p.1 ≡ ok id) ⊎ ((e : YuhaError) × (p.1 ≡ err e) × B e))
      → (((fresh fl p).1 ≡ ok (id, false)) ⊎ ((e : YuhaError) × ((fresh fl p).1 ≡ err e) × B e))
  fresh_result id p (inl done) = inl ((fresh-1 id p).0 done)
  fresh_result id p (inr (e, failed', b)) = inr (e, (fresh-1 id p).1 e failed', b)

  -- On a sound manager a reusable session can always be used. So a connection gives the session
  -- that the pool finds, marked as reused; where the pool finds none it gives a new session, or
  -- the error of the registry that refuses it.
  pub connect_or_create_session-result :
      (m : Manager fl) (now : ℕ) (new_id : SessionId) (name : String) (tc : TransportConfig)
      → IsSound fl m
      → ((id : SessionId) × (find_session m.pool now (connection_key tc) ≡ some id)
          × ((connect_or_create_session fl m now new_id name tc).1 ≡ ok (id, true)))
        ⊎ ((find_session m.pool now (connection_key tc) ≡ none)
            × (((connect_or_create_session fl m now new_id name tc).1 ≡ ok (new_id, false))
                ⊎ ((e : YuhaError) × ((connect_or_create_session fl m now new_id name tc).1 ≡ err e)
                    × ((register m.registry (new_metadata new_id now name tc [] none)).1 ≡ err e))))
  unfolding connect_or_create_session create_session
  connect_or_create_session-result m now new_id name tc v =
      elim (Option-cases (find_session m.pool now (connection_key tc))) [
        | inr (id, found) ↦
            let (s, known) = found_is_registered m now (connection_key tc) id v.pool found in
            inl (
              id,
              found,
              rw (found, connect_found) (reused-1 id _ (use_session-ok m now id s known)),
            )
        | inl nothing ↦ inr (
          nothing,
          rw (nothing, connect_found)
              (fresh_result new_id _ (create_session-result m now new_id name tc [] none)),
        )
      ]

  closed_after-ok :
      (now : ℕ) (id : SessionId) (p : Manager fl × Result (Unit {0}))
      → p.1 ≡ ok tt
      → ((closed_after fl now id p).1 ≡ ok tt)
        × ((closed_after fl now id p).0.registry ≡ (unregister p.0.registry id).0)
        × ((closed_after fl now id p).0.pool ≡ (remove_session p.0.pool id).0)
  unfolding closed_after discard
  closed_after-ok now id (m, ok _) h = (refl, refl, refl)
  closed_after-ok now id (m, err e) h = cc

  closing_status :
      (m : Manager fl) (now : ℕ) (id : SessionId) (s : SessionMetadata)
      → get m.registry id ≡ some s
      → ((update_session_status fl m now id closing).0.registry
          ≡ with_session m.registry id (set_status now closing s))
        × ((update_session_status fl m now id closing).0.pool ≡ m.pool)
  unfolding update_session_status status_found status_changed repool
  closing_status m now id s found =
      rw (found, status_found, update_status-found m.registry now id closing s found) (refl, refl)

  -- Closing a registered session succeeds: the session is gone from the registry and from the
  -- pool, and every other session is in both as before. Closing a session that is not registered
  -- changes nothing and reports that it was not found.
  pub close_session-result :
      (m : Manager fl) (now : ℕ) (id : SessionId)
      → IsSound fl m
      → ((s : SessionMetadata) × (get m.registry id ≡ some s)
          × ((close_session fl m now id).1 ≡ ok tt)
          × (get (close_session fl m now id).0.registry id ≡ none)
          × (lookup id (close_session fl m now id).0.pool.pool_metadata ≡ none)
          × ((j : SessionId)
              → j ≢ id
              → (get (close_session fl m now id).0.registry j ≡ get m.registry j)
                × (lookup j (close_session fl m now id).0.pool.pool_metadata
                    ≡ lookup j m.pool.pool_metadata)))
        ⊎ ((get m.registry id ≡ none)
            × (close_session fl m now id ≡ (m, err (session_error (SessionError.not_found id)))))
  unfolding close_session status_found update_session_status
  close_session-result m now id v = elim (Option-cases (get m.registry id)) [
    | inl missing ↦ inr (missing, rw (missing, status_found) refl)
    | inr (s, found) ↦
        let (done, registry, pool) =
          closed_after-ok now id _ (update_session_status-ok m now id closing s found) in
        let (registry', pool') = closing_status m now id s found in
        inl (
          s,
          found,
          done,
          rw (registry, get-unregister _ id id, beq_refl id) refl,
          rw (pool, lookup-remove_session _ id id, beq_refl id) refl,
          λ j other. (
            rw (registry, registry') (kept_registry m.registry id j _ other),
            rw (pool, pool') (kept_pool m.pool id j other),
          ),
        )
  ]
