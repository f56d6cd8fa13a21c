-- ===== src/Session/Manager/Steps.antt =====
-- Creation, metadata updates and the cleanup keep the manager sound
-- (crates/core/src/session/manager.rs).
use vscfreedev.Base.{
  ℕ, String, ◌≡◌, refl, ap, inl, inr, Option, none, some, List, [], ◌∷◌, arith, nat_beq_iff, nat_eq,
  string_eq, Bool-cases,
}
use vscfreedev.Base.Table.{length-insert, lookup, insert, lookup-insert, IsMap}
use vscfreedev.Errors.{Result, ok, err}
use vscfreedev.Transport.{TransportConfig}
use vscfreedev.Session.{SessionId, SessionMetadata, new_metadata, connecting, secs}
use vscfreedev.Session.Lifecycle.{should_expire_session}
use vscfreedev.Session.Registry.{Registry, get, unregister, register, started, update, list_all}
use vscfreedev.Session.Registry.Invariant
use vscfreedev.Session.Registry.Admission.{get-unregister}
use vscfreedev.Session.Registry.Effects.{unregister-sessions, register-cases, update-cases}
use vscfreedev.Session.Pool.Expiry.{cleanup_expired-keeps}
use vscfreedev.Session.Metrics.{Floats, Collector, record_session_created, cleanup_old_history}
use vscfreedev.Session.Metrics.Gauges.{uncounted-IsGauged, same_status-IsGauged}
use vscfreedev.Session.Metrics.Recorded.{counters-created, counters-cleanup}
use vscfreedev.Session.Manager.{
  Manager, measure, closed_measured, created, create_session, update_session_metadata, expire_found,
  expire_one, expire_each, cleanup,
}
use vscfreedev.Session.Manager.Sound.{
  IsRegistrySound, IsPoolSound, IsMeasured, remove_session-IsPoolSound, discard-IsPoolSound,
  grow-IsPoolSound, unregister-IsRegistrySound,
}
use vscfreedev.Session.Registry.Invariant.{started-status}
use vscfreedev.Session.Manager.Status.{removed-IsMeasured, unregister-IsMeasured, IsSound}

register-grows :
    (r : Registry) (s : SessionMetadata) (i : SessionId)
    → get (register r s).0 i ≡ none
    → get r i ≡ none
register-grows r s i gone = elim (register-cases r s) [
  | inl (stored, _, _, _) ↦ ground (
    arith,
    ap (λ t. lookup i t) stored,
    lookup-insert s.id i (started s) r.sessions,
    nat_beq_iff s.id i,
  )
  | inr (same, _) ↦ rw same at gone
]

register-IsRegistrySound :
    (r : Registry) (s : SessionMetadata)
    → IsRegistrySound r
    → get r s.id ≡ none
    → IsRegistrySound (register r s).0
register-IsRegistrySound r s v fresh' = elim (register-cases r s) [
  | inl (_, config, room, _) ↦ record {
    valid = Invariant.register-IsValid r s v.valid fresh';
    room = rw config room;
    width = rw config v.width;
  }
  | inr (same, _) ↦ rw same v
]

module _ {fl : Floats} where
  register-IsMeasured :
      (o : Option (Collector fl)) (r : Registry) (s : SessionMetadata)
      → IsMeasured o r
      → get r s.id ≡ none
      → (started s).status ≡ connecting
      → IsMeasured o (register r s).0
  register-IsMeasured none r s g fresh' st = tt
  register-IsMeasured (some c) r s g fresh' st = elim (register-cases r s) [
    | inl (stored, _, _, _) ↦
        rw stored (uncounted-IsGauged c.metrics.counters r.sessions s.id (started s) g fresh' st)
    | inr (same, _) ↦ rw same g
  ]

  created-IsMeasured :
      (o : Option (Collector fl)) (r : Registry) (s : SessionMetadata)
      → IsMeasured o r
      → IsMeasured (measure fl (λ c. record_session_created fl c s) o) r
  created-IsMeasured none r s g = tt
  created-IsMeasured (some c) r s g = rw (counters-created fl c s) g

  created-IsSound :
      (m : Manager fl) (s : SessionMetadata) (p : Registry × Result SessionId)
      → IsRegistrySound p.0
      → IsPoolSound m.pool p.0
      → IsMeasured m.metrics p.0
      → IsSound fl (created fl m s p).0
  unfolding created
  created-IsSound m s (r, ok _) a b c = record {
    registry = a;
    pool = b;
    measured = created-IsMeasured m.metrics r s c;
  }
  created-IsSound m s (r, err e) a b c = record { registry = a; pool = b; measured = c }

  pub create_session-IsSound :
      (m : Manager fl) (now : ℕ) (id : SessionId) (name : String) (tc : TransportConfig)
      (tags : List String) (description : Option String)
      → IsSound fl m
      → get m.registry id ≡ none
      → IsSound fl (create_session fl m now id name tc tags description).0
  unfolding create_session new_metadata
  create_session-IsSound m now id name tc tags description v fresh' =
      let s = new_metadata id now name tc tags description in
      created-IsSound m s (register m.registry s)
        (register-IsRegistrySound m.registry s v.registry fresh')
        (grow-IsPoolSound m.pool m.registry (register m.registry s).0 v.pool
          (register-grows m.registry s))
        (register-IsMeasured m.metrics m.registry s v.measured fresh' (started-status s refl))

  gone-IsMeasured :
      (o : Option (Collector fl)) (r : Registry) (now : ℕ) (id : SessionId)
      → IsMap r.sessions
      → get r id ≡ none
      → IsMeasured o r
      → IsMeasured o (unregister r id).0
  unfolding closed_measured
  gone-IsMeasured none r now id d gone g = tt
  gone-IsMeasured (some c) r now id d gone g = removed-IsMeasured c r now id none d gone g

  expire_found-IsSound :
      (m : Manager fl) (now : ℕ) (id : SessionId) (o : Option SessionMetadata)
      → IsSound fl m
      → get m.registry id ≡ o
      → IsSound fl (expire_found fl m now id o (unregister m.registry id).0)
  unfolding expire_found closed_measured
  expire_found-IsSound m now id none v gone = record {
    registry = unregister-IsRegistrySound m.registry id v.registry;
    pool =
        grow-IsPoolSound m.pool m.registry (unregister m.registry id).0 v.pool
          (λ i h. ground (arith, get-unregister m.registry id i, nat_beq_iff id i));
    measured =
        gone-IsMeasured m.metrics m.registry now id v.registry.valid.distinct gone v.measured;
  }
  expire_found-IsSound m now id (some s) v found = record {
    registry = unregister-IsRegistrySound m.registry id v.registry;
    pool = discard-IsPoolSound m.pool m.registry id v.pool;
    measured =
        rw found at
          (unregister-IsMeasured m.metrics m.registry now id v.registry.valid.distinct v.measured);
  }

  expire_one-IsSound :
      (m : Manager fl) (now : ℕ) (id : SessionId)
      → IsSound fl m
      → IsSound fl (expire_one fl m now id)
  unfolding expire_one
  expire_one-IsSound m now id v =
      rw ((unregister-sessions m.registry id).2)
        (expire_found-IsSound m now id (get m.registry id) v refl)

  expire_each-IsSound :
      (m : Manager fl) (now : ℕ) (ss : List SessionMetadata)
      → IsSound fl m
      → IsSound fl (expire_each fl m now ss).0
  unfolding expire_each
  expire_each-IsSound m now [] v = v
  expire_each-IsSound m now (s ∷ rest) v =
      elim (Bool-cases (should_expire_session m.lifecycle.config now s)) [
        | inl old ↦ rw old (
            expire_each-IsSound (expire_one fl m now s.id) now rest
              (expire_one-IsSound m now s.id v))
        | inr young ↦ rw young (expire_each-IsSound m now rest v)
      ]

  kept-IsMeasured :
      (o : Option (Collector fl)) (r : Registry) (now max_age : ℕ)
      → IsMeasured o r
      → IsMeasured (measure fl (λ c. cleanup_old_history fl c now max_age) o) r
  kept-IsMeasured none r now max_age g = tt
  kept-IsMeasured (some c) r now max_age g = rw (counters-cleanup fl c now max_age) g

  pub cleanup-IsSound : (m : Manager fl) (now : ℕ) → IsSound fl m → IsSound fl (cleanup fl m now).0
  unfolding cleanup
  cleanup-IsSound m now v =
      let m' = (expire_each fl m now (list_all m.registry)).0 in
      let s = expire_each-IsSound m now (list_all m.registry) v in
      record {
        registry = s.registry;
        pool =
            cleanup_expired-keeps (λ p. IsPoolSound p m'.registry)
              (λ p id h. remove_session-IsPoolSound p m'.registry id h) m'.pool now
              m'.lifecycle.config.max_idle_time s.pool;
        measured = kept-IsMeasured m'.metrics m'.registry now (secs 86400) s.measured;
      }

  updated-IsMeasured :
      (o : Option (Collector fl)) (r : Registry) (id : SessionId) (old new : SessionMetadata)
      → IsMeasured o r
      → get r id ≡ some old
      → old.status ≡ new.status
      → (update r id new).0.sessions ≡ insert id new r.sessions
      → IsMeasured o (update r id new).0
  updated-IsMeasured none r id old new g found same stored = tt
  updated-IsMeasured (some c) r id old new g found same stored =
      rw stored (same_status-IsGauged c.metrics.counters r.sessions id old new g found same)

  -- A metadata update keeps the manager sound if it does not change the status.
  pub update_session_metadata-IsSound :
      (m : Manager fl) (id : SessionId) (s : SessionMetadata)
      → IsSound fl m
      → ((old : SessionMetadata) → get m.registry id ≡ some old → old.status ≡ s.status)
      → IsSound fl (update_session_metadata fl m id s).0
  unfolding update_session_metadata
  update_session_metadata-IsSound m id s v same = elim (update-cases m.registry id s) [
    | inr (unchanged, _) ↦ record {
      registry = rw unchanged v.registry;
      pool = rw unchanged v.pool;
      measured = rw unchanged v.measured;
    }
    | inl (old, found, _, _, stored, config) ↦ record {
      registry = record {
        valid = Invariant.update-IsValid m.registry id s v.registry.valid;
        room =
            rw (stored, config)
              (ground (arith, length-insert id s m.registry.sessions, found, v.registry.room));
        width = rw config v.registry.width;
      };
      pool = grow-IsPoolSound m.pool m.registry (update m.registry id s).0 v.pool (λ i gone.
          ground (
            arith,
            ap (λ t. lookup i t) stored,
            lookup-insert id i s m.registry.sessions,
            nat_beq_iff id i,
          ));
      measured =
          updated-IsMeasured m.metrics m.registry id old s v.measured found (same old found) stored;
    }
  ]
