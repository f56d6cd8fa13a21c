-- ===== src/Session/Manager/Status.antt =====
-- A status change, a use and a removal keep the manager sound
-- (crates/core/src/session/manager.rs).
use vscfreedev.Base.{
  ℕ, ◌^◌, ◌<◌, ◌≡◌, refl, ap, subst, ◌∙◌, Option, none, some, arith, nat_beq_iff, nat_eq, string_eq,
  length,
}
use vscfreedev.Base.Table.{lookup-insert, length-insert, IsMap}
use vscfreedev.Session.{
  SessionId, SessionStatus, active, idle, failed, closed, SessionMetadata, set_status,
}
use vscfreedev.Session.Registry.{Registry, get, unregister, update_status}
use vscfreedev.Session.Registry.Invariant
use vscfreedev.Session.Registry.Effects.{with_session, update_status-found, unregister-sessions}
use vscfreedev.Session.Pool.{Pool}
use vscfreedev.Session.Metrics.{Floats, Collector, change_status}
use vscfreedev.Session.Metrics.Gauges.{
  change_status-IsGauged, leave_status-IsGauged, same_status-IsGauged, absent-IsGauged,
}
use vscfreedev.Session.Metrics.Recorded.{
  counters-success, counters-failure, counters-status_change, counters-usage, counters-closed,
}
use vscfreedev.Session.Manager.{
  Manager, measure, repool, add_if_found, connection_outcome, status_measured, status_changed,
  usage_measured, closed_measured, update_session_status, status_found,
}
use vscfreedev.Session.Manager.Sound.{
  IsRegistrySound, IsPoolSound, IsMeasured, add_session-IsPoolSound, remove_session-IsPoolSound,
  grow-IsPoolSound,
}

pub record IsSound (fl : Floats) (m : Manager fl) : Type 0 where
  pub registry : IsRegistrySound m.registry
  pub pool : IsPoolSound m.pool m.registry
  pub measured : IsMeasured m.metrics m.registry

-- One registered session is replaced by another with the same id.
module _ (r : Registry) (id : SessionId) (old new : SessionMetadata)
    (found : get r id ≡ some old) where
  pub same_length : length (with_session r id new).sessions ≡ length r.sessions
  same_length = ground (arith, length-insert id new r.sessions, found)

  pub grows : (i : SessionId) → get (with_session r id new) i ≡ none → get r i ≡ none
  grows i gone = ground (arith, lookup-insert id i new r.sessions, nat_beq_iff id i)

  with_session-IsMeasured :
      {fl : Floats} (c c' : Collector fl)
      → IsMeasured (some c) r
      → length r.sessions < 2 ^ 32
      → c'.metrics.counters ≡ change_status old.status new.status c.metrics.counters
      → IsMeasured (some c') (with_session r id new)
  with_session-IsMeasured c c' g small e =
      rw e (change_status-IsGauged c.metrics.counters r.sessions id old new g found small)

module _ {fl : Floats} where
  connection_outcome-counters :
      (old new : SessionStatus) (c : Collector fl)
      → (connection_outcome fl old new c).metrics.counters ≡ c.metrics.counters
  unfolding connection_outcome
  connection_outcome-counters old active c = ground (arith, counters-success fl c)
  connection_outcome-counters old failed c = ground (arith, counters-failure fl c)
  connection_outcome-counters old _ c = refl

  status_measured-counters :
      (old new : SessionStatus) (c : Collector fl)
      → (status_measured fl old new c).metrics.counters ≡ change_status old new c.metrics.counters
  unfolding status_measured
  status_measured-counters old new c =
      connection_outcome-counters old new _ ∙ counters-status_change fl c old new

  -- The metrics after a status change.
  status-IsMeasured :
      (o : Option (Collector fl)) (r : Registry) (id : SessionId) (old new : SessionMetadata)
      → get r id ≡ some old
      → length r.sessions < 2 ^ 32
      → IsMeasured o r
      → IsMeasured (measure fl (status_measured fl old.status new.status) o) (with_session r id new)
  status-IsMeasured none r id old new found small g = tt
  status-IsMeasured (some c) r id old new found small g =
      with_session-IsMeasured r id old new found c (status_measured fl old.status new.status c) g
        small (status_measured-counters old.status new.status c)

  usage_measured-counters :
      (id : SessionId) (o : Option SessionMetadata) (c : Collector fl)
      → (usage_measured fl id o c).metrics.counters ≡ c.metrics.counters
  unfolding usage_measured
  usage_measured-counters id none c = refl
  usage_measured-counters id (some s) c = counters-usage fl c id s.use_count

  pub usage-IsMeasured :
      (o : Option (Collector fl)) (r : Registry) (id : SessionId) (old new : SessionMetadata)
      (seen : Option SessionMetadata)
      → get r id ≡ some old
      → old.status ≡ new.status
      → IsMeasured o r
      → IsMeasured (measure fl (usage_measured fl id seen) o) (with_session r id new)
  usage-IsMeasured none r id old new seen found same g = tt
  usage-IsMeasured (some c) r id old new seen found same g =
      rw (usage_measured-counters id seen c)
        (same_status-IsGauged c.metrics.counters r.sessions id old new g found same)

  -- The metrics after a removal.
  pub removed-IsMeasured :
      (c : Collector fl) (r : Registry) (now : ℕ) (id : SessionId) (o : Option SessionMetadata)
      → IsMap r.sessions
      → get r id ≡ o
      → IsMeasured (some c) r
      → IsMeasured (some (closed_measured fl now o c)) (unregister r id).0
  unfolding closed_measured
  removed-IsMeasured c r now id none d gone g =
      rw ((unregister-sessions r id).0) (absent-IsGauged c.metrics.counters r.sessions id g d gone)
  removed-IsMeasured c r now id (some s) d found g =
      rw ((unregister-sessions r id).0, counters-closed fl c now s)
        (leave_status-IsGauged c.metrics.counters r.sessions id s g d found)

  pub unregister-IsMeasured :
      (o : Option (Collector fl)) (r : Registry) (now : ℕ) (id : SessionId)
      → IsMap r.sessions
      → IsMeasured o r
      → IsMeasured (measure fl (closed_measured fl now (get r id)) o) (unregister r id).0
  unregister-IsMeasured none r now id d g = tt
  unregister-IsMeasured (some c) r now id d g = removed-IsMeasured c r now id (get r id) d refl g

-- The pool's share of a status change, in a registry that holds the session.
repool-IsPoolSound :
    (fl : Floats) (p : Pool) (r : Registry) (now : ℕ) (id : SessionId) (st : SessionStatus)
    → Invariant.IsValid r
    → IsPoolSound p r
    → IsPoolSound (repool fl p r now id st) r
unfolding repool
repool-IsPoolSound fl p r now id idle v s = add_found (get r id) refl
  where
    add_found :
        (o : Option SessionMetadata) → get r id ≡ o → IsPoolSound (add_if_found fl p now o) r
    add_found none e = s
    add_found (some m) e =
        add_session-IsPoolSound p r now m s
          (λ gone. ground (arith, v.own_ids id m e, ap (λ i. get r i) (v.own_ids id m e)))
repool-IsPoolSound fl p r now id active v s = remove_session-IsPoolSound p r id s
repool-IsPoolSound fl p r now id failed v s = remove_session-IsPoolSound p r id s
repool-IsPoolSound fl p r now id closed v s = remove_session-IsPoolSound p r id s
repool-IsPoolSound fl p r now id _ v s = s

status_changed-IsSound :
    {fl : Floats} (m : Manager fl) (now : ℕ) (id : SessionId) (st : SessionStatus)
    (s : SessionMetadata)
    → IsSound fl m
    → get m.registry id ≡ some s
    → IsSound fl (status_changed fl m now id s.status st (update_status m.registry now id st)).0
unfolding status_changed set_status
status_changed-IsSound {fl} m now id st s v found =
    rw (update_status-found m.registry now id st s found) (record {
      registry = sound;
      pool =
          repool-IsPoolSound fl m.pool r' now id st sound.valid
            (grow-IsPoolSound m.pool m.registry r' v.pool (grows m.registry id s new found));
      measured =
          status-IsMeasured m.metrics m.registry id s new found
            (omega (arith, v.registry.room, v.registry.width)) v.measured;
    })
  where
    new : SessionMetadata
    new = set_status now st s

    r' : Registry
    r' = with_session m.registry id new

    sound : IsRegistrySound r'
    sound = record {
      valid = ap_valid;
      room = rw (same_length m.registry id s new found) v.registry.room;
      width = v.registry.width;
    }
      where
        ap_valid : Invariant.IsValid r'
        ap_valid =
            subst (λ p. Invariant.IsValid p.0) (update_status-found m.registry now id st s found)
              (Invariant.update_status-IsValid m.registry now id st v.registry.valid)

status_found-IsSound :
    {fl : Floats} (m : Manager fl) (now : ℕ) (id : SessionId) (st : SessionStatus)
    (o : Option SessionMetadata)
    → IsSound fl m
    → get m.registry id ≡ o
    → IsSound fl (status_found fl m now id st o).0
unfolding status_found
status_found-IsSound m now id st none v e = v
status_found-IsSound m now id st (some s) v e = status_changed-IsSound m now id st s v e

pub update_session_status-IsSound :
    {fl : Floats} (m : Manager fl) (now : ℕ) (id : SessionId) (st : SessionStatus)
    → IsSound fl m
    → IsSound fl (update_session_status fl m now id st).0
unfolding update_session_status
update_session_status-IsSound m now id st v =
    status_found-IsSound m now id st (get m.registry id) v refl
