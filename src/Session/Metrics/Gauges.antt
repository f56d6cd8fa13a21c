-- ===== src/Session/Metrics/Gauges.antt =====
-- The counters of active, idle and failed sessions against a map of sessions
-- (crates/core/src/session/metrics.rs, `record_status_change` and `record_session_closed`).
use vscfreedev.Base.{
  ℕ, ◌+◌, ◌-◌, ◌^◌, ◌≤◌, ◌<◌, ◌≡◌, Bool, none, some, arith, if◌then◌else◌, nat_eq, string_eq,
  length,
}
use vscfreedev.Base.Table.{Table, lookup, insert, remove, IsMap, length-insert}
use vscfreedev.Base.Tally.{tally, tally-le-length, tally-insert, tally-remove, passing-le-tally}
use vscfreedev.Session.{
  SessionId, SessionStatus, active, idle, failed, SessionMetadata, status_beq, connecting,
}
use vscfreedev.Session.Metrics.{Counters, leave_status, enter_status, change_status}

abbrev pub has_status : SessionStatus → SessionMetadata → Bool
has_status st s = status_beq s.status st

-- The counters say how many sessions of the map are active, idle and failed.
pub record IsGauged (c : Counters) (t : Table SessionId SessionMetadata) : Type 0 where
  pub active_count : c.active_sessions ≡ tally (has_status active) t
  pub idle_count : c.idle_sessions ≡ tally (has_status idle) t
  pub failed_count : c.failed_sessions ≡ tally (has_status failed) t

abbrev hit : SessionStatus → SessionStatus → ℕ
hit st old = if status_beq old st then 1 else 0

leave_status-counts :
    (old : SessionStatus) (c : Counters)
    → ((leave_status old c).active_sessions ≡ c.active_sessions - hit active old)
      × ((leave_status old c).idle_sessions ≡ c.idle_sessions - hit idle old)
      × ((leave_status old c).failed_sessions ≡ c.failed_sessions - hit failed old)
unfolding leave_status
leave_status-counts active c = omega arith
leave_status-counts idle c = omega arith
leave_status-counts failed c = omega arith
leave_status-counts _ c = omega arith

enter_status-counts :
    (new : SessionStatus) (c : Counters)
    → c.active_sessions + hit active new < 2 ^ 32
    → c.idle_sessions + hit idle new < 2 ^ 32
    → c.failed_sessions + hit failed new < 2 ^ 32
    → ((enter_status new c).active_sessions ≡ c.active_sessions + hit active new)
      × ((enter_status new c).idle_sessions ≡ c.idle_sessions + hit idle new)
      × ((enter_status new c).failed_sessions ≡ c.failed_sessions + hit failed new)
unfolding enter_status
enter_status-counts active c a i f = ground arith
enter_status-counts idle c a i f = ground arith
enter_status-counts failed c a i f = ground arith
enter_status-counts _ c a i f = ground arith

module _ (t : Table SessionId SessionMetadata) (id : SessionId) (old : SessionMetadata)
    (found : lookup id t ≡ some old) (st : SessionStatus) where
  tally_changes :
      (new : SessionMetadata)
      → (tally (has_status st) (insert id new t) + hit st old.status
          ≡ tally (has_status st) t + hit st new.status)
        × (hit st old.status ≤ tally (has_status st) t)
        × (tally (has_status st) (insert id new t) ≤ length t)
  tally_changes new = (
    ground (arith, tally-insert (has_status st) id new t, found),
    passing-le-tally (has_status st) id old t found,
    ground
        (arith, tally-le-length (has_status st) (insert id new t), length-insert id new t, found),
  )

  tally_drops :
      IsMap t → tally (has_status st) (remove id t) + hit st old.status ≡ tally (has_status st) t
  tally_drops d = ground (arith, tally-remove (has_status st) id t d, found)

-- A session of the map changes to another status.
pub change_status-IsGauged :
    (c : Counters) (t : Table SessionId SessionMetadata) (id : SessionId)
    (old new : SessionMetadata)
    → IsGauged c t
    → lookup id t ≡ some old
    → length t < 2 ^ 32
    → IsGauged (change_status old.status new.status c) (insert id new t)
unfolding change_status
change_status-IsGauged c t id old new g found small =
    let a = tally_changes t id old found active new in
    let i = tally_changes t id old found idle new in
    let f = tally_changes t id old found failed new in
    let l = leave_status-counts old.status c in
    let e =
      enter_status-counts new.status (leave_status old.status c) (omega (arith, a, l))
        (omega (arith, i, l)) (omega (arith, f, l)) in
    record {
      active_count = omega (arith, a, l, e);
      idle_count = omega (arith, i, l, e);
      failed_count = omega (arith, f, l, e);
    }

-- A session of the map is removed.
pub leave_status-IsGauged :
    (c : Counters) (t : Table SessionId SessionMetadata) (id : SessionId) (old : SessionMetadata)
    → IsGauged c t
    → IsMap t
    → lookup id t ≡ some old
    → IsGauged (leave_status old.status c) (remove id t)
leave_status-IsGauged c t id old g d found =
    let l = leave_status-counts old.status c in
    record {
      active_count = omega (arith, tally_drops t id old found active d, l);
      idle_count = omega (arith, tally_drops t id old found idle d, l);
      failed_count = omega (arith, tally_drops t id old found failed d, l);
    }

-- A session of the map is replaced by one with the same status.
pub same_status-IsGauged :
    (c : Counters) (t : Table SessionId SessionMetadata) (id : SessionId)
    (old new : SessionMetadata)
    → IsGauged c t
    → lookup id t ≡ some old
    → old.status ≡ new.status
    → IsGauged c (insert id new t)
same_status-IsGauged c t id old new g found same = record {
  active_count = ground (arith, tally_changes t id old found active new);
  idle_count = ground (arith, tally_changes t id old found idle new);
  failed_count = ground (arith, tally_changes t id old found failed new);
}

-- A session that none of the counters counts is added.
pub uncounted-IsGauged :
    (c : Counters) (t : Table SessionId SessionMetadata) (id : SessionId) (new : SessionMetadata)
    → IsGauged c t
    → lookup id t ≡ none
    → new.status ≡ connecting
    → IsGauged c (insert id new t)
uncounted-IsGauged c t id new g fresh st = record {
  active_count = ground (arith, tally-insert (has_status active) id new t, fresh);
  idle_count = ground (arith, tally-insert (has_status idle) id new t, fresh);
  failed_count = ground (arith, tally-insert (has_status failed) id new t, fresh);
}

-- The removal of an id that is not in the map changes no count.
pub absent-IsGauged :
    (c : Counters) (t : Table SessionId SessionMetadata) (id : SessionId)
    → IsGauged c t
    → IsMap t
    → lookup id t ≡ none
    → IsGauged c (remove id t)
absent-IsGauged c t id g d gone = record {
  active_count = ground (arith, tally-remove (has_status active) id t d, gone);
  idle_count = ground (arith, tally-remove (has_status idle) id t d, gone);
  failed_count = ground (arith, tally-remove (has_status failed) id t d, gone);
}
