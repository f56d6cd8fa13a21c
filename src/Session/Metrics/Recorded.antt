-- ===== src/Session/Metrics/Recorded.antt =====
-- What each record of the metrics does to the counters of sessions
-- (crates/core/src/session/metrics.rs).
use vscfreedev.Base.{ℕ, ◌≡◌, refl, ◌∙◌, Option, none, some, arith, nat_eq, string_eq}
use vscfreedev.Session.{SessionId, SessionStatus, SessionMetadata}
use vscfreedev.Session.Metrics.{
  Floats, Collector, SessionMetrics, Counters, HistoryEntry, leave_status, change_status,
  record_session_created, record_connection_success, record_connection_failure,
  record_status_change, record_session_usage, record_session_closed, cleanup_old_history,
  update_connection_success_rate, update_reuse_rate, close_history, count_closed,
}

module _ (fl : Floats) where
  abbrev pub counters_of : Collector fl → Counters
  counters_of c = c.metrics.counters

  pub counters-created :
      (c : Collector fl) (s : SessionMetadata)
      → counters_of (record_session_created fl c s) ≡ counters_of c
  unfolding record_session_created
  counters-created c s = refl

  counters-rate :
      (m : SessionMetrics fl) → (update_connection_success_rate fl m).counters ≡ m.counters
  unfolding update_connection_success_rate
  counters-rate m = ground arith

  pub counters-success :
      (c : Collector fl) → counters_of (record_connection_success fl c) ≡ counters_of c
  unfolding record_connection_success
  counters-success c = counters-rate _

  pub counters-failure :
      (c : Collector fl) → counters_of (record_connection_failure fl c) ≡ counters_of c
  unfolding record_connection_failure
  counters-failure c = counters-rate _

  pub counters-status_change :
      (c : Collector fl) (old new : SessionStatus)
      → counters_of (record_status_change fl c old new) ≡ change_status old new (counters_of c)
  unfolding record_status_change
  counters-status_change c old new = refl

  pub counters-usage :
      (c : Collector fl) (id : SessionId) (n : ℕ)
      → counters_of (record_session_usage fl c id n) ≡ counters_of c
  unfolding record_session_usage
  counters-usage c id n = refl

  counters-reuse_rate : (c : Collector fl) → counters_of (update_reuse_rate fl c) ≡ counters_of c
  unfolding update_reuse_rate
  counters-reuse_rate c = ground arith

  counters-close_history :
      (now : ℕ) (s : SessionMetadata) (o : Option HistoryEntry) (c : Collector fl)
      → counters_of (close_history fl now s o c) ≡ counters_of c
  unfolding close_history
  counters-close_history now s none c = refl
  counters-close_history now s (some h) c = refl

  pub counters-closed :
      (c : Collector fl) (now : ℕ) (s : SessionMetadata)
      → counters_of (record_session_closed fl c now s) ≡ leave_status s.status (counters_of c)
  unfolding record_session_closed
  counters-closed c now s =
      counters-reuse_rate _ ∙ counters-close_history now s _ (count_closed fl c s)

  pub counters-cleanup :
      (c : Collector fl) (now max_age : ℕ)
      → counters_of (cleanup_old_history fl c now max_age) ≡ counters_of c
  unfolding cleanup_old_history
  counters-cleanup c now max_age = refl
