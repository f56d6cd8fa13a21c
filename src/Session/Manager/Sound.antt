-- ===== src/Session/Manager/Sound.antt =====
-- What holds between the registry, the pool and the metrics of a manager, and how the operations
-- of each keep it.
use vscfreedev.Base.{
  ℕ, ◌^◌, ◌≤◌, ◌<◌, ◌≡◌, ◌≢◌, Option, none, some, arith, nat_beq_iff, nat_eq, string_eq, length,
}
use vscfreedev.Base.Table.{lookup, length-remove-le}
use vscfreedev.Session.{SessionId, SessionMetadata}
use vscfreedev.Session.Registry.{Registry, get, unregister}
use vscfreedev.Session.Registry.Invariant
use vscfreedev.Session.Registry.Admission.{get-unregister}
use vscfreedev.Session.Pool.{Pool, add_session, remove_session}
use vscfreedev.Session.Pool.Limits.{
  WithinLimits, add_session-WithinLimits, remove_session-WithinLimits, lookup-add_session,
}
use vscfreedev.Session.Registry.Effects.{unregister-sessions}
use vscfreedev.Session.Pool.Expiry.{lookup-remove_session}
use vscfreedev.Session.Metrics.{Floats, Collector}
use vscfreedev.Session.Metrics.Gauges.{IsGauged}

pub record IsRegistrySound (r : Registry) : Type 0 where
  pub valid : Invariant.IsValid r
  pub room : length r.sessions ≤ r.config.max_sessions
  pub width : r.config.max_sessions < 2 ^ 32

-- A pooled session is registered, and the pool keeps its limits.
pub record IsPoolSound (p : Pool) (r : Registry) : Type 0 where
  pub limits : WithinLimits p
  pub registered : (i : SessionId) → get r i ≡ none → lookup i p.pool_metadata ≡ none

-- The counters are exact, where there are metrics.
abbrev pub IsMeasured : {fl : Floats} → Option (Collector fl) → Registry → Type 0
IsMeasured none r = Unit
IsMeasured (some c) r = IsGauged c.metrics.counters r.sessions

pub add_session-IsPoolSound :
    (p : Pool) (r : Registry) (now : ℕ) (s : SessionMetadata)
    → IsPoolSound p r
    → get r s.id ≢ none
    → IsPoolSound (add_session p now s).0 r
add_session-IsPoolSound p r now s v known = record {
  limits = add_session-WithinLimits p now s v.limits;
  registered =
      λ i gone. ground (arith, lookup-add_session p now s i, nat_beq_iff s.id i, v.registered i);
}

pub remove_session-IsPoolSound :
    (p : Pool) (r : Registry) (id : SessionId)
    → IsPoolSound p r
    → IsPoolSound (remove_session p id).0 r
remove_session-IsPoolSound p r id v = record {
  limits = remove_session-WithinLimits p id v.limits;
  registered = λ i gone. ground (arith, lookup-remove_session p id i, v.registered i);
}

-- The session leaves the registry and the pool together.
pub discard-IsPoolSound :
    (p : Pool) (r : Registry) (id : SessionId)
    → IsPoolSound p r
    → IsPoolSound (remove_session p id).0 (unregister r id).0
discard-IsPoolSound p r id v = record {
  limits = remove_session-WithinLimits p id v.limits;
  registered =
      λ i gone. ground (arith, lookup-remove_session p id i, v.registered i, get-unregister r id i);
}

pub unregister-IsRegistrySound :
    (r : Registry) (id : SessionId) → IsRegistrySound r → IsRegistrySound (unregister r id).0
unregister-IsRegistrySound r id v =
    let (s, c, _) = unregister-sessions r id in
    record {
      valid = Invariant.unregister-IsValid r id v.valid;
      room = rw (s, c) (omega (arith, length-remove-le id r.sessions, v.room));
      width = rw c v.width;
    }

-- No session leaves the registry.
pub grow-IsPoolSound :
    (p : Pool) (r r' : Registry)
    → IsPoolSound p r
    → ((i : SessionId) → get r' i ≡ none → get r i ≡ none)
    → IsPoolSound p r'
grow-IsPoolSound p r r' v grows = record {
  limits = v.limits;
  registered = λ i gone. v.registered i (grows i gone);
}
