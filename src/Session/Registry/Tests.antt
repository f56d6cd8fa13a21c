-- ===== src/Session/Registry/Tests.antt =====
-- Tests of the registry, and instances of its theorems (crates/core/src/session/registry.rs).
use vscfreedev.Session.Registry.Race.{checks, stores, Reaches, done, next, Reaches-room}
use vscfreedev.Session.Registry.{
  admission, taken, enroll, started, register_if, RegistryConfig, Registry, new, get, register,
  unregister, update, list_by_name, ok,
}
use vscfreedev.Base.{
  ◌+◌, ◌-◌, ◌≤◌, String, ◌≡◌, refl, ◌⊎◌, inr, true, false, none, [], arith, ◌==◌, nat_eq, string_eq,
  length,
}
use vscfreedev.Base.Table.{lookup, insert}
use vscfreedev.Transport
use vscfreedev.Errors.{YuhaError, ok, err}
use vscfreedev.Session.{SessionId, SessionMetadata, creating, normal}
use vscfreedev.Session.Registry.Invariant.{
  IsValid, new-IsValid, register-IsValid, unregister-IsValid, update-IsValid,
}
use vscfreedev.Session.Registry.Lookup.{Lists, list_by_name-Lists}
use vscfreedev.Session.Registry.Admission.{Admits, Registered, NamesDiffer, register-Admits}

abbrev session : SessionId → String → SessionMetadata
session id name = record {
  id = id;
  name = name;
  transport_config = Transport.default_config;
  status = creating;
  priority = normal;
  created_at = 5;
  last_used = 5;
  use_count = 0;
  tags = [];
  description = none;
}

abbrev strict_config : RegistryConfig
strict_config = record { max_sessions = 2; allow_duplicate_names = false; enable_name_index = true }

abbrev unindexed_config : RegistryConfig
unindexed_config = record {
  max_sessions = 2;
  allow_duplicate_names = false;
  enable_name_index = false;
}

abbrev empty : Registry
empty = new strict_config

-- A registry with one session.
abbrev one : Registry
one = (register empty (session 1 "alpha")).0

fresh_1 : lookup 1 empty.sessions ≡ none
unfolding new lookup
fresh_1 = refl

one-IsValid : IsValid one
one-IsValid = register-IsValid empty (session 1 "alpha") (new-IsValid strict_config) fresh_1

fresh_2 : get one 2 ≡ none
unfolding new register register_if admission taken enroll started lookup insert
fresh_2 = refl

register-IsValid_example : IsValid (register one (session 2 "alpha")).0
register-IsValid_example = register-IsValid one (session 2 "alpha") one-IsValid fresh_2

unregister-IsValid_example : IsValid (unregister one 1).0
unregister-IsValid_example = unregister-IsValid one 1 one-IsValid

update-IsValid_example : IsValid (update one 1 (session 1 "beta")).0
update-IsValid_example = update-IsValid one 1 (session 1 "beta") one-IsValid

list_by_name-Lists_example : Lists one (λ m. m.name == "alpha") (list_by_name one "alpha")
list_by_name-Lists_example = list_by_name-Lists one "alpha" one-IsValid

register-Admits_example :
    (Admits one (session 2 "alpha")
      × ((register one (session 2 "alpha")).1 ≡ ok 2)
      × Registered one (session 2 "alpha") (register one (session 2 "alpha")).0)
    ⊎ (¬ Admits one (session 2 "alpha")
        × ((e : YuhaError) × ((register one (session 2 "alpha")).1 ≡ err e))
        × ((register one (session 2 "alpha")).0 ≡ one))
register-Admits_example = register-Admits one (session 2 "alpha")

empty-NamesDiffer : NamesDiffer empty
unfolding new lookup
empty-NamesDiffer i j m n h = cc

empty-Admits : Admits empty (session 1 "alpha")
unfolding new lookup
empty-Admits = (omega arith, inr refl)

alone : admission empty (session 1 "alpha") ≡ ok tt
unfolding new admission taken lookup
alone = refl

stored :
    Reaches 1
      (record { registry = empty; admitted = [] })
      (record { registry = enroll empty (started (session 1 "alpha")); admitted = [] })
stored =
    next _ _ _ (checks _ (session 1 "alpha") alone) (omega arith)
      (next _ _ _ (stores empty [] [] (session 1 "alpha")) (omega arith) (done _))

Reaches-room_example :
    length (enroll empty (started (session 1 "alpha"))).sessions
    ≤ empty.config.max_sessions + (1 - 1)
unfolding new
Reaches-room_example =
    Reaches-room 1 empty
      (record { registry = enroll empty (started (session 1 "alpha")); admitted = [] })
      (omega arith) (omega arith) stored

abbrev single : Registry
single = new (record { max_sessions = 1; allow_duplicate_names = true; enable_name_index = true })
