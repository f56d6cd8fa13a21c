-- ===== src/Session/Registry.antt =====
-- crates/core/src/session/registry.rs: the session registry. Its three maps are one state: an
-- operation takes their locks in turn, and runs here with no other task between. Registry/Race has
-- the registrations that run at the same time.
mod Tests
pub mod Invariant
pub mod Lookup
pub mod Admission
pub mod Effects
pub mod Race
use vscfreedev.Base.{
  ℕ, zero, suc, ◌+◌, ◌-◌, ◌*◌, ◌/◌, ◌%◌, ◌^◌, ◌≤◌, ◌<◌, min, max, String, ◌≡◌, refl, sym, ap, subst,
  ◌∙◌, ◌≢◌, ◌↔◌, ◌⊎◌, inl, inr, Bool, true, false, not, ◌&&◌, ◌||◌, Option, none, some, List, [],
  ◌∷◌, ◌++◌, map, arith, ltb, leb, if◌then◌else◌, Eq, ◌==◌, nat_beq, nat_beq_iff, nat_eq, string_eq,
  beq_refl, Bool-cases, Option-cases, length, is_empty, retain, All, every, exists, contains, count,
  without, length-append, length-retain-le, count-append, count-without, length-without-le,
}
use vscfreedev.Base.Table.{Table, lookup, insert, remove, values, contains_key}
use vscfreedev.Base.Index.{Index, index_push, index_drop, reindex, or_empty}
use vscfreedev.Errors.{Result, ok, err, SessionError}
use vscfreedev.Errors
use vscfreedev.Session.{
  SessionId, SessionStatus, connecting, creating, SessionMetadata, session_key, status_beq,
  has_tags, touch, set_status,
}

pub record RegistryConfig : Type 0 where
  pub max_sessions : ℕ
  pub allow_duplicate_names : Bool
  pub enable_name_index : Bool

abbrev pub default_config : RegistryConfig
default_config = record {
  max_sessions = 1000;
  allow_duplicate_names = true;
  enable_name_index = true;
}

pub record Registry : Type 0 where
  pub config : RegistryConfig
  pub sessions : Table SessionId SessionMetadata
  pub name_index : Index String
  pub connection_index : Index String

unfoldable pub new : RegistryConfig → Registry
new config = record { config = config; sessions = []; name_index = []; connection_index = [] }

abbrev pub session_error : SessionError → Errors.YuhaError
session_error e = Errors.YuhaError.session e

-- `name_index.get(name)` holds an id.
taken : Option (List SessionId) → Bool
taken none = false
taken (some ids) = not (is_empty ids)

-- The tests of `register`, in their order.
pub admission : Registry → SessionMetadata → Result (Unit {0})
unfolding taken
admission r m =
    if leb r.config.max_sessions (length r.sessions)
    then err (session_error (SessionError.max_sessions_reached r.config.max_sessions))
    else if not r.config.allow_duplicate_names && taken (lookup m.name r.name_index)
    then err (session_error (SessionError.already_exists m.name))
    else ok tt

-- The initial status.
pub started : SessionMetadata → SessionMetadata
started m = if status_beq m.status creating then record m { status = connecting } else m

pub enroll : Registry → SessionMetadata → Registry
enroll r m = record r {
  sessions = insert m.id m r.sessions;
  name_index =
      (if r.config.enable_name_index then index_push m.name m.id r.name_index else r.name_index);
  connection_index = index_push (session_key m) m.id r.connection_index;
}

register_if : Registry → SessionMetadata → Result (Unit {0}) → Registry × Result SessionId
unfolding started enroll
register_if r m (err e) = (r, err e)
register_if r m (ok _) = (enroll r (started m), ok m.id)

unfoldable pub register : Registry → SessionMetadata → Registry × Result SessionId
unfolding admission register_if
register r m = register_if r m (admission r m)

withdraw : Registry → SessionId → SessionMetadata → Registry
withdraw r id m = record r {
  sessions = remove id r.sessions;
  name_index =
      (if r.config.enable_name_index then index_drop m.name id r.name_index else r.name_index);
  connection_index = index_drop (session_key m) id r.connection_index;
}

unregister_found : Registry → SessionId → Option SessionMetadata → Registry
unfolding withdraw
unregister_found r id none = record r { sessions = remove id r.sessions }
unregister_found r id (some m) = withdraw r id m

unfoldable pub unregister : Registry → SessionId → Registry × Option SessionMetadata
unfolding unregister_found
unregister r id = let found = lookup id r.sessions in (unregister_found r id found, found)

abbrev pub get : Registry → SessionId → Option SessionMetadata
get r id = lookup id r.sessions

replace : Registry → SessionId → SessionMetadata → SessionMetadata → Registry
unfolding reindex
replace r id old m = record r {
  sessions = insert id m r.sessions;
  name_index =
      (if r.config.enable_name_index
        then reindex old.name m.name id r.name_index
        else r.name_index);
  connection_index = reindex (session_key old) (session_key m) id r.connection_index;
}

update_found :
    Registry → SessionId → SessionMetadata → Option SessionMetadata → Registry × Result (Unit {0})
unfolding replace
update_found r id m none = (r, err (session_error (SessionError.not_found id)))
update_found r id m (some old) = (replace r id old m, ok tt)

unfoldable pub update : Registry → SessionId → SessionMetadata → Registry × Result (Unit {0})
unfolding update_found
update r id m = if m.id == id then update_found r id m (lookup id r.sessions) else (
  r,
  err (session_error (SessionError.invalid_state "metadata ID mismatch" "matching session ID")),
)

-- A change of one session in place, behind `get_mut`.
modify_found :
    Registry
    → SessionId
    → (SessionMetadata → SessionMetadata)
    → Option SessionMetadata
    → Registry × Result (Unit {0})
modify_found r id f none = (r, err (session_error (SessionError.not_found id)))
modify_found r id f (some m) = (record r { sessions = insert id (f m) r.sessions }, ok tt)

modify : Registry → SessionId → (SessionMetadata → SessionMetadata) → Registry × Result (Unit {0})
unfolding modify_found
modify r id f = modify_found r id f (lookup id r.sessions)

unfoldable pub update_status :
    Registry → ℕ → SessionId → SessionStatus → Registry × Result (Unit {0})
unfolding modify
update_status r now id status = modify r id (set_status now status)

unfoldable pub mark_used : Registry → ℕ → SessionId → Registry × Result (Unit {0})
unfolding modify
mark_used r now id = modify r id (touch now)

abbrev pub list_all : Registry → List SessionMetadata
list_all r = values r.sessions

unfoldable pub list_by_status : Registry → SessionStatus → List SessionMetadata
list_by_status r status = retain (λ m. status_beq m.status status) (values r.sessions)

-- `filter_map(|&id| sessions.get(&id).cloned())`.
keep_found : Option SessionMetadata → List SessionMetadata → List SessionMetadata
keep_found none rest = rest
keep_found (some m) rest = m ∷ rest

fetch : Registry → List SessionId → List SessionMetadata
unfolding keep_found
fetch r [] = []
fetch r (id ∷ ids) = keep_found (lookup id r.sessions) (fetch r ids)

unfoldable pub list_by_name : Registry → String → List SessionMetadata
unfolding fetch
list_by_name r name =
    if r.config.enable_name_index
    then fetch r (or_empty (lookup name r.name_index))
    else retain (λ m. m.name == name) (values r.sessions)

unfoldable pub list_by_connection_key : Registry → String → List SessionMetadata
unfolding fetch
list_by_connection_key r key = fetch r (or_empty (lookup key r.connection_index))

unfoldable pub list_by_tags : Registry → List String → List SessionMetadata
list_by_tags r tags = retain (has_tags tags) (values r.sessions)

abbrev pub session_count : Registry → ℕ
session_count r = length r.sessions

unfoldable pub count_by_status : Registry → SessionStatus → ℕ
unfolding list_by_status
count_by_status r status = length (list_by_status r status)

abbrev pub is_registered : Registry → SessionId → Bool
is_registered r id = contains_key id r.sessions

unfoldable pub clear : Registry → Registry
clear r = record r { sessions = []; name_index = []; connection_index = [] }
