-- ===== src/Config/Profiles.antt =====
-- The connection profiles of crates/core/src/config.rs.
use vscfreedev.Base.{
  String, ◌≡◌, Option, none, some, arith, if◌then◌else◌, ◌==◌, nat_eq, string_eq, beq_refl,
}
use vscfreedev.Base.Table.{lookup, insert, remove, lookup-insert, lookup-remove}
use vscfreedev.Config.{Logging, YuhaConfig, ConnectionProfile}

module _ (lg : Logging) where
  abbrev pub get_profile : YuhaConfig lg → String → Option ConnectionProfile
  get_profile c name = lookup name c.profiles

  unfoldable pub set_profile : YuhaConfig lg → ConnectionProfile → YuhaConfig lg
  set_profile c p = record c { profiles = insert p.name p c.profiles }

  unfoldable pub remove_profile : YuhaConfig lg → String → YuhaConfig lg × Option ConnectionProfile
  remove_profile c name = (record c { profiles = remove name c.profiles }, lookup name c.profiles)

  -- A profile that is set is found under its own name, until it is removed, and the profiles of
  -- other names are as before.
  pub get_profile-set_profile :
      (c : YuhaConfig lg) (p : ConnectionProfile) (name : String)
      → (get_profile (set_profile c p) name
          ≡ (if p.name == name then some p else get_profile c name))
        × ((remove_profile (set_profile c p) p.name).1 ≡ some p)
        × (get_profile (remove_profile (set_profile c p) p.name).0 name
            ≡ (if p.name == name then none else get_profile c name))
  unfolding set_profile remove_profile
  get_profile-set_profile c p name = (
    lookup-insert p.name name p c.profiles,
    ground (arith, lookup-insert p.name p.name p c.profiles, beq_refl p.name),
    ground (
      arith,
      lookup-remove p.name name (insert p.name p c.profiles),
      lookup-insert p.name name p c.profiles,
    ),
  )
