-- ===== src/Config/Tests.antt =====
-- Tests of the configuration, and instances of its theorems (crates/core/src/config.rs).
use Prim.Native.String.{◌++◌ as ◌<>◌}
use vscfreedev.Base.{
  ℕ, zero, suc, ◌+◌, ◌-◌, ◌*◌, ◌/◌, ◌%◌, ◌^◌, ◌≤◌, ◌<◌, min, max, String, ◌≡◌, refl, sym, ap, subst,
  ◌∙◌, ◌≢◌, ◌↔◌, ◌⊎◌, inl, inr, Bool, true, false, not, ◌&&◌, ◌||◌, Option, none, some, List, [],
  ◌∷◌, ◌++◌, map, arith, ltb, leb, if◌then◌else◌, Eq, ◌==◌, nat_beq, nat_beq_iff, nat_eq, string_eq,
  beq_refl, Bool-cases, Option-cases, length, is_empty, retain, All, every, exists, contains, count,
  without, length-append, length-retain-le, count-append, count-without, length-without-le,
}
use vscfreedev.Base.Table.{lookup}
use vscfreedev.Base.Anyhow.{returns, fails}
use vscfreedev.Errors.{ok}
use vscfreedev.Config.{
  Logging, ConnectionProfile, System, Valid, validate, validate-Valid, default_config,
}
use vscfreedev.Config.Fallback.{
  Files, save_to_file, config_paths, load_with_fallback, Decides, NeverLoads,
  load_with_fallback-result,
}

abbrev plain : Logging
plain = record { Level = ℕ; Settings = Unit; default_level = 2; default_settings = tt }

abbrev named : String → Option String
named name = if name == "YUHA_TCP_PORT" then some "8080" else none

abbrev system : System plain
system = record {
  read_fault = λ path. none;
  missing_file = "No such file";
  parent_fault = λ path. none;
  write_fault = λ path. none;
  resolve = λ path. path;
  parse_toml = λ text. if text == "" then returns (default_config plain) else fails "invalid";
  print_toml = λ c. returns "";
  config_dir = none;
  home_dir = some "/home/me";
  join = λ dir name. dir <> ("/" <> name);
  env = named;
  parse_level = λ text. none;
  parse_u16 = λ text. some 8080;
  parse_u64 = λ text. none;
}

default-Valid : Valid plain (default_config plain)
unfolding validate
default-Valid = (validate-Valid plain (default_config plain)).0 refl

abbrev dev : ConnectionProfile
dev = record { name = "dev"; ssh = none; local = none; env_vars = []; overrides = [] }

abbrev files : Files
files = ("yuha.toml", "[") ∷ ("/home/me/.yuha.toml", "") ∷ []

load_with_fallback-result_example :
    Decides system files (config_paths system) (load_with_fallback system files)
    ⊎ (All (NeverLoads system files) (config_paths system)
        × (load_with_fallback system files ≡ default_config plain))
load_with_fallback-result_example = load_with_fallback-result system files

default_saved : (save_to_file system files (default_config plain) "yuha.toml").1 ≡ ok tt
unfolding save_to_file
default_saved = refl

-- A write that fails after it has opened the file.
abbrev full_disk : System plain
full_disk = record system {
  write_fault = λ path. some (record { left = some "half"; message = "No space left on device" });
}

cut_short_file :
    lookup "yuha.toml" (save_to_file full_disk files (default_config plain) "yuha.toml").0
    ≡ some "half"
unfolding save_to_file lookup vscfreedev.Base.Table.insert
cut_short_file = refl
