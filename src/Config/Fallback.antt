-- ===== src/Config/Fallback.antt =====
-- The files of the configuration (crates/core/src/config.rs).
use Prim.Native.String.{◌++◌ as ◌<>◌}
use vscfreedev.Base.{
  String, ◌≡◌, refl, ap, ◌∙◌, ◌≢◌, ◌⊎◌, inl, inr, true, false, Option, none, some, List, [], ◌∷◌,
  ◌++◌, arith, if◌then◌else◌, ◌==◌, nat_eq, string_eq, beq_refl, Bool-cases, All,
}
use vscfreedev.Base.Anyhow.{Fallible, returns, fails}
use vscfreedev.Base.Table.{Table, lookup, insert, contains_key, lookup-insert}
use vscfreedev.Errors.{Result, ok, err, YuhaError, Result-cases}
use vscfreedev.Config.{Logging, YuhaConfig, System, WriteFault, refuse, default_config}

-- The files that are there, under what `resolve` makes of their paths, with their texts.
abbrev pub Files : Type 0
Files = Table String String

module _ {lg : Logging} (sys : System lg) where
  abbrev Config : Type 0
  Config = YuhaConfig lg

  parsed : Fallible Config → Result Config
  parsed (returns c) = ok c
  parsed (fails e) = refuse lg ("Failed to parse config file: " <> e)

  read_text : Option String → Result Config
  unfolding parsed
  read_text none = refuse lg ("Failed to read config file: " <> sys.missing_file)
  read_text (some text) = parsed (sys.parse_toml text)

  load_unless : Option String → Result Config → Result Config
  load_unless none r = r
  load_unless (some e) r = refuse lg ("Failed to read config file: " <> e)

  unfoldable pub load_from_file : Files → String → Result Config
  unfolding read_text load_unless
  load_from_file files path =
      load_unless (sys.read_fault path) (read_text (lookup (sys.resolve path) files))

  -- A file that could be opened is left with what the write got through.
  cut_short : Files → String → Option String → Files
  cut_short files path none = files
  cut_short files path (some text) = insert (sys.resolve path) text files

  written : Files → String → String → Option WriteFault → Files × Result (Unit {0})
  unfolding cut_short
  written files path text none = (insert (sys.resolve path) text files, ok tt)
  written files path text (some fault) = (
    cut_short files path fault.left,
    refuse lg ("Failed to write config file: " <> fault.message),
  )

  parent_made : Files → String → String → Option String → Files × Result (Unit {0})
  unfolding written
  parent_made files path text none = written files path text (sys.write_fault path)
  parent_made files path text (some e) =
      (files, refuse lg ("Failed to create config directory: " <> e))

  printed : Files → String → Fallible String → Files × Result (Unit {0})
  unfolding parent_made
  printed files path (returns text) = parent_made files path text (sys.parent_fault path)
  printed files path (fails e) = (files, refuse lg ("Failed to serialize config: " <> e))

  unfoldable pub save_to_file : Files → Config → String → Files × Result (Unit {0})
  unfolding printed
  save_to_file files c path = printed files path (sys.print_toml c)

  abbrev in_dir : (String → String) → Option String → List String
  in_dir place none = []
  in_dir place (some dir) = place dir ∷ []

  unfoldable pub config_paths : List String
  config_paths =
      "yuha.toml"
      ∷ ".yuha.toml"
      ∷ (in_dir (λ d. sys.join (sys.join d "yuha") "config.toml") sys.config_dir
          ++ (in_dir (λ d. sys.join d ".yuha.toml") sys.home_dir ++ ("/etc/yuha/config.toml" ∷ [])))

  loaded_or : Result Config → Config → Config
  loaded_or (ok c) rest = c
  loaded_or (err e) rest = rest

  unfoldable pub load_first : Files → List String → Config
  unfolding loaded_or
  load_first files [] = default_config lg
  load_first files (path ∷ paths) =
      let rest = load_first files paths in
      if contains_key (sys.resolve path) files
      then loaded_or (load_from_file files path) rest
      else rest

  unfoldable pub load_with_fallback : Files → Config
  load_with_fallback files = load_first files config_paths

  -- A path with a file that is a configuration.
  abbrev pub Loads : Files → Config → String → Type 0
  Loads files c path =
      (contains_key (sys.resolve path) files ≡ true) × (load_from_file files path ≡ ok c)

  abbrev pub NeverLoads : Files → String → Type 0
  NeverLoads files path =
      (contains_key (sys.resolve path) files ≡ false)
      ⊎ ((e : YuhaError) × (load_from_file files path ≡ err e))

  load-cases :
      (files : Files) (path : String) → ((c : Config) × Loads files c path) ⊎ NeverLoads files path
  load-cases files path = elim (Bool-cases (contains_key (sys.resolve path) files)) [
    | inr absent ↦ inr (inl absent)
    | inl there ↦ elim (Result-cases (load_from_file files path)) [
      | inl (c, done) ↦ inl (c, (there, done))
      | inr (e, failed) ↦ inr (inr (e, failed))
    ]
  ]

  -- The path that decides, with those before it.
  abbrev pub Decides : Files → List String → Config → Type 0
  Decides files paths result =
      (before : List String) × (path : String) × (after : List String) × (paths
        ≡ before ++ (path ∷ after))
      × All (NeverLoads files) before
      × Loads files result path

  skipped :
      (files : Files) (path : String) (paths : List String)
      → NeverLoads files path
      → load_first files (path ∷ paths) ≡ load_first files paths
  unfolding load_first loaded_or
  skipped files path paths (inl absent) = rw absent refl
  skipped files path paths (inr (e, failed)) =
      elim (Bool-cases (contains_key (sys.resolve path) files)) [
        | inl there ↦ rw (there, failed) refl
        | inr absent ↦ rw absent refl
      ]

  decided :
      (files : Files) (path : String) (paths : List String) (c : Config)
      → contains_key (sys.resolve path) files ≡ true
      → load_from_file files path ≡ ok c
      → load_first files (path ∷ paths) ≡ c
  unfolding load_first loaded_or
  decided files path paths c there done = rw (there, done) refl

  load_first-result :
      (files : Files) (paths : List String)
      → Decides files paths (load_first files paths)
        ⊎ (All (NeverLoads files) paths × (load_first files paths ≡ default_config lg))
  unfolding load_first loaded_or
  load_first-result files [] = inr (tt, refl)
  load_first-result files (path ∷ paths) = elim (load-cases files path) [
    | inl (c, (there, done)) ↦
        inl ([], path, paths, refl, tt, rw (decided files path paths c there done) (there, done))
    | inr never ↦ elim (load_first-result files paths) [
      | inl (before, p, after, split, skips, loads) ↦ inl (
        path ∷ before,
        p,
        after,
        ap (λ t. path ∷ t) split,
        (never, skips),
        rw (skipped files path paths never) loads,
      )
      | inr (nothing, default') ↦ inr ((never, nothing), skipped files path paths never ∙ default')
    ]
  ]

  -- The configuration is that of the first path, in the order of the search, with a file that
  -- loads: each path before it has no file or one that does not load. Where no path has such a
  -- file, the configuration is the default.
  pub load_with_fallback-result :
      (files : Files)
      → Decides files config_paths (load_with_fallback files)
        ⊎ (All (NeverLoads files) config_paths × (load_with_fallback files ≡ default_config lg))
  unfolding load_with_fallback
  load_with_fallback-result files = load_first-result files config_paths

  -- What is written of a configuration is read back.
  abbrev pub IsFaithful : Config → Type 0
  IsFaithful c = (text : String) → sys.print_toml c ≡ returns text → sys.parse_toml text ≡ returns c

  written-ok :
      (files : Files) (path text : String) (o : Option WriteFault)
      → (written files path text o).1 ≡ ok tt
      → (written files path text o).0 ≡ insert (sys.resolve path) text files
  unfolding written
  written-ok files path text none h = refl
  written-ok files path text (some e) h = cc

  parent_made-ok :
      (files : Files) (path text : String) (o : Option String)
      → (parent_made files path text o).1 ≡ ok tt
      → (parent_made files path text o).0 ≡ insert (sys.resolve path) text files
  unfolding parent_made
  parent_made-ok files path text none h = written-ok files path text (sys.write_fault path) h
  parent_made-ok files path text (some e) h = cc

  printed-ok :
      (files : Files) (path : String) (p : Fallible String)
      → (printed files path p).1 ≡ ok tt
      → (text : String) × (p ≡ returns text)
        × ((printed files path p).0 ≡ insert (sys.resolve path) text files)
  unfolding printed
  printed-ok files path (returns text) h =
      (text, refl, parent_made-ok files path text (sys.parent_fault path) h)
  printed-ok files path (fails e) h = cc

  other_path : (path other : String) → other ≢ path → (path == other) ≡ false
  other_path path other differs = ground (arith, string_eq.beq_iff path other, differs)

  -- Where what is written of a configuration is read back as that configuration, saving it to a
  -- path and loading the path, if it can be read, gives the configuration; and paths of other files load as before.
  pub load_from_file-save_to_file :
      (files : Files) (c : Config) (path : String)
      → IsFaithful c
      → (save_to_file files c path).1 ≡ ok tt
      → sys.read_fault path ≡ none
      → (load_from_file (save_to_file files c path).0 path ≡ ok c)
        × ((other : String)
            → sys.resolve other ≢ sys.resolve path
            → load_from_file (save_to_file files c path).0 other ≡ load_from_file files other)
  unfolding save_to_file load_from_file load_unless read_text parsed
  load_from_file-save_to_file files c path v saved readable =
      let (text, print, files') = printed-ok files path (sys.print_toml c) saved in
      (
        rw
            (
              readable,
              files',
              lookup-insert (sys.resolve path) (sys.resolve path) text files,
              beq_refl (sys.resolve path),
            )
            (ap parsed (v text print)),
        λ other differs.
            rw
              (
                files',
                lookup-insert (sys.resolve path) (sys.resolve other) text files,
                other_path (sys.resolve path) (sys.resolve other) differs,
              )
              refl,
      )
