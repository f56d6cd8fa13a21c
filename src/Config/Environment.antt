-- ===== src/Config/Environment.antt =====
-- What the environment changes in a configuration (crates/core/src/config.rs).
use vscfreedev.Base.{ℕ, String, ◌≡◌, refl, ◌≢◌, Option, none, some, arith, nat_eq, string_eq}
use vscfreedev.Config.{Logging, YuhaConfig, System, Valid}

module _ {lg : Logging} (sys : System lg) where
  abbrev Config : Type 0
  Config = YuhaConfig lg

  -- `var` and then `parse`, of which either may fail.
  abbrev parsed {ℓ} : {A : Type ℓ} → (String → Option A) → Option String → Option A
  parsed parse none = none
  parsed parse (some text) = parse text

  with_level : Config → Option lg.Level → Config
  with_level c none = c
  with_level c (some level) = record c { logging = record c.logging { level = level } }

  with_port : Config → Option ℕ → Config
  with_port c none = c
  with_port c (some port) = record c { remote = record c.remote { default_port = port } }

  with_timeout : Config → Option ℕ → Config
  with_timeout c none = c
  with_timeout c (some seconds) = record c {
    client = record c.client { connection_timeout = seconds };
  }

  with_binary : Config → Option String → Config
  with_binary c none = c
  with_binary c (some path) = record c {
    client = record c.client { default_binary_path = some path };
  }

  abbrev pub port_override : Option ℕ
  port_override = parsed sys.parse_u16 (sys.env "YUHA_TCP_PORT")

  abbrev pub timeout_override : Option ℕ
  timeout_override = parsed sys.parse_u64 (sys.env "YUHA_TIMEOUT")

  abbrev level_override : Option lg.Level
  level_override = parsed sys.parse_level (sys.env "RUST_LOG")

  unfoldable pub merge_with_env : Config → Config
  unfolding with_level with_port with_timeout with_binary
  merge_with_env c =
      with_binary
        (with_timeout (with_port (with_level c level_override) port_override) timeout_override)
        (sys.env "YUHA_BINARY_PATH")

  merged : Config → Option lg.Level → Option ℕ → Option ℕ → Option String → Config
  unfolding with_level with_port with_timeout with_binary
  merged c level port seconds path =
      with_binary (with_timeout (with_port (with_level c level) port) seconds) path

  merged_twice :
      (c : Config) (level : Option lg.Level) (port seconds : Option ℕ) (path : Option String)
      → merged (merged c level port seconds path) level port seconds path
        ≡ merged c level port seconds path
  unfolding merged
  merged_twice c none none none none = refl
  merged_twice c none none none (some _) = refl
  merged_twice c none none (some _) none = refl
  merged_twice c none none (some _) (some _) = refl
  merged_twice c none (some _) none none = refl
  merged_twice c none (some _) none (some _) = refl
  merged_twice c none (some _) (some _) none = refl
  merged_twice c none (some _) (some _) (some _) = refl
  merged_twice c (some _) none none none = refl
  merged_twice c (some _) none none (some _) = refl
  merged_twice c (some _) none (some _) none = refl
  merged_twice c (some _) none (some _) (some _) = refl
  merged_twice c (some _) (some _) none none = refl
  merged_twice c (some _) (some _) none (some _) = refl
  merged_twice c (some _) (some _) (some _) none = refl
  merged_twice c (some _) (some _) (some _) (some _) = refl

  with_level-Valid : (c : Config) (o : Option lg.Level) → Valid lg c → Valid lg (with_level c o)
  unfolding with_level
  with_level-Valid c none v = v
  with_level-Valid c (some level) v = record {
    ssh_port = v.ssh_port;
    default_port = v.default_port;
    connection_timeout = v.connection_timeout;
    polling_timeout = v.polling_timeout;
    buffer_size = v.buffer_size;
  }

  with_port-Valid : (c : Config) (o : Option ℕ) → Valid lg c → o ≢ some 0 → Valid lg (with_port c o)
  unfolding with_port
  with_port-Valid c none v h = v
  with_port-Valid c (some port) v h = record {
    ssh_port = v.ssh_port;
    default_port = ground (arith, h);
    connection_timeout = v.connection_timeout;
    polling_timeout = v.polling_timeout;
    buffer_size = v.buffer_size;
  }

  with_timeout-Valid :
      (c : Config) (o : Option ℕ) → Valid lg c → o ≢ some 0 → Valid lg (with_timeout c o)
  unfolding with_timeout
  with_timeout-Valid c none v h = v
  with_timeout-Valid c (some seconds) v h = record {
    ssh_port = v.ssh_port;
    default_port = v.default_port;
    connection_timeout = ground (arith, h);
    polling_timeout = v.polling_timeout;
    buffer_size = v.buffer_size;
  }

  with_binary-Valid : (c : Config) (o : Option String) → Valid lg c → Valid lg (with_binary c o)
  unfolding with_binary
  with_binary-Valid c none v = v
  with_binary-Valid c (some path) v = record {
    ssh_port = v.ssh_port;
    default_port = v.default_port;
    connection_timeout = v.connection_timeout;
    polling_timeout = v.polling_timeout;
    buffer_size = v.buffer_size;
  }

  -- Merging the environment a second time changes nothing; and a valid configuration stays valid,
  -- unless the environment sets the port or the connection timeout to zero.
  pub merge_with_env-Valid :
      (c : Config)
      → Valid lg c
      → port_override ≢ some 0
      → timeout_override ≢ some 0
      → (merge_with_env (merge_with_env c) ≡ merge_with_env c) × Valid lg (merge_with_env c)
  unfolding merge_with_env merged
  merge_with_env-Valid c v port' timeout' = (
    merged_twice c level_override port_override timeout_override (sys.env "YUHA_BINARY_PATH"),
    with_binary-Valid _ (sys.env "YUHA_BINARY_PATH") (
        with_timeout-Valid _ timeout_override
          (with_port-Valid _ port_override (with_level-Valid c level_override v) port') timeout'),
  )
