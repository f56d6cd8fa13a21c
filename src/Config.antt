-- ===== src/Config.antt =====
-- crates/core/src/config.rs: the configuration of yuha. A path is its text, as a port is a number;
-- durations are in nanoseconds. Reading and writing TOML, the file system, the directories of the
-- user and the parsing of numbers and of log levels are given by a `System`; the configuration of
-- the logging is a value of its own type, of which only the level has a part here.
pub mod Profiles
pub mod Environment
pub mod Fallback
mod Tests
use Prim.Native.String.{◌++◌ as ◌<>◌}
use vscfreedev.Base.{
  ℕ, zero, suc, ◌+◌, ◌-◌, ◌*◌, ◌/◌, ◌%◌, ◌^◌, ◌≤◌, ◌<◌, min, max, String, ◌≡◌, refl, sym, ap, subst,
  ◌∙◌, ◌≢◌, ◌↔◌, ◌⊎◌, inl, inr, Bool, true, false, not, ◌&&◌, ◌||◌, Option, none, some, List, [],
  ◌∷◌, ◌++◌, map, arith, ltb, leb, if◌then◌else◌, Eq, ◌==◌, nat_beq, nat_beq_iff, nat_eq, string_eq,
  beq_refl, Bool-cases, Option-cases, length, is_empty, retain, All, every, exists, contains, count,
  without, length-append, length-retain-le, count-append, count-without, length-without-le,
}
use vscfreedev.Base.Table.{Table, lookup, insert, remove}
use vscfreedev.Base.Anyhow.{Fallible, returns, fails}
use vscfreedev.Errors.{Result, ok, err, YuhaError, ConfigError}
use vscfreedev.Errors
use vscfreedev.Session.{secs}
use vscfreedev.Metrics.{MetricsConfig}
use vscfreedev.Metrics

pub record ClientConfig : Type 0 where
  pub connection_timeout : ℕ
  pub max_retries : ℕ
  pub default_binary_path : Option String
  pub auto_upload_binary : Bool
  pub working_dir : Option String

pub record TempFileConfig : Type 0 where
  pub startup_file : String
  pub panic_file : String
  pub stderr_file : String

pub record RemoteConfig : Type 0 where
  pub default_port : ℕ
  pub polling_timeout : ℕ
  pub polling_interval : ℕ
  pub buffer_size : ℕ
  pub temp_files : TempFileConfig

pub record PortForwardConfig : Type 0 where
  pub buffer_size : ℕ
  pub max_concurrent : ℕ
  pub time_out : ℕ

pub record TimeoutConfig : Type 0 where
  pub connect : ℕ
  pub read : ℕ
  pub write : ℕ

pub record NetworkConfig : Type 0 where
  pub ssh_port : ℕ
  pub bind_address : String
  pub port_forward : PortForwardConfig
  pub timeouts : TimeoutConfig

pub record SshConfig : Type 0 where
  pub host : String
  pub port : ℕ
  pub username : String
  pub password : Option String
  pub key_path : Option String
  pub auto_upload_binary : Bool

pub record LocalConfig : Type 0 where
  pub binary_path : String
  pub args : List String
  pub working_dir : Option String

-- `overrides` are the values of a TOML table, as texts.
pub record ConnectionProfile : Type 0 where
  pub name : String
  pub ssh : Option SshConfig
  pub local : Option LocalConfig
  pub env_vars : Table String String
  pub overrides : Table String String

abbrev pub default_client : ClientConfig
default_client = record {
  connection_timeout = 30;
  max_retries = 3;
  default_binary_path = none;
  auto_upload_binary = false;
  working_dir = none;
}

abbrev pub default_temp_files : TempFileConfig
default_temp_files = record {
  startup_file = "/tmp/yuha_startup.txt";
  panic_file = "/tmp/yuha_panic.txt";
  stderr_file = "/tmp/yuha_stderr.log";
}

abbrev pub default_remote : RemoteConfig
default_remote = record {
  default_port = 9999;
  polling_timeout = 5;
  polling_interval = 10;
  buffer_size = 4096;
  temp_files = default_temp_files;
}

abbrev pub default_port_forward : PortForwardConfig
default_port_forward = record { buffer_size = 4096; max_concurrent = 100; time_out = 60 }

abbrev pub default_timeouts : TimeoutConfig
default_timeouts = record { connect = 10; read = 30; write = 30 }

abbrev pub default_network : NetworkConfig
default_network = record {
  ssh_port = 22;
  bind_address = "0.0.0.0";
  port_forward = default_port_forward;
  timeouts = default_timeouts;
}

-- What the configuration takes of the logging: a type of levels and of the other settings.
pub record Logging : Type 1 where
  pub Level : Type 0
  pub Settings : Type 0
  pub default_level : Level
  pub default_settings : Settings

-- How a file is left where a write of it fails: as it was (`none`), where it cannot be opened, or
-- with the text that the write got through; and the text of the error.
pub record WriteFault : Type 0 where
  pub left : Option String
  pub message : String

module _ (lg : Logging) where
  pub record LoggingConfig : Type 0 where
    pub level : lg.Level
    pub settings : lg.Settings

  pub record YuhaConfig : Type 0 where
    pub client : ClientConfig
    pub remote : RemoteConfig
    pub network : NetworkConfig
    pub logging : LoggingConfig
    pub metrics : MetricsConfig
    pub profiles : Table String ConnectionProfile

  abbrev pub default_config : YuhaConfig
  default_config = record {
    client = default_client;
    remote = default_remote;
    network = default_network;
    logging = record { level = lg.default_level; settings = lg.default_settings };
    metrics = Metrics.default_config;
    profiles = [];
  }

  -- The parts of the system that do not change: the faults of its files, its directories, its
  -- environment, and how texts are read and written. `resolve` gives one name for all paths of a
  -- file.
  pub record System : Type 0 where
    pub read_fault : String → Option String
    pub missing_file : String
    pub parent_fault : String → Option String
    pub write_fault : String → Option WriteFault
    pub resolve : String → String
    pub parse_toml : String → Fallible YuhaConfig
    pub print_toml : YuhaConfig → Fallible String
    pub config_dir : Option String
    pub home_dir : Option String
    pub join : String → String → String
    pub env : String → Option String
    pub parse_level : String → Option lg.Level
    pub parse_u16 : String → Option ℕ
    pub parse_u64 : String → Option ℕ

  abbrev pub refuse {ℓ} : {A : Type ℓ} → String → Result A
  refuse message = err (Errors.YuhaError.config (ConfigError.validation_failed message))

  unfoldable pub validate : YuhaConfig → Result (Unit {0})
  validate c =
      if c.network.ssh_port == 0
      then refuse "SSH port cannot be 0"
      else if c.remote.default_port == 0
      then refuse "TCP port cannot be 0"
      else if c.client.connection_timeout == 0
      then refuse "Connection timeout must be greater than 0"
      else if c.remote.polling_timeout == 0
      then refuse "Polling timeout must be greater than 0"
      else if c.remote.buffer_size == 0
      then refuse "Buffer size must be greater than 0"
      else ok tt

  -- What is required of a valid configuration, apart from the order of the tests.
  pub record Valid (c : YuhaConfig) : Type 0 where
    pub ssh_port : 0 < c.network.ssh_port
    pub default_port : 0 < c.remote.default_port
    pub connection_timeout : 0 < c.client.connection_timeout
    pub polling_timeout : 0 < c.remote.polling_timeout
    pub buffer_size : 0 < c.remote.buffer_size

  -- A configuration validates exactly when its two ports, its two timeouts and its buffer size
  -- are above zero.
  pub validate-Valid : (c : YuhaConfig) → (validate c ≡ ok tt) ↔ Valid c
  unfolding validate
  validate-Valid c = (
    λ h. record {
      ssh_port = ground (arith, h);
      default_port = ground (arith, h);
      connection_timeout = ground (arith, h);
      polling_timeout = ground (arith, h);
      buffer_size = ground (arith, h);
    },
    λ v.
        ground (
          arith, v.ssh_port, v.default_port, v.connection_timeout, v.polling_timeout, v.buffer_size,
        ),
  )

  abbrev pub connection_timeout : YuhaConfig → ℕ
  connection_timeout c = secs c.client.connection_timeout

  abbrev pub polling_timeout : YuhaConfig → ℕ
  polling_timeout c = secs c.remote.polling_timeout

  abbrev pub polling_interval : YuhaConfig → ℕ
  polling_interval c = c.remote.polling_interval * 1000000
