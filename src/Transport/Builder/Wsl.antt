-- ===== src/Transport/Builder/Wsl.antt =====
-- The builder of WSL configurations in crates/core/src/transport/builder.rs.
use vscfreedev.Base.{String, none, some, nat_eq, string_eq}
use vscfreedev.Errors.{Result}
use vscfreedev.Transport.{wsl, WslConfig, GeneralConfig, TransportConfig, Platform, default_general}
use vscfreedev.Transport.Builder.{add_env_var, validated}

pub record WslTransportBuilder : Type 0 where
  pub config : WslConfig
  pub general : GeneralConfig

abbrev pub new : WslTransportBuilder
new = record {
  config = record { distribution = none; user = none; binary_path = none; working_dir = none };
  general = default_general;
}

abbrev pub distribution : WslTransportBuilder → String → WslTransportBuilder
distribution b name = record b { config = record b.config { distribution = some name } }

abbrev pub user : WslTransportBuilder → String → WslTransportBuilder
user b name = record b { config = record b.config { user = some name } }

abbrev pub binary_path : WslTransportBuilder → String → WslTransportBuilder
binary_path b path = record b { config = record b.config { binary_path = some path } }

abbrev pub working_dir : WslTransportBuilder → String → WslTransportBuilder
working_dir b path = record b { config = record b.config { working_dir = some path } }

abbrev pub with_env_var : WslTransportBuilder → String → String → WslTransportBuilder
with_env_var b key value = record b { general = add_env_var b.general key value }

abbrev pub assembled : WslTransportBuilder → TransportConfig
assembled b = record {
  transport_type = wsl;
  ssh_config = none;
  local_config = none;
  tcp_config = none;
  wsl_config = some b.config;
  general = b.general;
}

abbrev pub build : Platform → WslTransportBuilder → Result TransportConfig
build p b = validated p (assembled b)
