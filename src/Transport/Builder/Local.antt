-- ===== src/Transport/Builder/Local.antt =====
-- The builder of local configurations in crates/core/src/transport/builder.rs.
use vscfreedev.Base.{String, none, some, List, [], ◌∷◌, ◌++◌, nat_eq, string_eq}
use vscfreedev.Errors.{Result}
use vscfreedev.Transport.{
  local, LocalConfig, GeneralConfig, TransportConfig, Platform, default_local, default_general,
}
use vscfreedev.Transport.Builder.{add_env_var, validated}

pub record LocalTransportBuilder : Type 0 where
  pub config : LocalConfig
  pub general : GeneralConfig

abbrev pub new : LocalTransportBuilder
new = record { config = default_local; general = default_general }

abbrev pub binary_path : LocalTransportBuilder → String → LocalTransportBuilder
binary_path b path = record b { config = record b.config { binary_path = path } }

abbrev pub arg : LocalTransportBuilder → String → LocalTransportBuilder
arg b a = record b { config = record b.config { args = b.config.args ++ (a ∷ []) } }

abbrev pub args : LocalTransportBuilder → List String → LocalTransportBuilder
args b all = record b { config = record b.config { args = all } }

abbrev pub working_dir : LocalTransportBuilder → String → LocalTransportBuilder
working_dir b path = record b { config = record b.config { working_dir = some path } }

abbrev pub with_env_var : LocalTransportBuilder → String → String → LocalTransportBuilder
with_env_var b key value = record b { general = add_env_var b.general key value }

abbrev pub assembled : LocalTransportBuilder → TransportConfig
assembled b = record {
  transport_type = local;
  ssh_config = none;
  local_config = some b.config;
  tcp_config = none;
  wsl_config = none;
  general = b.general;
}

abbrev pub build : Platform → LocalTransportBuilder → Result TransportConfig
build p b = validated p (assembled b)
