-- ===== src/Transport/Builder/Ssh.antt =====
-- The builder of SSH configurations in crates/core/src/transport/builder.rs.
use vscfreedev.Base.{ℕ, String, true, false, none, some, nat_eq, string_eq}
use vscfreedev.Errors.{Result}
use vscfreedev.Transport.{ssh, SshConfig, GeneralConfig, TransportConfig, Platform, default_general}
use vscfreedev.Transport.Builder.{add_env_var, validated}

pub record SshTransportBuilder : Type 0 where
  pub config : SshConfig
  pub general : GeneralConfig

abbrev pub new : SshTransportBuilder
new = record {
  config = record {
    host = "";
    port = 22;
    username = "";
    password = none;
    key_path = none;
    auto_upload_binary = false;
    time_out = 30;
    keepalive = 60;
  };
  general = default_general;
}

abbrev pub host : SshTransportBuilder → String → SshTransportBuilder
host b h = record b { config = record b.config { host = h } }

abbrev pub port : SshTransportBuilder → ℕ → SshTransportBuilder
port b n = record b { config = record b.config { port = n } }

abbrev pub username : SshTransportBuilder → String → SshTransportBuilder
username b u = record b { config = record b.config { username = u } }

abbrev pub password : SshTransportBuilder → String → SshTransportBuilder
password b p = record b { config = record b.config { password = some p } }

abbrev pub key_file : SshTransportBuilder → String → SshTransportBuilder
key_file b path = record b { config = record b.config { key_path = some path } }

abbrev pub auto_upload_binary : SshTransportBuilder → SshTransportBuilder
auto_upload_binary b = record b { config = record b.config { auto_upload_binary = true } }

abbrev pub time_out : SshTransportBuilder → ℕ → SshTransportBuilder
time_out b seconds = record b { config = record b.config { time_out = seconds } }

abbrev pub keepalive : SshTransportBuilder → ℕ → SshTransportBuilder
keepalive b seconds = record b { config = record b.config { keepalive = seconds } }

abbrev pub with_env_var : SshTransportBuilder → String → String → SshTransportBuilder
with_env_var b key value = record b { general = add_env_var b.general key value }

abbrev pub assembled : SshTransportBuilder → TransportConfig
assembled b = record {
  transport_type = ssh;
  ssh_config = some b.config;
  local_config = none;
  tcp_config = none;
  wsl_config = none;
  general = b.general;
}

abbrev pub build : Platform → SshTransportBuilder → Result TransportConfig
build p b = validated p (assembled b)
