-- ===== src/Transport/Builder/Tcp.antt =====
-- The builders of TCP and TLS configurations in crates/core/src/transport/builder.rs.
use vscfreedev.Base.{ℕ, String, true, false, none, some, nat_eq, string_eq}
use vscfreedev.Errors.{Result}
use vscfreedev.Transport.{
  tcp, TcpConfig, TlsConfig, GeneralConfig, TransportConfig, Platform, default_general,
}
use vscfreedev.Transport.Builder.{add_env_var, validated}

pub record TcpTransportBuilder : Type 0 where
  pub config : TcpConfig
  pub general : GeneralConfig

abbrev pub new : TcpTransportBuilder
new = record {
  config = record { host = ""; port = 0; time_out = 30; tls = none };
  general = default_general;
}

abbrev pub host : TcpTransportBuilder → String → TcpTransportBuilder
host b h = record b { config = record b.config { host = h } }

abbrev pub port : TcpTransportBuilder → ℕ → TcpTransportBuilder
port b n = record b { config = record b.config { port = n } }

abbrev pub time_out : TcpTransportBuilder → ℕ → TcpTransportBuilder
time_out b seconds = record b { config = record b.config { time_out = seconds } }

abbrev pub with_env_var : TcpTransportBuilder → String → String → TcpTransportBuilder
with_env_var b key value = record b { general = add_env_var b.general key value }

pub record TlsBuilder : Type 0 where
  pub tcp_builder : TcpTransportBuilder
  pub tls_config : TlsConfig

-- `TlsBuilder::new`.
unfoldable pub with_tls : TcpTransportBuilder → TlsBuilder
with_tls b = record {
  tcp_builder = b;
  tls_config = record {
    enabled = true;
    verify_cert = true;
    client_cert = none;
    client_key = none;
    ca_cert = none;
  };
}

unfoldable pub insecure : TlsBuilder → TlsBuilder
insecure b = record b { tls_config = record b.tls_config { verify_cert = false } }

unfoldable pub client_cert : TlsBuilder → String → TlsBuilder
client_cert b path = record b { tls_config = record b.tls_config { client_cert = some path } }

unfoldable pub client_key : TlsBuilder → String → TlsBuilder
client_key b path = record b { tls_config = record b.tls_config { client_key = some path } }

unfoldable pub ca_cert : TlsBuilder → String → TlsBuilder
ca_cert b path = record b { tls_config = record b.tls_config { ca_cert = some path } }

unfoldable pub done : TlsBuilder → TcpTransportBuilder
done b = record b.tcp_builder { config = record b.tcp_builder.config { tls = some b.tls_config } }

abbrev pub assembled : TcpTransportBuilder → TransportConfig
assembled b = record {
  transport_type = tcp;
  ssh_config = none;
  local_config = none;
  tcp_config = some b.config;
  wsl_config = none;
  general = b.general;
}

abbrev pub build : Platform → TcpTransportBuilder → Result TransportConfig
build p b = validated p (assembled b)
