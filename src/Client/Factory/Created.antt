-- ===== src/Client/Factory/Created.antt =====
-- Which configurations have a transport (crates/client/src/transport_factory.rs).
use vscfreedev.Base.{◌≡◌, refl, ap, ◌≢◌, true, Option, none, some, nat_eq, string_eq}
use vscfreedev.Base.Anyhow.{returns, fails}
use vscfreedev.Errors.{ok}
use vscfreedev.Transport.{
  TransportType, ssh, local, tcp, wsl, TransportConfig, SshConfig, LocalConfig, TcpConfig,
  WslConfig, TlsConfig, Platform, validate,
}
use vscfreedev.Transport.Validation.{Fits, validate-Fits}
use vscfreedev.Transport.Builder.Tcp.{TcpTransportBuilder, assembled}
use vscfreedev.Transport.Builder.Built.{secured}
use vscfreedev.Client.Factory.{
  AnyTransport, local_transport, ssh_transport, tcp_transport, wsl_transport, as_any,
  create_local_transport, create_ssh_transport, create_tcp_transport, create_wsl_transport,
  create_as, create_transport,
}

abbrev pub type_of : AnyTransport → TransportType
type_of (local_transport t) = local
type_of (ssh_transport t) = ssh
type_of (tcp_transport t) = tcp
type_of (wsl_transport t) = wsl

abbrev pub unsecured : TcpTransportBuilder → TcpTransportBuilder
unsecured b = record b { config = record b.config { tls = none } }

abbrev Creates : TransportConfig → TransportType → Type 0
Creates c t = (a : AnyTransport) × (create_as c t ≡ returns a) × (type_of a ≡ t)

created-ssh :
    (c : TransportConfig) (o : Option SshConfig) → c.ssh_config ≡ o → o ≢ none → Creates c ssh
unfolding create_as as_any create_ssh_transport
created-ssh c none e h = absurd (h refl)
created-ssh c (some s) e h =
    (ssh_transport _, ap (λ o. as_any ssh_transport (create_ssh_transport c.general o)) e, refl)

created-local :
    (c : TransportConfig) (o : Option LocalConfig) → c.local_config ≡ o → o ≢ none → Creates c local
unfolding create_as as_any create_local_transport
created-local c none e h = absurd (h refl)
created-local c (some s) e h = (
  local_transport _,
  ap (λ o. as_any local_transport (create_local_transport c.general o)) e,
  refl,
)

created-tcp :
    (c : TransportConfig) (o : Option TcpConfig) → c.tcp_config ≡ o → o ≢ none → Creates c tcp
unfolding create_as as_any create_tcp_transport
created-tcp c none e h = absurd (h refl)
created-tcp c (some s) e h =
    (tcp_transport _, ap (λ o. as_any tcp_transport (create_tcp_transport c.general o)) e, refl)

created-wsl :
    (c : TransportConfig) (o : Option WslConfig) → c.wsl_config ≡ o → o ≢ none → Creates c wsl
unfolding create_as as_any create_wsl_transport
created-wsl c none e h = absurd (h refl)
created-wsl c (some s) e h =
    (wsl_transport _, ap (λ o. as_any wsl_transport (create_wsl_transport c.general o)) e, refl)

-- What a type of transport needs includes its part of the configuration, but for WSL.
create_as-Fits :
    (p : Platform) (c : TransportConfig) (t : TransportType) → Fits p c t → t ≢ wsl → Creates c t
create_as-Fits p c ssh v other = created-ssh c c.ssh_config refl (λ e. rw e at v)
create_as-Fits p c local v other = created-local c c.local_config refl (λ e. rw e at v)
create_as-Fits p c tcp v other = created-tcp c c.tcp_config refl (λ e. rw e at v)
create_as-Fits p c wsl v other = absurd (other refl)

-- A configuration that validates, of any type but WSL, has a transport, of its type.
pub create_transport-validated :
    (p : Platform) (c : TransportConfig)
    → validate p c ≡ ok tt
    → c.transport_type ≢ wsl
    → (a : AnyTransport) × (create_transport c ≡ returns a) × (type_of a ≡ c.transport_type)
unfolding create_transport
create_transport-validated p c v other =
    create_as-Fits p c c.transport_type ((validate-Fits p c).0 v) other

-- A WSL configuration without a WSL part validates on Windows, and has no transport.
pub create_transport-wsl :
    (p : Platform) (c : TransportConfig)
    → p.windows ≡ true
    → c.transport_type ≡ wsl
    → c.wsl_config ≡ none
    → (validate p c ≡ ok tt)
      × (create_transport c ≡ fails "WSL transport configuration is required")
unfolding create_transport create_as as_any create_wsl_transport
create_transport-wsl p c windows type empty =
    ((validate-Fits p c).1 (rw type windows), rw (type, create_as, empty) refl)

-- The transport of a TCP configuration is the same with TLS, however it is set up, as without: it
-- holds nothing of the TLS settings.
pub create_transport-tls :
    (b : TcpTransportBuilder) (t : TlsConfig)
    → create_transport (assembled (secured b t)) ≡ create_transport (assembled (unsecured b))
unfolding create_transport create_as as_any create_tcp_transport
create_transport-tls b t = refl
