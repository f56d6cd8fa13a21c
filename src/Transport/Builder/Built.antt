-- ===== src/Transport/Builder/Built.antt =====
-- What the builders of crates/core/src/transport/builder.rs build.
use Prim.Native.String.{◌++◌ as ◌<>◌}
use vscfreedev.Base.{
  String, ◌≡◌, refl, ap, ◌∙◌, ◌↔◌, Bool, true, false, not, ◌&&◌, some, List, [], ◌∷◌, arith, nat_eq,
  string_eq, exists,
}
use vscfreedev.Errors.{Result, ok, err}
use vscfreedev.Transport.{
  TransportConfig, TlsConfig, Platform, validate, connection_key, decimal, tcp_key, tls_enabled,
  key_of,
}
use vscfreedev.Transport.Validation.{Fits, validate-Fits}
use vscfreedev.Transport.Builder.{accepted, validated}
use vscfreedev.Transport.Builder.Tcp
use vscfreedev.Transport.Builder.Tcp.{
  TcpTransportBuilder, TlsBuilder, with_tls, insecure, client_cert, client_key, ca_cert, done,
}

accepted-ok :
    (c d : TransportConfig) (r : Result (Unit {0}))
    → (accepted c r ≡ ok d) ↔ ((r ≡ ok tt) × (c ≡ d))
unfolding accepted
accepted-ok c d (ok _) = ground arith
accepted-ok c d (err e) = ground arith

-- A builder gives its own configuration exactly when the configuration is what its transport
-- type asks for, and otherwise an error.
pub validated-Fits :
    (p : Platform) (c d : TransportConfig)
    → (validated p c ≡ ok d) ↔ (Fits p c c.transport_type × (c ≡ d))
unfolding validated
validated-Fits p c d = ground (arith, accepted-ok c d (validate p c), validate-Fits p c)

-- The setters of the TLS builder.
pub data TlsStep : Type 0 where
  sets_insecure : TlsStep
  sets_client_cert sets_client_key sets_ca_cert : String → TlsStep

unfoldable pub set : TlsBuilder → TlsStep → TlsBuilder
set b sets_insecure = insecure b
set b (sets_client_cert path) = client_cert b path
set b (sets_client_key path) = client_key b path
set b (sets_ca_cert path) = ca_cert b path

unfoldable pub set_each : TlsBuilder → List TlsStep → TlsBuilder
set_each b [] = b
set_each b (s ∷ ss) = set_each (set b s) ss

abbrev pub is_insecure : TlsStep → Bool
is_insecure sets_insecure = true
is_insecure _ = false

set-tcp_builder :
    (b : TlsBuilder) (s : TlsStep)
    → ((set b s).tcp_builder ≡ b.tcp_builder)
      × ((set b s).tls_config.enabled ≡ b.tls_config.enabled)
      × ((set b s).tls_config.verify_cert ≡ (b.tls_config.verify_cert && not (is_insecure s)))
unfolding set insecure client_cert client_key ca_cert
set-tcp_builder b sets_insecure = (refl, refl, ground arith)
set-tcp_builder b (sets_client_cert path) = (refl, refl, ground arith)
set-tcp_builder b (sets_client_key path) = (refl, refl, ground arith)
set-tcp_builder b (sets_ca_cert path) = (refl, refl, ground arith)

set_each-tcp_builder :
    (ss : List TlsStep) (b : TlsBuilder)
    → ((set_each b ss).tcp_builder ≡ b.tcp_builder)
      × ((set_each b ss).tls_config.enabled ≡ b.tls_config.enabled)
      × ((set_each b ss).tls_config.verify_cert
          ≡ (b.tls_config.verify_cert && not (exists is_insecure ss)))
unfolding set_each
set_each-tcp_builder [] b = (refl, refl, ground arith)
set_each-tcp_builder (s ∷ ss) b =
    let (tcp, enabled, verify) = set_each-tcp_builder ss (set b s) in
    let (tcp', enabled', verify') = set-tcp_builder b s in
    (tcp ∙ tcp', enabled ∙ enabled', ground (arith, verify, verify'))

abbrev pub secured : TcpTransportBuilder → TlsConfig → TcpTransportBuilder
secured b t = record b { config = record b.config { tls = some t } }

-- The key of a TCP configuration with TLS.
tcp_key-tls :
    (b : TcpTransportBuilder) (t : TlsConfig)
    → t.enabled ≡ true
    → connection_key (Tcp.assembled (secured b t))
      ≡ "tcps" <> ("://" <> (b.config.host <> (":" <> decimal b.config.port)))
unfolding connection_key key_of tcp_key tls_enabled
tcp_key-tls b t on = rw on refl

-- Whatever the TLS builder is told, what it hands back is the TCP builder that it was made from
-- with TLS enabled, so its connection key is that of an encrypted connection; and certificates
-- are checked unless the builder was told not to.
pub done-tls :
    (b : TcpTransportBuilder) (ss : List TlsStep)
    → (t : TlsConfig) × (done (set_each (with_tls b) ss) ≡ secured b t)
      × (t.enabled ≡ true)
      × (t.verify_cert ≡ not (exists is_insecure ss))
      × (connection_key (Tcp.assembled (done (set_each (with_tls b) ss)))
          ≡ "tcps" <> ("://" <> (b.config.host <> (":" <> decimal b.config.port))))
unfolding done with_tls
done-tls b ss =
    let (tcp, enabled, verify) = set_each-tcp_builder ss (with_tls b) in
    let t = (set_each (with_tls b) ss).tls_config in
    let same = ap (λ x. secured x t) tcp in
    (
      t,
      same,
      enabled,
      verify,
      ap (λ x. connection_key (Tcp.assembled x)) same ∙ tcp_key-tls b t enabled,
    )
