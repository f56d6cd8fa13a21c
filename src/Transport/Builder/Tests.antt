-- ===== src/Transport/Builder/Tests.antt =====
-- Tests of the builders, and instances of their theorems
-- (crates/core/src/transport/builder.rs).
use vscfreedev.Base.{◌≡◌, refl, false, List, [], ◌∷◌, nat_eq, string_eq}
use vscfreedev.Errors.{ok}
use vscfreedev.Transport.{TlsConfig, Platform, connection_key, decimal}
use vscfreedev.Transport.Builder.{validated}
use vscfreedev.Transport.Builder.Ssh
use vscfreedev.Transport.Builder.Tcp
use vscfreedev.Transport.Builder.Tcp.{TcpTransportBuilder, with_tls, done}
use vscfreedev.Transport.Builder.Built.{TlsStep, sets_insecure, sets_ca_cert}

abbrev unix : Platform
unix = record { windows = false; file_exists = λ path. false }

abbrev dev : Ssh.SshTransportBuilder
dev = Ssh.key_file (Ssh.username (Ssh.host Ssh.new "dev") "me") "id"

built : Ssh.build unix dev ≡ ok (Ssh.assembled dev)
unfolding validated vscfreedev.Transport.validate
built = refl

abbrev reached : TcpTransportBuilder
reached = Tcp.port (Tcp.host Tcp.new "example.com") 443

abbrev steps : List TlsStep
steps = sets_ca_cert "ca.pem" ∷ sets_insecure ∷ []
