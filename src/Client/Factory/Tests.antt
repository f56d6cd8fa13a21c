-- ===== src/Client/Factory/Tests.antt =====
-- Tests of the transport factory, and instances of its theorems
-- (crates/client/src/transport_factory.rs).
use vscfreedev.Base.{◌≡◌, refl, false, arith, nat_eq, string_eq, length}
use vscfreedev.Base.Anyhow.{returns}
use vscfreedev.Errors.{ok}
use vscfreedev.Transport.{tcp, Platform, validate}
use vscfreedev.Transport.Builder.Tcp
use vscfreedev.Transport.Builder.Tcp.{TcpTransportBuilder, assembled}
use vscfreedev.Client.Factory.{AnyTransport, create_transport, supported_transports}
use vscfreedev.Client.Factory.Created.{type_of, create_transport-validated}

abbrev unix : Platform
unix = record { windows = false; file_exists = λ path. false }

abbrev reached : TcpTransportBuilder
reached = Tcp.port (Tcp.host Tcp.new "example.com") 443

supported : length (supported_transports unix) ≡ 3
unfolding supported_transports
supported = refl

valid : validate unix (assembled reached) ≡ ok tt
unfolding validate
valid = refl

create_transport-validated_example :
    (a : AnyTransport) × (create_transport (assembled reached) ≡ returns a) × (type_of a ≡ tcp)
create_transport-validated_example =
    create_transport-validated unix (assembled reached) valid (ground arith)
