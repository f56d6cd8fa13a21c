-- ===== src/Transport/Types.antt =====
-- crates/core/src/transport/types.rs: the kinds of transport and what they can do.
use vscfreedev.Base.{Bool, true, false, nat_eq, string_eq}

pub data TransportType : Type 0 where
  ssh local tcp wsl : TransportType

pub data ConnectionState : Type 0 where
  disconnected connecting connected failed reconnecting : ConnectionState

pub record TransportCapabilities : Type 0 where
  pub auto_upload : Bool
  pub port_forwarding : Bool
  pub secure : Bool
  pub platform_specific : Bool
  pub reconnectable : Bool
  pub multiplexing : Bool

unfoldable pub for_transport_type : TransportType → TransportCapabilities
for_transport_type ssh = record {
  auto_upload = true;
  port_forwarding = true;
  secure = true;
  platform_specific = false;
  reconnectable = true;
  multiplexing = true;
}
for_transport_type local = record {
  auto_upload = false;
  port_forwarding = false;
  secure = false;
  platform_specific = false;
  reconnectable = false;
  multiplexing = false;
}
for_transport_type tcp = record {
  auto_upload = false;
  port_forwarding = false;
  secure = false;
  platform_specific = false;
  reconnectable = true;
  multiplexing = false;
}
for_transport_type wsl = record {
  auto_upload = false;
  port_forwarding = false;
  secure = false;
  platform_specific = true;
  reconnectable = false;
  multiplexing = false;
}
