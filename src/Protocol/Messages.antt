-- ===== src/Protocol/Messages.antt =====
-- crates/core/src/protocol/request_response.rs: the requests of a client and the responses of the
-- remote server. The items of a response are those of the buffer (Protocol/Buffer).
use vscfreedev.Base.{ℕ, String, List, nat_eq, string_eq}
use vscfreedev.Protocol.Bytes.{Bytes}
use vscfreedev.Protocol.Buffer.{ResponseItem}

pub data ProtocolRequest : Type 0 where
  poll_data : ProtocolRequest
  start_port_forward : ℕ → String → ℕ → ProtocolRequest
  stop_port_forward : ℕ → ProtocolRequest
  port_forward_data : ℕ → Bytes → ProtocolRequest
  get_clipboard : ProtocolRequest
  set_clipboard : String → ProtocolRequest
  open_browser : String → ProtocolRequest

pub data ProtocolResponse : Type 0 where
  items : List ResponseItem → ProtocolResponse
  success : ProtocolResponse
  error : String → ProtocolResponse
