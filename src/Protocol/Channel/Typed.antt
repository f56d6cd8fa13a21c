-- ===== src/Protocol/Channel/Typed.antt =====
-- The requests and responses on a message channel (crates/core/src/message_channel.rs), whose
-- conversion to and from JSON is serde_json's and an argument.
pub mod Exchanged
mod Tests
use Prim.Native.String.{◌++◌ as ◌<>◌}
use vscfreedev.Base.{
  ℕ, zero, suc, ◌+◌, ◌-◌, ◌*◌, ◌/◌, ◌%◌, ◌^◌, ◌≤◌, ◌<◌, min, max, String, ◌≡◌, refl, sym, ap, subst,
  ◌∙◌, ◌≢◌, ◌↔◌, ◌⊎◌, inl, inr, Bool, true, false, not, ◌&&◌, ◌||◌, Option, none, some, List, [],
  ◌∷◌, ◌++◌, map, arith, ltb, leb, if◌then◌else◌, Eq, ◌==◌, nat_beq, nat_beq_iff, nat_eq, string_eq,
  beq_refl, Bool-cases, Option-cases, length, is_empty, retain, All, every, exists, contains, count,
  without, length-append, length-retain-le, count-append, count-without, length-without-le,
}
use vscfreedev.Errors.{Result, ok, err, ProtocolError}
use vscfreedev.Protocol.Bytes.{Bytes}
use vscfreedev.Protocol.Messages.{ProtocolRequest, ProtocolResponse}
use vscfreedev.Protocol.Channel.{MessageChannel, Writes, send, receive, protocol_error}

-- `serde_json::to_vec` and `serde_json::from_slice`, with the text of the error.
pub record Json {ℓ} (A : Type ℓ) : Type ℓ where
  pub to_vec : A → String ⊎ Bytes
  pub from_slice : Bytes → String ⊎ A

abbrev serialization : String → String → ProtocolError
serialization what e = ProtocolError.serialization (what <> e)

packed : MessageChannel → Writes → String → String ⊎ Bytes → MessageChannel × Result (Unit {0})
packed c w what (inl e) = (c, err (protocol_error (serialization what e)))
packed c w what (inr payload) = send c payload w

module _ {A : Type 0} where
  unpacked : String → String ⊎ A → Result A
  unpacked what (inl e) = err (protocol_error (serialization what e))
  unpacked what (inr a) = ok a

  read_as : Json A → String → Result Bytes → Result A
  unfolding unpacked
  read_as json what (err e) = err e
  read_as json what (ok payload) = unpacked what (json.from_slice payload)

  pub receive_as : Json A → String → MessageChannel → MessageChannel × Result A
  unfolding read_as
  receive_as json what c = let (c', payload) = receive c in (c', read_as json what payload)

  pub send_as : Json A → String → MessageChannel → A → Writes → MessageChannel × Result (Unit {0})
  unfolding packed
  send_as json what c a w = packed c w what (json.to_vec a)

module _ (requests : Json ProtocolRequest) (responses : Json ProtocolResponse) where
  unfoldable pub receive_request : MessageChannel → MessageChannel × Result ProtocolRequest
  unfolding receive_as
  receive_request = receive_as requests "Request deserialization failed: "

  unfoldable pub send_response :
      MessageChannel → ProtocolResponse → Writes → MessageChannel × Result (Unit {0})
  unfolding send_as
  send_response = send_as responses "Response serialization failed: "

  unfoldable pub receive_response : MessageChannel → MessageChannel × Result ProtocolResponse
  unfolding receive_as
  receive_response = receive_as responses "Response deserialization failed: "

  unfoldable pub send_request :
      MessageChannel → ProtocolRequest → Writes → MessageChannel × Result (Unit {0})
  unfolding send_as
  send_request = send_as requests "Request serialization failed: "
