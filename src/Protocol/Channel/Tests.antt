-- ===== src/Protocol/Channel/Tests.antt =====
-- Tests of the message channel, and instances of its theorems
-- (crates/core/src/message_channel.rs).
use vscfreedev.Base.{◌≡◌, refl, List, [], ◌∷◌, map, arith, nat_eq, string_eq}
use vscfreedev.Errors.{ok, err}
use vscfreedev.Protocol.Bytes.{Bytes}
use vscfreedev.Protocol.Channel.{
  MessageChannel, new_with_stream, send, split_frame, receive, put, payload_sent, header_sent,
}
use vscfreedev.Protocol.Channel.Frames.{reads_of, closed_error, Delivers}
use vscfreedev.Protocol.Channel.Exchange.{
  seen, send_all, receive_many, receive-Delivers, receive_many-send_all,
}

abbrev messages : List Bytes
messages = (7 ∷ 8 ∷ []) ∷ [] ∷ (9 ∷ []) ∷ []

-- The bytes of the messages, cut inside a length and inside a payload.
abbrev pieces : List Bytes
pieces = (0 ∷ []) ∷ (2 ∷ 7 ∷ []) ∷ (8 ∷ 0 ∷ 0 ∷ 0 ∷ []) ∷ (1 ∷ 9 ∷ []) ∷ []

receive_many-send_all_example :
    ((receive_many 3 (new_with_stream (reads_of pieces))).1 ≡ map ok messages)
    × ((receive (receive_many 3 (new_with_stream (reads_of pieces))).0).1 ≡ err closed_error)
unfolding send_all send new_with_stream header_sent payload_sent put
receive_many-send_all_example =
    receive_many-send_all messages pieces (omega arith, (omega arith, (omega arith, tt)))
      ((λ h. cc), ((λ h. cc), ((λ h. cc), ((λ h. cc), tt)))) refl

abbrev channel : MessageChannel
channel = record { read_buffer = 0 ∷ []; incoming = reads_of ((2 ∷ 7 ∷ []) ∷ []); outgoing = [] }

-- The stream ends inside a payload.
receive-Delivers_example : Delivers (split_frame (0 ∷ 2 ∷ 7 ∷ [])) (seen (receive channel))
receive-Delivers_example = receive-Delivers channel ((2 ∷ 7 ∷ []) ∷ []) ((λ h. cc), tt) refl
