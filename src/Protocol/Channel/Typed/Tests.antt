-- ===== src/Protocol/Channel/Typed/Tests.antt =====
-- Tests of the requests and responses on a channel
-- (crates/core/src/message_channel.rs).
use vscfreedev.Base.{ℕ, String, ◌≡◌, refl, ◌⊎◌, inl, inr, List, [], ◌∷◌, nat_eq, string_eq}
use vscfreedev.Errors.{ok}
use vscfreedev.Protocol.Bytes.{Bytes}
use vscfreedev.Protocol.Channel.{new_with_stream, receive}
use vscfreedev.Protocol.Channel.Frames.{reads_of}
use vscfreedev.Protocol.Channel.Typed.{Json, receive_as}
use vscfreedev.Protocol.Channel.Typed.Exchanged.{receive_each}

-- A message of one byte for a number.
abbrev from_byte : Bytes → String ⊎ ℕ
from_byte [] = inl "empty"
from_byte (b ∷ bs) = inr b

abbrev numbers : Json ℕ
numbers = record { to_vec = λ n. inr (n ∷ []); from_slice = from_byte }

abbrev pieces : List Bytes
pieces = (0 ∷ 1 ∷ []) ∷ (7 ∷ 0 ∷ []) ∷ (1 ∷ 8 ∷ []) ∷ []

received_numbers :
    (receive_each numbers "Request deserialization failed: " 2
      (new_with_stream (reads_of pieces))).1
    ≡ ok 7 ∷ ok 8 ∷ []
unfolding receive_each receive_as new_with_stream receive vscfreedev.Protocol.Bytes.take
    vscfreedev.Protocol.Bytes.drop
received_numbers = refl
