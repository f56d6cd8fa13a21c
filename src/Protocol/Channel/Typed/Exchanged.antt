-- ===== src/Protocol/Channel/Typed/Exchanged.antt =====
-- Requests and responses over a channel that takes all that is written
-- (crates/core/src/message_channel.rs).
use vscfreedev.Base.{
  ℕ, zero, suc, String, ◌≡◌, refl, ap, ◌∙◌, inr, List, [], ◌∷◌, map, nat_eq, string_eq, length, All,
}
use vscfreedev.Errors.{Result, ok}
use vscfreedev.Protocol.Bytes.{Bytes, concat}
use vscfreedev.Protocol.Channel.{MessageChannel, new_with_stream, receive}
use vscfreedev.Protocol.Channel.Frames.{IsChunk, reads_of}
use vscfreedev.Protocol.Channel.Exchange.{
  accepting, send_all, receive_many, IsShort, receive_many-send_all,
}
use vscfreedev.Protocol.Channel.Typed.{Json, read_as, unpacked, receive_as, send_as, packed}

module _ {A : Type 0} (json : Json A) where
  unfoldable pub send_each : String → MessageChannel → List A → MessageChannel
  send_each what c [] = c
  send_each what c (a ∷ rest) = send_each what (send_as json what c a accepting).0 rest

  unfoldable pub receive_each : String → ℕ → MessageChannel → MessageChannel × List (Result A)
  receive_each what zero c = (c, [])
  receive_each what (suc n) c =
      let (c', r) = receive_as json what c in
      let (last, rest) = receive_each what n c' in (last, r ∷ rest)

module _ {A : Type 0} (json : Json A) (bytes : A → Bytes)
    (printed : (a : A) → json.to_vec a ≡ inr (bytes a))
    (parsed : (a : A) → json.from_slice (bytes a) ≡ inr a) where
  send_each-send_all :
      (what : String) (items : List A) (c : MessageChannel)
      → send_each json what c items ≡ send_all c (map bytes items)
  unfolding send_each send_all send_as
  send_each-send_all what [] c = refl
  send_each-send_all what (a ∷ rest) c =
      ap (λ p. send_each json what (packed c accepting what p).0 rest) (printed a)
      ∙ send_each-send_all what rest _

  receive_each-receive_many :
      (what : String) (n : ℕ) (c : MessageChannel)
      → receive_each json what n c
        ≡ ((receive_many n c).0, map (read_as json what) (receive_many n c).1)
  unfolding receive_each receive_many receive_as
  receive_each-receive_many what zero c = refl
  receive_each-receive_many what (suc n) c =
      rw (receive_each-receive_many what n (receive c).0) refl

  read_back :
      (what : String) (items : List A)
      → map (read_as json what) (map ok (map bytes items)) ≡ map ok items
  unfolding read_as unpacked
  read_back what [] = refl
  read_back what (a ∷ rest) = rw (parsed a, read_back what rest) refl

  -- If the text of each message is at most 65535 bytes and is read back as the message, the messages
  -- that are sent to a stream that takes all are received as they were and in their order, however
  -- the reads of the stream cut its bytes.
  pub receive_each-send_each :
      (sent what : String) (items : List A) (cs : List Bytes)
      → All IsShort (map bytes items)
      → All IsChunk cs
      → concat cs ≡ (send_each json sent (new_with_stream []) items).outgoing
      → (receive_each json what (length (map bytes items)) (new_with_stream (reads_of cs))).1
        ≡ map ok items
  receive_each-send_each sent what items cs short pieces same =
      ap (λ p. p.1) (receive_each-receive_many what (length (map bytes items)) _)
      ∙ ap (map (read_as json what))
          (receive_many-send_all (map bytes items) cs short pieces
            (same ∙ ap (λ c. c.outgoing) (send_each-send_all sent items (new_with_stream [])))).0
      ∙ read_back what items
