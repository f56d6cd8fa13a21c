-- ===== src/Protocol/Channel/Exchange.antt =====
-- Messages that are sent over one channel and received from another
-- (crates/core/src/message_channel.rs).
use vscfreedev.Base.{
  ℕ, zero, suc, ◌^◌, ◌<◌, ◌≡◌, refl, sym, ap, subst, ◌∙◌, ◌⊎◌, inl, inr, List, [], ◌∷◌, ◌++◌, map,
  arith, ltb, nat_eq, string_eq, Bool-cases, length, All,
}
use vscfreedev.Errors.{Result, ok, err, ProtocolError}
use vscfreedev.Protocol.Bytes.{Bytes, append_assoc, append_nil, concat}
use vscfreedev.Protocol.Channel.{
  MessageChannel, new_with_stream, Writes, header, protocol_error, put, payload_sent, header_sent,
  send, split_frame, Received, receive,
}
use vscfreedev.Protocol.Channel.Frames.{
  IsChunk, reads_of, closed_error, frame, split-frame, Delivers, loop-Delivers,
}

-- A stream that takes all that is written.
abbrev pub accepting : Writes
accepting = record {
  write_u16 = ok tt;
  header_cut = 0;
  write_all = ok tt;
  payload_cut = 0;
  flush = ok tt;
}

abbrev pub seen : MessageChannel × Result Bytes → Received
seen (c, result) = (c.read_buffer, c.incoming, result)

-- If the reads of a stream give non-empty pieces and then its end, a reception gives the first
-- message of the bytes that are there, buffered or not, and leaves what follows it, however the
-- reads split the bytes; it gives the error of a closed channel where no message is complete.
pub receive-Delivers :
    (c : MessageChannel) (cs : List Bytes)
    → All IsChunk cs
    → c.incoming ≡ reads_of cs
    → Delivers (split_frame (c.read_buffer ++ concat cs)) (seen (receive c))
unfolding receive
receive-Delivers c cs h same = rw same (loop-Delivers c.read_buffer cs h)

-- On a stream that takes all that is written, a message of more than 65535 bytes is refused and
-- nothing is written, and any other is written behind its length.
pub send-frame :
    (c : MessageChannel) (p : Bytes)
    → ((65535 < length p)
        × (send c p accepting
            ≡ (c, err (protocol_error (ProtocolError.buffer_overflow (length p))))))
      ⊎ ((length p < 2 ^ 16)
          × ((send c p accepting).1 ≡ ok tt)
          × ((send c p accepting).0.outgoing ≡ c.outgoing ++ frame p))
unfolding send header_sent payload_sent put
send-frame c p = elim (Bool-cases (ltb 65535 (length p))) [
  | inl long ↦ rw long (inl (ground (arith, long), refl))
  | inr short ↦ rw short (inr (ground (arith, short), refl, append_assoc c.outgoing (header p) p))
]

send-short :
    (c : MessageChannel) (p : Bytes)
    → length p < 2 ^ 16
    → (send c p accepting).0.outgoing ≡ c.outgoing ++ frame p
send-short c p h = elim (send-frame c p) [
  | inl (long, _) ↦ absurd (omega (arith, long, h))
  | inr (_, _, written) ↦ written
]

unfoldable pub send_all : MessageChannel → List Bytes → MessageChannel
send_all c [] = c
send_all c (p ∷ ps) = send_all (send c p accepting).0 ps

unfoldable pub receive_many : ℕ → MessageChannel → MessageChannel × List (Result Bytes)
receive_many zero c = (c, [])
receive_many (suc n) c =
    let (c', result) = receive c in
    let (last, results) = receive_many n c' in (last, result ∷ results)

frames : List Bytes → Bytes
frames ps = concat (map frame ps)

abbrev pub IsShort : Bytes → Type 0
IsShort p = length p < 2 ^ 16

send_all-frames :
    (c : MessageChannel) (ps : List Bytes)
    → All IsShort ps
    → (send_all c ps).outgoing ≡ c.outgoing ++ frames ps
unfolding send_all frames
send_all-frames c [] h = sym (append_nil c.outgoing)
send_all-frames c (p ∷ ps) h =
    send_all-frames (send c p accepting).0 ps h.1
    ∙ rw (send-short c p h.0) (append_assoc c.outgoing (frame p) (frames ps))

-- What holds between the receiver and the messages that are still to come.
Holds : MessageChannel → List Bytes → Type 0
Holds c ps =
    (cs : List Bytes) × All IsChunk cs
    × (c.incoming ≡ reads_of cs)
    × (c.read_buffer ++ concat cs ≡ frames ps)

receive-Holds :
    (c : MessageChannel) (p : Bytes) (ps : List Bytes)
    → IsShort p
    → Holds c (p ∷ ps)
    → ((receive c).1 ≡ ok p) × Holds (receive c).0 ps
unfolding Holds frames
receive-Holds c p ps short (cs, pieces, same, bytes) =
    let (first, cs', pieces', same', bytes') =
      subst (λ o. Delivers o (seen (receive c)))
        (ap split_frame bytes ∙ split-frame p (frames ps) short)
        (receive-Delivers c cs pieces same) in
    (first, (cs', pieces', same', bytes'))

receive-closed : (c : MessageChannel) → Holds c [] → (receive c).1 ≡ err closed_error
unfolding Holds frames split_frame
receive-closed c (cs, pieces, same, bytes) =
    subst (λ o. Delivers o (seen (receive c))) (ap split_frame bytes)
      (receive-Delivers c cs pieces same)

receive_many-Holds :
    (c : MessageChannel) (ps : List Bytes)
    → All IsShort ps
    → Holds c ps
    → ((receive_many (length ps) c).1 ≡ map ok ps)
      × ((receive (receive_many (length ps) c).0).1 ≡ err closed_error)
unfolding receive_many
receive_many-Holds c [] h held = (refl, receive-closed c held)
receive_many-Holds c (p ∷ ps) h held =
    let (first, held') = receive-Holds c p ps h.0 held in
    let (rest, closed) = receive_many-Holds (receive c).0 ps h.1 held' in
    (rw (first, rest) refl, closed)

-- What is written by sending messages of at most 65535 bytes to a stream that takes all, if it
-- is read in any non-empty pieces up to the end of the stream, is received as the same messages
-- in the same order; then the channel is closed.
pub receive_many-send_all :
    (ps cs : List Bytes)
    → All IsShort ps
    → All IsChunk cs
    → concat cs ≡ (send_all (new_with_stream []) ps).outgoing
    → ((receive_many (length ps) (new_with_stream (reads_of cs))).1 ≡ map ok ps)
      × ((receive (receive_many (length ps) (new_with_stream (reads_of cs))).0).1
          ≡ err closed_error)
unfolding new_with_stream Holds
receive_many-send_all ps cs short pieces bytes =
    receive_many-Holds _ ps short
      (cs, pieces, refl, bytes ∙ send_all-frames (new_with_stream []) ps short)
