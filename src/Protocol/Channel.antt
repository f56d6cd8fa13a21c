-- ===== src/Protocol/Channel.antt =====
-- crates/core/src/message_channel.rs: messages over a byte stream, each behind its length in two
-- bytes, the high one first. What the stream delivers is the list of the outcomes of its reads,
-- after which it is at its end; what it accepts is given with each message.
mod Tests
pub mod Frames
pub mod Exchange
pub mod Typed
use vscfreedev.Base.{
  ℕ, zero, suc, ◌+◌, ◌-◌, ◌*◌, ◌/◌, ◌%◌, ◌^◌, ◌≤◌, ◌<◌, min, max, String, ◌≡◌, refl, sym, ap, subst,
  ◌∙◌, ◌≢◌, ◌↔◌, ◌⊎◌, inl, inr, Bool, true, false, not, ◌&&◌, ◌||◌, Option, none, some, List, [],
  ◌∷◌, ◌++◌, map, arith, ltb, leb, if◌then◌else◌, Eq, ◌==◌, nat_beq, nat_beq_iff, nat_eq, string_eq,
  beq_refl, Bool-cases, Option-cases, length, is_empty, retain, All, every, exists, contains, count,
  without, length-append, length-retain-le, count-append, count-without, length-without-le,
}
use vscfreedev.Errors.{Result, ok, err, YuhaError, ProtocolError}
use vscfreedev.Errors
use vscfreedev.Protocol.Bytes.{Bytes, take, drop}

pub record MessageChannel : Type 0 where
  pub read_buffer : Bytes
  -- What the reads of the stream are going to give.
  pub incoming : List (Result Bytes)
  -- What was written to the stream.
  pub outgoing : Bytes

unfoldable pub new_with_stream : List (Result Bytes) → MessageChannel
new_with_stream incoming = record { read_buffer = []; incoming = incoming; outgoing = [] }

-- The outcomes of the three calls of the stream that `send` makes, and how many bytes get
-- through where the writing of the length or of the payload fails.
pub record Writes : Type 0 where
  pub write_u16 : Result (Unit {0})
  pub header_cut : ℕ
  pub write_all : Result (Unit {0})
  pub payload_cut : ℕ
  pub flush : Result (Unit {0})

abbrev pub protocol_error : ProtocolError → YuhaError
protocol_error e = Errors.YuhaError.protocol e

-- `payload_len as u16`, the high byte first.
abbrev pub header : Bytes → Bytes
header payload = let n = length payload % 2 ^ 16 in (n / 256) ∷ (n % 256) ∷ []

put : MessageChannel → Bytes → MessageChannel
put c bytes = record c { outgoing = c.outgoing ++ bytes }

payload_sent :
    MessageChannel → Bytes → Writes → Result (Unit {0}) → MessageChannel × Result (Unit {0})
unfolding put
payload_sent c payload w (err e) = (put c (take w.payload_cut payload), err e)
payload_sent c payload w (ok _) = (put c payload, w.flush)

header_sent :
    MessageChannel → Bytes → Writes → Result (Unit {0}) → MessageChannel × Result (Unit {0})
unfolding payload_sent put
header_sent c payload w (err e) = (put c (take w.header_cut (header payload)), err e)
header_sent c payload w (ok _) = payload_sent (put c (header payload)) payload w w.write_all

unfoldable pub send : MessageChannel → Bytes → Writes → MessageChannel × Result (Unit {0})
unfolding header_sent
send c payload w =
    if ltb 65535 (length payload)
    then (c, err (protocol_error (ProtocolError.buffer_overflow (length payload))))
    else header_sent c payload w w.write_u16

-- The payload and what follows it, where all of the payload is there.
pub split_payload : ℕ → Bytes → Option (Bytes × Bytes)
split_payload payload_len rest =
    if leb payload_len (length rest)
    then some (take payload_len rest, drop payload_len rest)
    else none

-- A complete message at the front of the buffer, and what follows it.
pub split_frame : Bytes → Option (Bytes × Bytes)
unfolding split_payload
split_frame [] = none
split_frame (high ∷ []) = none
split_frame (high ∷ low ∷ rest) = split_payload (high * 256 + low) rest

abbrev pub Received : Type 0
Received = Bytes × List (Result Bytes) × Result Bytes

-- The message where it is complete, and otherwise what reading more gives.
received : Option (Bytes × Bytes) → List (Result Bytes) → Received → Received
received none reads more = more
received (some (payload, rest)) reads more = (rest, reads, ok payload)

-- What one read gives, and what the loop gives after it.
after_read : Bytes → List (Result Bytes) → Result Bytes → Received → Received
after_read buffer reads (err e) more = (buffer, reads, err e)
after_read buffer reads (ok []) more =
    (buffer, reads, err (protocol_error ProtocolError.channel_closed))
after_read buffer reads (ok (b ∷ bs)) more = more

chunk : Result Bytes → Bytes
chunk (ok bs) = bs
chunk (err e) = []

-- At the end of the stream a read gives no byte.
pub receive_loop : Bytes → List (Result Bytes) → Received
unfolding received after_read chunk split_frame
receive_loop buffer [] =
    received (split_frame buffer) [] (buffer, [], err (protocol_error ProtocolError.channel_closed))
receive_loop buffer (read ∷ reads) =
    let more = receive_loop (buffer ++ chunk read) reads in
    received (split_frame buffer) (read ∷ reads) (after_read buffer reads read more)

-- `receive` and `receive_binary`.
unfoldable pub receive : MessageChannel → MessageChannel × Result Bytes
unfolding receive_loop
receive c =
    let (buffer, reads, result) = receive_loop c.read_buffer c.incoming in
    (record c { read_buffer = buffer; incoming = reads }, result)
