-- ===== src/Protocol/Channel/Frames.antt =====
-- What a channel receives depends on the bytes alone and not on how the reads split them, and is
-- what was sent (crates/core/src/message_channel.rs).
use vscfreedev.Base.{
  ℕ, ◌+◌, ◌*◌, ◌/◌, ◌%◌, ◌^◌, ◌<◌, ◌≡◌, refl, ◌≢◌, inl, inr, Option, none, some, List, [], ◌∷◌,
  ◌++◌, map, arith, nat_eq, string_eq, Option-cases, length, All, length-append,
}
use vscfreedev.Errors.{Result, ok, err, YuhaError, ProtocolError}
use vscfreedev.Protocol.Bytes.{
  Bytes, take-append, drop-append, take-length, drop-length, append_assoc, append_nil, concat,
}
use vscfreedev.Protocol.Channel.{
  header, protocol_error, split_payload, split_frame, Received, received, after_read, chunk,
  receive_loop,
}

-- A read that gives bytes.
abbrev pub IsChunk : Bytes → Type 0
IsChunk bs = bs ≢ []

abbrev pub reads_of : List Bytes → List (Result Bytes)
reads_of = map ok

abbrev pub closed_error : YuhaError
closed_error = protocol_error ProtocolError.channel_closed

payload-append :
    (n : ℕ) (b x p r : Bytes)
    → split_payload n b ≡ some (p, r)
    → split_payload n (b ++ x) ≡ some (p, r ++ x)
unfolding split_payload
payload-append n b x p r h = ground (arith, length-append b x, take-append n b x, drop-append n b x)

payload-length : (p t : Bytes) → split_payload (length p) (p ++ t) ≡ some (p, t)
unfolding split_payload
payload-length p t = ground (arith, length-append p t, take-length p t, drop-length p t)

two_bytes : (n : ℕ) → n < 2 ^ 16 → ((n % 2 ^ 16) / 256) * 256 + (n % 2 ^ 16) % 256 ≡ n
two_bytes n h = omega arith

split-append :
    (b x p r : Bytes) → split_frame b ≡ some (p, r) → split_frame (b ++ x) ≡ some (p, r ++ x)
unfolding split_frame
split-append [] x p r h = cc
split-append (high ∷ []) x p r h = cc
split-append (high ∷ low ∷ rest) x p r h = payload-append (high * 256 + low) rest x p r h

abbrev pub frame : Bytes → Bytes
frame p = header p ++ p

pub split-frame : (p t : Bytes) → length p < 2 ^ 16 → split_frame (frame p ++ t) ≡ some (p, t)
unfolding split_frame
split-frame p t h = rw (two_bytes (length p) h) (payload-length p t)

-- What a stream gives whose bytes are all there: the first message and what follows it, or an
-- error where no message is complete.
abbrev pub Delivers : Option (Bytes × Bytes) → Received → Type 0
Delivers none (b, reads, result) = result ≡ err closed_error
Delivers (some (p, t)) (b, reads, result) =
    (result ≡ ok p)
    × (cs : List Bytes) × All IsChunk cs
    × (reads ≡ reads_of cs)
    × (b ++ concat cs ≡ t)

pub loop-Delivers :
    (b : Bytes) (cs : List Bytes)
    → All IsChunk cs
    → Delivers (split_frame (b ++ concat cs)) (receive_loop b (reads_of cs))
unfolding receive_loop received after_read chunk
loop-Delivers b [] h = elim (Option-cases (split_frame b)) [
  | inl none' ↦ rw (append_nil b, none') refl
  | inr ((p, r), e) ↦ rw (append_nil b, e) (refl, [], tt, refl, append_nil r)
]
loop-Delivers b ([] ∷ cs) h = absurd (h.0 refl)
loop-Delivers b ((x ∷ xs) ∷ cs) h = elim (Option-cases (split_frame b)) [
  | inl none' ↦
      rw none' (rw (← append_assoc b (x ∷ xs) (concat cs)) (loop-Delivers (b ++ (x ∷ xs)) cs h.1))
  | inr ((p, r), e) ↦
      rw (split-append b (x ∷ (xs ++ concat cs)) p r e, e) (refl, (x ∷ xs) ∷ cs, h, refl, refl)
]
