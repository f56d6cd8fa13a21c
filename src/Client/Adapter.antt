-- ===== src/Client/Adapter.antt =====
-- crates/client/src/transport/ssh.rs: the stream over a channel of SSH. The receiver's queue and
-- the sender's half in `MyHandler` are one state; that the future of a send is ready, and how it
-- ends, is the SSH library's and an argument.
pub mod Stream
mod Tests
use Prim.Native.String.{◌++◌ as ◌<>◌}
use vscfreedev.Base.{
  ℕ, zero, suc, ◌+◌, ◌-◌, ◌*◌, ◌/◌, ◌%◌, ◌^◌, ◌≤◌, ◌<◌, min, max, String, ◌≡◌, refl, sym, ap, subst,
  ◌∙◌, ◌≢◌, ◌↔◌, ◌⊎◌, inl, inr, Bool, true, false, not, ◌&&◌, ◌||◌, Option, none, some, List, [],
  ◌∷◌, ◌++◌, map, arith, ltb, leb, if◌then◌else◌, Eq, ◌==◌, nat_beq, nat_beq_iff, nat_eq, string_eq,
  beq_refl, Bool-cases, Option-cases, length, is_empty, retain, All, every, exists, contains, count,
  without, length-append, length-retain-le, count-append, count-without, length-without-le,
}
use vscfreedev.Protocol.Bytes.{Bytes, take, drop}

pub data Poll {ℓ} (A : Type ℓ) : Type ℓ where
  ready : A → Poll A
  pending : Poll A

-- `sending` while `data_tx` holds the sender; `read_rx` is what waits in the channel.
pub record SshChannelAdapter : Type 0 where
  pub sending : Bool
  pub read_rx : List Bytes
  pub read_buf : Bytes

unfoldable pub new : SshChannelAdapter
new = record { sending = true; read_rx = []; read_buf = [] }

-- `MyHandler::data`, which the SSH library calls with what comes from the server.
unfoldable pub data_arrives : SshChannelAdapter → Bytes → SshChannelAdapter
data_arrives a bytes = if a.sending then record a { read_rx = a.read_rx ++ (bytes ∷ []) } else a

-- The channel with no message: closed once its sender is gone.
waited : Bool → Poll Bytes
waited true = Poll.pending
waited false = Poll.ready []

-- `poll_recv` and what is done with a message: what the caller's buffer has no room for is kept.
receive : SshChannelAdapter → ℕ → List Bytes → SshChannelAdapter × Poll Bytes
unfolding waited
receive a remaining [] = (a, waited a.sending)
receive a remaining (bytes ∷ rest) =
    let to_copy = min remaining (length bytes) in
    (
      record a {
        read_rx = rest;
        read_buf =
            (if ltb to_copy (length bytes) then a.read_buf ++ drop to_copy bytes else a.read_buf);
      },
      Poll.ready (take to_copy bytes),
    )

-- A read into a buffer with room for `remaining` bytes, with the bytes put there.
unfoldable pub poll_read : SshChannelAdapter → ℕ → SshChannelAdapter × Poll Bytes
unfolding receive
poll_read a remaining = elim (is_empty a.read_buf) [
  | true ↦ receive a remaining a.read_rx
  | false ↦
      let to_copy = min remaining (length a.read_buf) in
      (record a { read_buf = drop to_copy a.read_buf }, Poll.ready (take to_copy a.read_buf))
]

-- What became of the library's send: nothing yet, done, or an error with its text.
pub data Written : Type 0 where
  wrote : ℕ → Written
  broken_pipe : String → Written

pub poll_write : Bytes → Poll (Option String) → Poll Written
poll_write bytes (Poll.ready none) = Poll.ready (wrote (length bytes))
poll_write bytes (Poll.ready (some e)) = Poll.ready (broken_pipe ("SSH data send failed: " <> e))
poll_write bytes Poll.pending = Poll.pending
