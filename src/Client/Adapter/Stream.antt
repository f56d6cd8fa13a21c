-- ===== src/Client/Adapter/Stream.antt =====
-- The bytes of an SSH channel, in their order (crates/client/src/transport/ssh.rs).
use vscfreedev.Base.{
  ℕ, min, ◌≡◌, refl, sym, ap, ◌∙◌, inl, inr, true, List, [], ◌∷◌, ◌++◌, arith, ltb, if◌then◌else◌,
  nat_eq, string_eq, Bool-cases, length, is_empty,
}
use vscfreedev.Protocol.Bytes.{
  Bytes, take, drop, concat, append_assoc, append_nil, take-drop, drop-all,
}
use vscfreedev.Client.Adapter.{SshChannelAdapter, Poll, data_arrives, poll_read, receive, waited}

-- What happens to a channel: bytes arrive from the server, or a task reads.
pub data Event : Type 0 where
  arrives : Bytes → Event
  reads : ℕ → Event

-- What was received and not read.
abbrev pub held : SshChannelAdapter → Bytes
held a = a.read_buf ++ concat a.read_rx

abbrev pub given : Poll Bytes → Bytes
given (Poll.ready bytes) = bytes
given Poll.pending = []

abbrev pub run : SshChannelAdapter → List Event → SshChannelAdapter × Bytes
run a [] = (a, [])
run a (arrives bytes ∷ es) = run (data_arrives a bytes) es
run a (reads n ∷ es) =
    let (a', p) = poll_read a n in let (a'', rest) = run a' es in (a'', given p ++ rest)

abbrev pub arrived : List Event → Bytes
arrived [] = []
arrived (arrives bytes ∷ es) = bytes ++ arrived es
arrived (reads n ∷ es) = arrived es

is_empty-eq : (bs : Bytes) → is_empty bs ≡ true → bs ≡ []
is_empty-eq [] h = refl
is_empty-eq (b ∷ bs) h = cc

concat-append : (xs : List Bytes) (b : Bytes) → concat (xs ++ (b ∷ [])) ≡ concat xs ++ b
concat-append [] b = append_nil b
concat-append (x ∷ xs) b =
    ap (λ t. x ++ t) (concat-append xs b) ∙ sym (append_assoc x (concat xs) b)

-- What a read has no room for is kept, also when that is nothing.
kept :
    (buf : Bytes) (k : ℕ) (bs : Bytes)
    → buf ≡ []
    → (if ltb k (length bs) then buf ++ drop k bs else buf) ≡ drop k bs
kept buf k bs e = elim (Bool-cases (ltb k (length bs))) [
  | inl yes' ↦ rw (yes', e) refl
  | inr no' ↦ rw no' (e ∙ sym (drop-all k bs (ground arith)))
]

receive-held :
    (a : SshChannelAdapter) (n : ℕ) (q : List Bytes)
    → a.read_buf ≡ []
    → a.read_rx ≡ q
    → (given (receive a n q).1 ++ held (receive a n q).0 ≡ concat q)
      × ((receive a n q).0.sending ≡ a.sending)
unfolding receive waited
receive-held a n [] e h = (
  elim (Bool-cases a.sending) [ inl yes' ↦ rw (yes', e, h) refl | inr no' ↦ rw (no', e, h) refl ],
  refl,
)
receive-held a n (bytes ∷ rest) e h =
    let k = min n (length bytes) in
    (
      ap (λ t. take k bytes ++ (t ++ concat rest)) (kept a.read_buf k bytes e)
          ∙ sym (append_assoc (take k bytes) (drop k bytes) (concat rest))
          ∙ ap (λ t. t ++ concat rest) (take-drop k bytes),
      refl,
    )

-- A read gives the first of the bytes that are held, and keeps the rest.
pub poll_read-held :
    (a : SshChannelAdapter) (n : ℕ)
    → (given (poll_read a n).1 ++ held (poll_read a n).0 ≡ held a)
      × ((poll_read a n).0.sending ≡ a.sending)
unfolding poll_read
poll_read-held a n = elim (Bool-cases (is_empty a.read_buf)) [
  | inl yes' ↦
      let e = is_empty-eq a.read_buf yes' in
      let (eq, same) = receive-held a n a.read_rx e refl in
      rw (poll_read, yes') (eq ∙ sym (ap (λ t. t ++ concat a.read_rx) e), same)
  | inr no' ↦
      let k = min n (length a.read_buf) in
      rw (poll_read, no')
        (
          sym (append_assoc (take k a.read_buf) (drop k a.read_buf) (concat a.read_rx))
              ∙ ap (λ t. t ++ concat a.read_rx) (take-drop k a.read_buf),
          refl,
        )
]

arrives-held :
    (a : SshChannelAdapter) (bytes : Bytes)
    → a.sending ≡ true
    → (held (data_arrives a bytes) ≡ held a ++ bytes) × ((data_arrives a bytes).sending ≡ true)
unfolding data_arrives
arrives-held a bytes open' = rw open' (
  ap (λ t. a.read_buf ++ t) (concat-append a.read_rx bytes)
      ∙ sym (append_assoc a.read_buf (concat a.read_rx) bytes),
  refl,
)

-- The adapter is a queue of bytes: while the channel is open, whatever the sizes of the messages
-- and of the reads, what the reads give, in their order, followed by what is still held, is what was
-- held followed by what has arrived.
pub run-queues_bytes :
    (es : List Event) (a : SshChannelAdapter)
    → a.sending ≡ true
    → (run a es).1 ++ held (run a es).0 ≡ held a ++ arrived es
run-queues_bytes [] a open' = sym (append_nil (held a))
run-queues_bytes (arrives bytes ∷ es) a open' =
    let (eq, open'') = arrives-held a bytes open' in
    run-queues_bytes es (data_arrives a bytes) open''
    ∙ ap (λ t. t ++ arrived es) eq
    ∙ append_assoc (held a) bytes (arrived es)
run-queues_bytes (reads n ∷ es) a open' =
    let (eq, same) = poll_read-held a n in
    let (a', p) = poll_read a n in
    append_assoc (given p) (run a' es).1 (held (run a' es).0)
    ∙ ap (λ t. given p ++ t) (run-queues_bytes es a' (same ∙ open'))
    ∙ sym (append_assoc (given p) (held a') (arrived es))
    ∙ ap (λ t. t ++ arrived es) eq
