-- ===== src/Remote/Server/Stops.antt =====
-- The end of forwarded connections when a forward is stopped (crates/remote/src/main.rs).
pub mod Again
use vscfreedev.Base.{
  ℕ, zero, suc, ◌+◌, ◌-◌, ◌*◌, ◌/◌, ◌%◌, ◌^◌, ◌≤◌, ◌<◌, min, max, String, ◌≡◌, refl, ap, ◌∙◌, ◌≢◌,
  ◌↔◌, ◌⊎◌, Bool, true, false, not, ◌&&◌, ◌||◌, Option, none, some, List, [], ◌∷◌, ◌++◌, map, arith,
  ltb, leb, if◌then◌else◌, Eq, ◌==◌, nat_beq, nat_beq_iff, nat_eq, string_eq, beq_refl,
  Option-cases, is_empty, retain, All, every, exists, contains, count, without, length-append,
  length-retain-le, count-append, count-without, length-without-le,
}
use vscfreedev.Base.Table.{insert, lookup-insert, lookup, Table, keys}
use vscfreedev.Errors.{YuhaError}
use vscfreedev.Protocol.Bytes.{Bytes, append_nil}
use vscfreedev.Protocol.Buffer.{
  ResponseItem, close_connection, add_close_connection, add_port_forward_data, port_forward_data,
}
use vscfreedev.Remote.Server.{
  RemoteServer, Event, requests, closes, to_close, closed_one, closed_next, close_next, act, step,
  waits, blocked, run, ProtocolResponse, ProtocolRequest, end_relay, handle_request, relay_ended,
  stop_port_forward,
}
use vscfreedev.Remote.Server.Valid.{IsValid}
use vscfreedev.Remote.Server.Queue.{produced, closing_item, produced_in, buffered}

abbrev pub is_close : Event → Bool
is_close closes = true
is_close _ = false

-- How many connections the events close.
abbrev pub closes_in : List Event → ℕ
closes_in [] = 0
closes_in (e ∷ es) = (if is_close e then 1 else 0) + closes_in es

-- The first items stand among the second in their order.
abbrev pub Among : List ResponseItem → List ResponseItem → Type 0
Among [] ys = Unit
Among (x ∷ xs) [] = true ≡ false
Among (x ∷ xs) (y ∷ ys) = ((x ≡ y) × Among xs ys) ⊎ Among (x ∷ xs) ys

-- What other tasks leave as it is while a forward is stopped.
abbrev Keeps : RemoteServer → RemoteServer → Type 0
Keeps s s' =
    (s'.closing ≡ s.closing)
    × (s'.active_connections ≡ s.active_connections)
    × (s'.listeners ≡ s.listeners)

module _ (scheme : String → Option String) (text : YuhaError → String) where
  -- One connection after which others are to be closed.
  step-closes :
      (s : RemoteServer) (id : ℕ) (ids : List ℕ)
      → s.closing ≡ some (id ∷ ids)
      → (step scheme text s closes ≡ to_close (closed_one s id) ids)
        × (produced s closes ≡ close_connection id ∷ [])
  unfolding step act close_next closed_next waits
  step-closes s id ids busy =
      let free : blocked s closes ≡ false = rw busy refl in
      (
        rw (step, free) refl ∙ ap (λ o. closed_next s o) busy,
        rw (produced, free) refl ∙ ap (λ o. closing_item o) busy,
      )

  -- What the last step of a stopped forward comes to, from a state with connections to close.
  abbrev Finishes : RemoteServer → List ℕ → List Event → Type 0
  Finishes s ids es =
      let (t, responses) = run scheme text s es in
      let (t', response) = step scheme text t closes in
      All (λ r. r ≡ none) responses
      × (response ≡ some ProtocolResponse.success)
      × (t'.closing ≡ none)
      × (t'.listeners ≡ s.listeners)
      × ((i : ℕ)
          → lookup i t'.active_connections
            ≡ (if contains i ids then none else lookup i s.active_connections))
      × Among (map close_connection ids) (produced_in scheme text s es ++ produced t closes)

  contains-keys : (m : Table ℕ (Unit {0})) (i : ℕ) → contains i (keys m) ≡ false → lookup i m ≡ none
  unfolding lookup
  contains-keys [] i h = refl
  contains-keys ((j, u) ∷ m) i h = ground (arith, contains-keys m i)

  -- The first step of the request.
  stops :
      (s : RemoteServer) (b : Option String) (port : ℕ)
      → s.closing ≡ none
      → step scheme text s (requests b (ProtocolRequest.stop_port_forward port))
        ≡ to_close s (keys s.active_connections)
  unfolding step act handle_request stop_port_forward
  stops s b port idle =
      let free : blocked s (requests b (ProtocolRequest.stop_port_forward port)) ≡ false =
        rw idle refl in
      rw (step, free) refl
