-- ===== src/Remote/Server/Ids.antt =====
-- The ids that the remote server hands out (crates/remote/src/main.rs).
use vscfreedev.Base.{
  ℕ, ◌+◌, ◌^◌, ◌≤◌, ◌<◌, String, ◌≡◌, refl, inl, inr, Option, none, some, List, [], ◌∷◌, arith,
  nat_eq, string_eq, Bool-cases, length,
}
use vscfreedev.Base.Table.{lookup, keys}
use vscfreedev.Errors.{Result, ok, err, YuhaError}
use vscfreedev.Protocol.Bytes.{Bytes}
use vscfreedev.Protocol.Buffer.{ResponseItem}
use vscfreedev.Protocol.Messages.{ProtocolRequest}
use vscfreedev.Desktop.{Clipboard}
use vscfreedev.Remote.Server.{
  closed_one, Forward, RemoteServer, Event, requests, poll_returns, closes, accepts, announces,
  connects, fails_connect, relays_to, ends, tells_end, relays_from, new, start_port_forward,
  to_close, closed_next, close_next, stop_port_forward, sent, forwarded, forward_data, take_all,
  clipboard_read, get_clipboard, set_clipboard, poll, handle_request, accept, announced, announce,
  target_connected, connect, target_unreached, fail_connect, target_read, relay_from_target,
  queue_read, relay_to_target, relay_ended, end_relay, told, tell_end, blocked, act, step, run,
}
use vscfreedev.Remote.Server.Valid.{IsValid, new-IsValid, step-IsValid}

abbrev next : RemoteServer → ℕ
next s = s.next_connection_id

announced-next :
    (s : RemoteServer) (id : ℕ) (o : Option Forward)
    → (next (announced s id o) ≡ next s)
      × (next (target_connected s id o) ≡ next s)
      × (next (target_unreached s id o) ≡ next s)
unfolding announced target_connected target_unreached
announced-next s id none = (refl, refl, refl)
announced-next s id (some f) = (refl, refl, refl)

relay-next :
    (s : RemoteServer) (id : ℕ) (bytes : Bytes) (o : Option (List Bytes))
    → (next (target_read s id bytes o) ≡ next s)
      × (next (relay_ended s id o) ≡ next s)
      × (next (queue_read s id o).0 ≡ next s)
      × (next (sent s id bytes o).0 ≡ next s)
unfolding target_read relay_ended queue_read sent
relay-next s id bytes none = (refl, refl, refl, refl)
relay-next s id bytes (some []) = (refl, refl, refl, refl)
relay-next s id bytes (some (b ∷ queue)) = (refl, refl, refl, refl)

to_close-next : (s : RemoteServer) (ids : List ℕ) → next (to_close s ids).0 ≡ next s
unfolding to_close
to_close-next s [] = refl
to_close-next s (id ∷ ids) = refl

closed_next-next : (s : RemoteServer) (o : Option (List ℕ)) → next (closed_next s o).0 ≡ next s
unfolding closed_next
closed_next-next s none = refl
closed_next-next s (some []) = refl
closed_next-next s (some (id ∷ ids)) = to_close-next (closed_one s id) ids

told-next : (s : RemoteServer) (id : ℕ) (o : Option (Unit {0})) → next (told s id o) ≡ next s
unfolding told
told-next s id none = refl
told-next s id (some _) = refl

forwarded-next :
    (s : RemoteServer) (id : ℕ) (bytes : Bytes) (o : Option (Unit {0}))
    → next (forwarded s id bytes o).0 ≡ next s
unfolding forwarded
forwarded-next s id bytes none = refl
forwarded-next s id bytes (some _) = (relay-next s id bytes (lookup id s.relays)).3

start-next :
    (s : RemoteServer) (b : Option String) (local_port : ℕ) (host : String) (port : ℕ)
    → next (start_port_forward s b local_port host port).0 ≡ next s
unfolding start_port_forward
start-next s none local_port host port = refl
start-next s (some e) local_port host port = refl

module _ (scheme : String → Option String) (text : YuhaError → String) where
  clipboard_read-next :
      (s : RemoteServer) (r : Result String) → next (clipboard_read scheme text s r).0 ≡ next s
  unfolding clipboard_read take_all
  clipboard_read-next s (ok content) = refl
  clipboard_read-next s (err e) = refl

  poll-next : (s : RemoteServer) (is : List ResponseItem) → next (poll scheme text s is).0 ≡ next s
  unfolding poll take_all
  poll-next s [] = refl
  poll-next s (item ∷ rest) = refl

  request-next :
      (s : RemoteServer) (b : Option String) (q : ProtocolRequest)
      → next (handle_request scheme text s b q).0 ≡ next s
  unfolding handle_request stop_port_forward forward_data set_clipboard get_clipboard
  request-next s b ProtocolRequest.poll_data = poll-next s s.response_buffer.items
  request-next s b (ProtocolRequest.start_port_forward local_port host port) =
      start-next s b local_port host port
  request-next s b (ProtocolRequest.stop_port_forward port) =
      to_close-next s (keys s.active_connections)
  request-next s b (ProtocolRequest.port_forward_data id bytes) =
      forwarded-next s id bytes (lookup id s.active_connections)
  request-next s b ProtocolRequest.get_clipboard = clipboard_read-next s _
  request-next s b (ProtocolRequest.set_clipboard content) = refl
  request-next s b (ProtocolRequest.open_browser url) = refl

  act-next :
      (s : RemoteServer) (e : Event)
      → next s + 1 < 2 ^ 32
      → next (act scheme text s e).0 ≤ next s + 1
  unfolding act take_all announce connect fail_connect relay_to_target end_relay relay_from_target
      accept tell_end close_next
  act-next s (requests b q) h = omega (arith, request-next s b q)
  act-next s poll_returns h = omega arith
  act-next s (accepts f) h = ground arith
  act-next s (announces id) h = omega (arith, (announced-next s id (lookup id s.announcing)).0)
  act-next s (connects id) h = omega (arith, (announced-next s id (lookup id s.connecting)).1)
  act-next s (fails_connect id) h = omega (arith, (announced-next s id (lookup id s.connecting)).2)
  act-next s (relays_to id) h = omega (arith, (relay-next s id [] (lookup id s.relays)).2)
  act-next s (ends id) h = omega (arith, (relay-next s id [] (lookup id s.relays)).1)
  act-next s (relays_from id bytes) h =
      omega (arith, (relay-next s id bytes (lookup id s.relays)).0)
  act-next s closes h = omega (arith, closed_next-next s s.closing)
  act-next s (tells_end id) h = omega (arith, told-next s id (lookup id s.leaving))

  -- An event hands out one id at most.
  step-next :
      (s : RemoteServer) (e : Event)
      → next s + 1 < 2 ^ 32
      → next (step scheme text s e).0 ≤ next s + 1
  unfolding step
  step-next s e h = elim (Bool-cases (blocked s e)) [
    | inl held ↦ rw (step, held) (omega arith)
    | inr free ↦ rw (step, free) (act-next s e h)
  ]

  run-IsValid :
      (es : List Event) (s : RemoteServer)
      → IsValid s
      → next s + length es < 2 ^ 32
      → IsValid (run scheme text s es).0
  unfolding run
  run-IsValid [] s v h = v
  run-IsValid (e ∷ es) s v h =
      run-IsValid es (step scheme text s e).0 (step-IsValid scheme text s e v (omega (arith, h)))
        (omega (arith, h, step-next s e (omega (arith, h))))

  -- After fewer than 2^32 - 1 events from the start of the server: no two tasks serve the same
  -- connection, no task serves an id that is still to be handed out, and each connection that the
  -- server may send to has a running relay.
  pub run-new-IsValid :
      (c : Clipboard) (es : List Event)
      → 1 + length es < 2 ^ 32
      → IsValid (run scheme text (new c) es).0
  unfolding new
  run-new-IsValid c es h = run-IsValid es (new c) (new-IsValid c) h
