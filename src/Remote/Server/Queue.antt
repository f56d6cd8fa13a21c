-- ===== src/Remote/Server/Queue.antt =====
-- The response buffer of the remote server as a queue (crates/remote/src/main.rs).
use vscfreedev.Base.{
  ℕ, String, ◌≡◌, refl, sym, ap, ◌∙◌, inl, inr, true, false, Option, none, some, List, [], ◌∷◌,
  ◌++◌, nat_eq, string_eq, Bool-cases, Option-cases,
}
use vscfreedev.Base.Table.{lookup, keys}
use vscfreedev.Errors.{Result, ok, err, YuhaError}
use vscfreedev.Protocol.Bytes.{Bytes, append_assoc, append_nil}
use vscfreedev.Protocol.Buffer.{
  ResponseItem, port_forward_data, new_connection, close_connection, clipboard_content,
  add_new_connection, add_close_connection, add_port_forward_data, add_clipboard_content,
  take_responses,
}
use vscfreedev.Protocol.Messages.{ProtocolRequest, ProtocolResponse}
use vscfreedev.Desktop
use vscfreedev.Remote.Server.{
  closed_one, Forward, RemoteServer, Event, requests, poll_returns, closes, accepts, announces,
  connects, fails_connect, relays_to, ends, tells_end, relays_from, new, start_port_forward,
  to_close, closed_next, close_next, stop_port_forward, sent, forwarded, forward_data, take_all,
  clipboard_read, get_clipboard, set_clipboard, answered, poll, handle_request, accept, announced,
  announce, target_connected, connect, target_unreached, fail_connect, target_read,
  relay_from_target, queue_read, relay_to_target, relay_ended, end_relay, told, tell_end, blocked,
  act, step, run, open_browser, done_or,
}

abbrev pub buffered : RemoteServer → List ResponseItem
buffered s = s.response_buffer.items

-- The items about a connection that is there.
abbrev pub if_present {ℓ} : {A : Type ℓ} → (A → ResponseItem) → Option A → List ResponseItem
if_present item none = []
if_present item (some a) = item a ∷ []

-- The item about the connection that is closed next.
abbrev pub closing_item : Option (List ℕ) → List ResponseItem
closing_item (some (id ∷ ids)) = close_connection id ∷ []
closing_item _ = []

-- The items that an event puts into the queue where it happens.
abbrev pub produced_by : RemoteServer → Event → List ResponseItem
produced_by s (requests b ProtocolRequest.get_clipboard) = elim s.clipboard.poison [
  | none ↦ clipboard_content s.clipboard.content ∷ []
  | some e ↦ []
]
produced_by s closes = closing_item s.closing
produced_by s (announces id) =
    if_present (λ f. new_connection id f.local_port) (lookup id s.announcing)
produced_by s (fails_connect id) = if_present (λ f. close_connection id) (lookup id s.connecting)
produced_by s (tells_end id) = if_present (λ _. close_connection id) (lookup id s.leaving)
produced_by s (relays_from id bytes) =
    if_present (λ queue. port_forward_data id bytes) (lookup id s.relays)
produced_by s e = []

abbrev pub produced : RemoteServer → Event → List ResponseItem
produced s e = elim (blocked s e) [ true ↦ [] | false ↦ produced_by s e ]

-- The items that a response carries to the client.
abbrev pub delivered : Option ProtocolResponse → List ResponseItem
delivered (some (ProtocolResponse.items taken)) = taken
delivered _ = []

abbrev pub delivered_in : List (Option ProtocolResponse) → List ResponseItem
delivered_in [] = []
delivered_in (r ∷ rs) = delivered r ++ delivered_in rs

-- The event keeps the queue's order and loses nothing.
abbrev Queues : RemoteServer → List ResponseItem → RemoteServer × Option ProtocolResponse → Type 0
Queues s new (s', response) = delivered response ++ buffered s' ≡ buffered s ++ new

to_close-Queues :
    (s s' : RemoteServer) (new : List ResponseItem) (ids : List ℕ)
    → buffered s' ≡ buffered s ++ new
    → Queues s new (to_close s' ids)
unfolding to_close
to_close-Queues s s' new [] e = e
to_close-Queues s s' new (id ∷ ids) e = e

closed_next-Queues :
    (s : RemoteServer) (o : Option (List ℕ)) → Queues s (closing_item o) (closed_next s o)
unfolding closed_next add_close_connection
closed_next-Queues s none = sym (append_nil (buffered s))
closed_next-Queues s (some []) = sym (append_nil (buffered s))
closed_next-Queues s (some (id ∷ ids)) =
    to_close-Queues s (closed_one s id) (close_connection id ∷ []) ids refl

told-Queues :
    (s : RemoteServer) (id : ℕ) (o : Option (Unit {0}))
    → Queues s (if_present (λ _. close_connection id) o) (told s id o, none)
unfolding told add_close_connection
told-Queues s id none = sym (append_nil (buffered s))
told-Queues s id (some _) = refl

start-Queues :
    (s : RemoteServer) (b : Option String) (local_port : ℕ) (host : String) (port : ℕ)
    → Queues s [] (answered (start_port_forward s b local_port host port))
unfolding start_port_forward
start-Queues s none local_port host port = sym (append_nil (buffered s))
start-Queues s (some e) local_port host port = sym (append_nil (buffered s))

sent-Queues :
    (s : RemoteServer) (id : ℕ) (bytes : Bytes) (o : Option (List Bytes))
    → Queues s [] (answered (sent s id bytes o))
unfolding sent
sent-Queues s id bytes none = sym (append_nil (buffered s))
sent-Queues s id bytes (some queue) = sym (append_nil (buffered s))

forwarded-Queues :
    (s : RemoteServer) (id : ℕ) (bytes : Bytes) (o : Option (Unit {0}))
    → Queues s [] (answered (forwarded s id bytes o))
unfolding forwarded
forwarded-Queues s id bytes none = sym (append_nil (buffered s))
forwarded-Queues s id bytes (some _) = sent-Queues s id bytes (lookup id s.relays)

announced-Queues :
    (s : RemoteServer) (id : ℕ) (o : Option Forward)
    → Queues s (if_present (λ f. new_connection id f.local_port) o) (announced s id o, none)
unfolding announced add_new_connection
announced-Queues s id none = sym (append_nil (buffered s))
announced-Queues s id (some f) = refl

connected-Queues :
    (s : RemoteServer) (id : ℕ) (o : Option Forward) → Queues s [] (target_connected s id o, none)
unfolding target_connected
connected-Queues s id none = sym (append_nil (buffered s))
connected-Queues s id (some f) = sym (append_nil (buffered s))

unreached-Queues :
    (s : RemoteServer) (id : ℕ) (o : Option Forward)
    → Queues s (if_present (λ f. close_connection id) o) (target_unreached s id o, none)
unfolding target_unreached add_close_connection
unreached-Queues s id none = sym (append_nil (buffered s))
unreached-Queues s id (some f) = refl

read-Queues :
    (s : RemoteServer) (id : ℕ) (bytes : Bytes) (o : Option (List Bytes))
    → Queues s (if_present (λ queue. port_forward_data id bytes) o) (target_read s id bytes o, none)
unfolding target_read add_port_forward_data
read-Queues s id bytes none = sym (append_nil (buffered s))
read-Queues s id bytes (some queue) = refl

queue_read-Queues :
    (s : RemoteServer) (id : ℕ) (o : Option (List Bytes))
    → Queues s [] ((queue_read s id o).0, none)
unfolding queue_read
queue_read-Queues s id none = sym (append_nil (buffered s))
queue_read-Queues s id (some []) = sym (append_nil (buffered s))
queue_read-Queues s id (some (bytes ∷ queue)) = sym (append_nil (buffered s))

ended-Queues :
    (s : RemoteServer) (id : ℕ) (o : Option (List Bytes)) → Queues s [] (relay_ended s id o, none)
unfolding relay_ended
ended-Queues s id none = sym (append_nil (buffered s))
ended-Queues s id (some queue) = sym (append_nil (buffered s))

module _ (scheme : String → Option String) (text : YuhaError → String) where
  poll-Queues : (s : RemoteServer) (is : List ResponseItem) → Queues s [] (poll scheme text s is)
  unfolding poll take_all take_responses
  poll-Queues s [] = sym (append_nil (buffered s))
  poll-Queues s (item ∷ rest) = refl

  get_clipboard-Queues :
      (s : RemoteServer) (b : Option String)
      → Queues s
          (produced_by s (requests b ProtocolRequest.get_clipboard))
          (answered (get_clipboard scheme text s))
  unfolding get_clipboard clipboard_read take_all take_responses add_clipboard_content
      Desktop.get_clipboard
  get_clipboard-Queues s b = elim (Option-cases s.clipboard.poison) [
    | inl sane ↦ rw sane (append_nil (buffered s ++ (clipboard_content s.clipboard.content ∷ [])))
    | inr (e, poisoned) ↦ rw poisoned (sym (append_nil (buffered s)))
  ]

  done_or-Queues :
      (s : RemoteServer) (failed : String) (result : Result (Unit {0}))
      → Queues s [] (s, some (done_or scheme text failed result))
  unfolding done_or
  done_or-Queues s failed (ok _) = sym (append_nil (buffered s))
  done_or-Queues s failed (err e) = sym (append_nil (buffered s))

  request-Queues :
      (s : RemoteServer) (b : Option String) (q : ProtocolRequest)
      → Queues s (produced_by s (requests b q)) (handle_request scheme text s b q)
  unfolding handle_request stop_port_forward forward_data set_clipboard open_browser
  request-Queues s b ProtocolRequest.poll_data = poll-Queues s (buffered s)
  request-Queues s b (ProtocolRequest.start_port_forward local_port host port) =
      start-Queues s b local_port host port
  request-Queues s b (ProtocolRequest.stop_port_forward port) =
      to_close-Queues s s [] (keys s.active_connections) (sym (append_nil (buffered s)))
  request-Queues s b (ProtocolRequest.port_forward_data id bytes) =
      forwarded-Queues s id bytes (lookup id s.active_connections)
  request-Queues s b ProtocolRequest.get_clipboard = get_clipboard-Queues s b
  request-Queues s b (ProtocolRequest.set_clipboard content) =
      done_or-Queues s _ (Desktop.set_clipboard s.clipboard content).1
  request-Queues s b (ProtocolRequest.open_browser url) =
      done_or-Queues s _ (Desktop.open_url scheme url)

  act-Queues : (s : RemoteServer) (e : Event) → Queues s (produced_by s e) (act scheme text s e)
  unfolding act take_all take_responses accept announce connect fail_connect relay_to_target
      end_relay relay_from_target tell_end close_next
  act-Queues s (requests b q) = request-Queues s b q
  act-Queues s poll_returns = refl
  act-Queues s (accepts f) = sym (append_nil (buffered s))
  act-Queues s (announces id) = announced-Queues s id (lookup id s.announcing)
  act-Queues s (connects id) = connected-Queues s id (lookup id s.connecting)
  act-Queues s (fails_connect id) = unreached-Queues s id (lookup id s.connecting)
  act-Queues s (relays_to id) = queue_read-Queues s id (lookup id s.relays)
  act-Queues s (ends id) = ended-Queues s id (lookup id s.relays)
  act-Queues s closes = closed_next-Queues s s.closing
  act-Queues s (tells_end id) = told-Queues s id (lookup id s.leaving)
  act-Queues s (relays_from id bytes) = read-Queues s id bytes (lookup id s.relays)

  step-Queues : (s : RemoteServer) (e : Event) → Queues s (produced s e) (step scheme text s e)
  unfolding step
  step-Queues s e = elim (Bool-cases (blocked s e)) [
    | inl held ↦ rw (step, produced, held) (sym (append_nil (buffered s)))
    | inr free ↦ rw (step, produced, free) (act-Queues s e)
  ]

  -- The items that a sequence of events puts into the queue.
  abbrev pub produced_in : RemoteServer → List Event → List ResponseItem
  produced_in s [] = []
  produced_in s (e ∷ es) = produced s e ++ produced_in (step scheme text s e).0 es

  -- The response buffer is a queue: after any events, what the responses have carried to the
  -- client, in their order, followed by what is still buffered, is what was buffered at first
  -- followed by what the events produced. So no item is lost, repeated or overtaken.
  pub run-queues :
      (s : RemoteServer) (es : List Event)
      → delivered_in (run scheme text s es).1 ++ buffered (run scheme text s es).0
        ≡ buffered s ++ produced_in s es
  unfolding run
  run-queues s [] = sym (append_nil (buffered s))
  run-queues s (e ∷ es) =
      let (s', response) = step scheme text s e in
      append_assoc (delivered response) (delivered_in (run scheme text s' es).1)
        (buffered (run scheme text s' es).0)
      ∙ ap (λ t. delivered response ++ t) (run-queues s' es)
      ∙ sym (append_assoc (delivered response) (buffered s') (produced_in s' es))
      ∙ ap (λ t. t ++ produced_in s' es) (step-Queues s e)
      ∙ append_assoc (buffered s) (produced s e) (produced_in s' es)
