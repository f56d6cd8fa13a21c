-- ===== src/Remote/Server/Valid.antt =====
-- The tasks of the remote server and the connections that it knows (crates/remote/src/main.rs).
use vscfreedev.Base.{
  ℕ, ◌+◌, ◌^◌, ◌≤◌, ◌<◌, String, ◌≡◌, refl, inl, inr, Option, none, some, List, [], ◌∷◌, ◌++◌,
  arith, nat_beq_iff, nat_eq, string_eq, Bool-cases,
}
use vscfreedev.Base.Table.{lookup, insert, lookup-insert, lookup-remove, keys}
use vscfreedev.Errors.{Result, ok, err, YuhaError}
use vscfreedev.Protocol.Bytes.{Bytes}
use vscfreedev.Protocol.Messages.{ProtocolRequest}
use vscfreedev.Protocol.Buffer.{ResponseItem}
use vscfreedev.Desktop.{Clipboard}
use vscfreedev.Remote.Server.{
  closed_one, Forward, RemoteServer, Event, requests, poll_returns, closes, accepts, announces,
  connects, fails_connect, relays_to, ends, tells_end, relays_from, new, start_port_forward,
  to_close, closed_next, close_next, stop_port_forward, sent, forwarded, forward_data, take_all,
  clipboard_read, get_clipboard, set_clipboard, poll, handle_request, accept, announced, announce,
  target_connected, connect, target_unreached, fail_connect, target_read, relay_from_target,
  queue_read, relay_to_target, relay_ended, end_relay, told, tell_end, blocked, act, step,
}

abbrev pub present {ℓ} : {A : Type ℓ} → Option A → ℕ
present none = 0
present (some a) = 1

-- How many tasks a connection has.
abbrev pub tasks : RemoteServer → ℕ → ℕ
tasks s i =
    present (lookup i s.announcing)
    + (present (lookup i s.connecting)
        + (present (lookup i s.relays) + present (lookup i s.leaving)))

-- A connection has one task at most, an id that was not handed out has none, and the server
-- sends to running relays only.
pub record IsValid (s : RemoteServer) : Type 0 where
  pub single : (i : ℕ) → tasks s i ≤ 1
  pub unused : (i : ℕ) → s.next_connection_id ≤ i → tasks s i ≡ 0
  pub served : (i : ℕ) → lookup i s.relays ≡ none → lookup i s.active_connections ≡ none

accept-IsValid :
    (s : RemoteServer) (f : Forward)
    → IsValid s
    → s.next_connection_id + 1 < 2 ^ 32
    → IsValid (accept s f)
unfolding accept
accept-IsValid s f v h = record {
  single = λ i. ground (
    arith,
    lookup-insert s.next_connection_id i f s.announcing,
    v.single i,
    v.unused i,
    nat_beq_iff s.next_connection_id i,
  );
  unused = λ i above. ground (
    arith,
    lookup-insert s.next_connection_id i f s.announcing,
    v.unused i,
    nat_beq_iff s.next_connection_id i,
  );
  served = v.served;
}

announced-IsValid :
    (s : RemoteServer) (id : ℕ) (o : Option Forward)
    → IsValid s
    → lookup id s.announcing ≡ o
    → IsValid (announced s id o)
unfolding announced
announced-IsValid s id none v e = v
announced-IsValid s id (some f) v e = record {
  single = λ i. ground (
    arith,
    lookup-remove id i s.announcing,
    lookup-insert id i f s.connecting,
    v.single i,
    nat_beq_iff id i,
  );
  unused = λ i above. ground (
    arith,
    lookup-remove id i s.announcing,
    lookup-insert id i f s.connecting,
    v.unused i,
    nat_beq_iff id i,
  );
  served = v.served;
}

connected-IsValid :
    (s : RemoteServer) (id : ℕ) (o : Option Forward)
    → IsValid s
    → lookup id s.connecting ≡ o
    → IsValid (target_connected s id o)
unfolding target_connected
connected-IsValid s id none v e = v
connected-IsValid s id (some f) v e = record {
  single = λ i. ground (
    arith,
    lookup-remove id i s.connecting,
    lookup-insert id i [] s.relays,
    v.single i,
    nat_beq_iff id i,
  );
  unused = λ i above. ground (
    arith,
    lookup-remove id i s.connecting,
    lookup-insert id i [] s.relays,
    v.unused i,
    nat_beq_iff id i,
  );
  served = λ i gone. ground (
    arith,
    lookup-insert id i tt s.active_connections,
    lookup-insert id i [] s.relays,
    v.served i,
  );
}

unreached-IsValid :
    (s : RemoteServer) (id : ℕ) (o : Option Forward) → IsValid s → IsValid (target_unreached s id o)
unfolding target_unreached
unreached-IsValid s id none v = v
unreached-IsValid s id (some f) v = record {
  single = λ i. ground (arith, lookup-remove id i s.connecting, v.single i);
  unused = λ i above. ground (arith, lookup-remove id i s.connecting, v.unused i);
  served = v.served;
}

-- Replacing what waits in the channel of a running relay.
queue-IsValid :
    (s : RemoteServer) (id : ℕ) (old queue : List Bytes)
    → IsValid s
    → lookup id s.relays ≡ some old
    → IsValid (record s { relays = insert id queue s.relays })
queue-IsValid s id old queue v e = record {
  single = λ i. ground (arith, lookup-insert id i queue s.relays, v.single i, nat_beq_iff id i);
  unused =
      λ i above. ground (arith, lookup-insert id i queue s.relays, v.unused i, nat_beq_iff id i);
  served = λ i gone. ground (arith, lookup-insert id i queue s.relays, v.served i);
}

queue_read-IsValid :
    (s : RemoteServer) (id : ℕ) (o : Option (List Bytes))
    → IsValid s
    → lookup id s.relays ≡ o
    → IsValid (queue_read s id o).0
unfolding queue_read
queue_read-IsValid s id none v e = v
queue_read-IsValid s id (some []) v e = v
queue_read-IsValid s id (some (bytes ∷ queue)) v e = queue-IsValid s id (bytes ∷ queue) queue v e

ended-IsValid :
    (s : RemoteServer) (id : ℕ) (o : Option (List Bytes))
    → IsValid s
    → lookup id s.relays ≡ o
    → IsValid (relay_ended s id o)
unfolding relay_ended
ended-IsValid s id none v e = v
ended-IsValid s id (some queue) v e = record {
  single = λ i. ground (
    arith,
    lookup-remove id i s.relays,
    lookup-insert id i tt s.leaving,
    v.single i,
    nat_beq_iff id i,
  );
  unused = λ i above. ground (
    arith,
    lookup-remove id i s.relays,
    lookup-insert id i tt s.leaving,
    v.unused i,
    nat_beq_iff id i,
  );
  served = λ i gone.
      ground
        (arith, lookup-remove id i s.active_connections, lookup-remove id i s.relays, v.served i);
}

told-IsValid :
    (s : RemoteServer) (id : ℕ) (o : Option (Unit {0})) → IsValid s → IsValid (told s id o)
unfolding told
told-IsValid s id none v = v
told-IsValid s id (some _) v = record {
  single = λ i. ground (arith, lookup-remove id i s.leaving, v.single i);
  unused = λ i above. ground (arith, lookup-remove id i s.leaving, v.unused i);
  served = v.served;
}

read-IsValid :
    (s : RemoteServer) (id : ℕ) (bytes : Bytes) (o : Option (List Bytes))
    → IsValid s
    → IsValid (target_read s id bytes o)
unfolding target_read
read-IsValid s id bytes none v = record { single = v.single; unused = v.unused; served = v.served }
read-IsValid s id bytes (some queue) v = record {
  single = v.single;
  unused = v.unused;
  served = v.served;
}

to_close-IsValid : (s : RemoteServer) (ids : List ℕ) → IsValid s → IsValid (to_close s ids).0
unfolding to_close
to_close-IsValid s [] v = record { single = v.single; unused = v.unused; served = v.served }
to_close-IsValid s (id ∷ ids) v = record { single = v.single; unused = v.unused; served = v.served }

closed_next-IsValid :
    (s : RemoteServer) (o : Option (List ℕ)) → IsValid s → IsValid (closed_next s o).0
unfolding closed_next
closed_next-IsValid s none v = v
closed_next-IsValid s (some []) v = v
closed_next-IsValid s (some (id ∷ ids)) v = to_close-IsValid (closed_one s id) ids (record {
  single = v.single;
  unused = v.unused;
  served = λ i gone. ground (arith, lookup-remove id i s.active_connections, v.served i gone);
})

sent-IsValid :
    (s : RemoteServer) (id : ℕ) (bytes : Bytes) (o : Option (List Bytes))
    → IsValid s
    → lookup id s.relays ≡ o
    → IsValid (sent s id bytes o).0
unfolding sent
sent-IsValid s id bytes none v e = v
sent-IsValid s id bytes (some queue) v e = queue-IsValid s id queue (queue ++ (bytes ∷ [])) v e

forwarded-IsValid :
    (s : RemoteServer) (id : ℕ) (bytes : Bytes) (o : Option (Unit {0}))
    → IsValid s
    → IsValid (forwarded s id bytes o).0
unfolding forwarded
forwarded-IsValid s id bytes none v = v
forwarded-IsValid s id bytes (some _) v = sent-IsValid s id bytes (lookup id s.relays) v refl

start-IsValid :
    (s : RemoteServer) (b : Option String) (local_port : ℕ) (host : String) (port : ℕ)
    → IsValid s
    → IsValid (start_port_forward s b local_port host port).0
unfolding start_port_forward
start-IsValid s none local_port host port v = record {
  single = v.single;
  unused = v.unused;
  served = v.served;
}
start-IsValid s (some e) local_port host port v = v

pub new-IsValid : (c : Clipboard) → IsValid (new c)
unfolding new lookup
new-IsValid c = record {
  single = λ i. omega arith;
  unused = λ i above. refl;
  served = λ i gone. refl;
}

module _ (scheme : String → Option String) (text : YuhaError → String) where
  clipboard_read-IsValid :
      (s : RemoteServer) (r : Result String)
      → IsValid s
      → IsValid (clipboard_read scheme text s r).0
  unfolding clipboard_read take_all
  clipboard_read-IsValid s (ok content) v = record {
    single = v.single;
    unused = v.unused;
    served = v.served;
  }
  clipboard_read-IsValid s (err e) v = v

  request-IsValid :
      (s : RemoteServer) (b : Option String) (q : ProtocolRequest)
      → IsValid s
      → IsValid (handle_request scheme text s b q).0
  unfolding handle_request poll take_all stop_port_forward forward_data set_clipboard get_clipboard
  request-IsValid s b ProtocolRequest.poll_data v = polled s.response_buffer.items
    where
      polled : (is : List ResponseItem) → IsValid (poll scheme text s is).0
      polled [] = v
      polled (item ∷ rest) = record { single = v.single; unused = v.unused; served = v.served }
  request-IsValid s b (ProtocolRequest.start_port_forward local_port host port) v =
      start-IsValid s b local_port host port v
  request-IsValid s b (ProtocolRequest.stop_port_forward port) v =
      to_close-IsValid s (keys s.active_connections) v
  request-IsValid s b (ProtocolRequest.port_forward_data id bytes) v =
      forwarded-IsValid s id bytes (lookup id s.active_connections) v
  request-IsValid s b ProtocolRequest.get_clipboard v = clipboard_read-IsValid s _ v
  request-IsValid s b (ProtocolRequest.set_clipboard content) v = record {
    single = v.single;
    unused = v.unused;
    served = v.served;
  }
  request-IsValid s b (ProtocolRequest.open_browser url) v = v

  act-IsValid :
      (s : RemoteServer) (e : Event)
      → IsValid s
      → s.next_connection_id + 1 < 2 ^ 32
      → IsValid (act scheme text s e).0
  unfolding act take_all announce connect fail_connect relay_to_target end_relay relay_from_target
      tell_end close_next
  act-IsValid s (requests b q) v h = request-IsValid s b q v
  act-IsValid s poll_returns v h = record {
    single = v.single;
    unused = v.unused;
    served = v.served;
  }
  act-IsValid s (accepts f) v h = accept-IsValid s f v h
  act-IsValid s (announces id) v h = announced-IsValid s id _ v refl
  act-IsValid s (connects id) v h = connected-IsValid s id _ v refl
  act-IsValid s (fails_connect id) v h = unreached-IsValid s id _ v
  act-IsValid s (relays_to id) v h = queue_read-IsValid s id _ v refl
  act-IsValid s (ends id) v h = ended-IsValid s id _ v refl
  act-IsValid s closes v h = closed_next-IsValid s _ v
  act-IsValid s (tells_end id) v h = told-IsValid s id _ v
  act-IsValid s (relays_from id bytes) v h = read-IsValid s id bytes _ v

  pub step-IsValid :
      (s : RemoteServer) (e : Event)
      → IsValid s
      → s.next_connection_id + 1 < 2 ^ 32
      → IsValid (step scheme text s e).0
  unfolding step
  step-IsValid s e v h = elim (Bool-cases (blocked s e)) [
    | inl held ↦ rw (step, held) v
    | inr free ↦ rw (step, free) (act-IsValid s e v h)
  ]
