-- ===== src/Remote/Server.antt =====
-- crates/remote/src/main.rs: `RemoteServer`. The state that its tasks share is one record, in
-- which a task that was spawned stands as an entry under its connection's id; each event is one
-- step of one task, from one `await` at which another task can run to the next. An id of 32 bits
-- wraps around. The clipboard is the process's.
pub mod Queue
pub mod Valid
pub mod Ids
pub mod Forwards
pub mod Stops
mod Tests
use Prim.Native.String.{◌++◌ as ◌<>◌}
use vscfreedev.Base.{
  ℕ, zero, suc, ◌+◌, ◌-◌, ◌*◌, ◌/◌, ◌%◌, ◌^◌, ◌≤◌, ◌<◌, min, max, String, ◌≡◌, refl, sym, ap, subst,
  ◌∙◌, ◌≢◌, ◌↔◌, ◌⊎◌, inl, inr, Bool, true, false, not, ◌&&◌, ◌||◌, Option, none, some, List, [],
  ◌∷◌, ◌++◌, map, arith, ltb, leb, if◌then◌else◌, Eq, ◌==◌, nat_beq, nat_beq_iff, nat_eq, string_eq,
  beq_refl, Bool-cases, Option-cases, length, is_empty, retain, All, every, exists, contains, count,
  without, length-append, length-retain-le, count-append, count-without, length-without-le,
}
use vscfreedev.Base.Table.{Table, keys, lookup, insert, remove}
use vscfreedev.Errors.{Result, ok, err, YuhaError}
use vscfreedev.Transport.{decimal}
use vscfreedev.Protocol.Bytes.{Bytes}
use vscfreedev.Protocol.Buffer.{
  ResponseBuffer, ResponseItem, empty_buffer, add_new_connection, add_close_connection,
  add_port_forward_data, add_clipboard_content, take_responses,
}
use vscfreedev.Protocol.Messages.{ProtocolRequest, ProtocolResponse}
use vscfreedev.Desktop.{Clipboard}
use vscfreedev.Desktop

-- A port that is forwarded, which its accept loop captures.
pub record Forward : Type 0 where
  pub local_port : ℕ
  pub remote_host : String
  pub remote_port : ℕ

-- `announcing` and `connecting` are the tasks of accepted connections before and after they tell
-- of the connection; `relays` are the running calls of `handle_connection`, each with what waits
-- in its channel, and `leaving` those that have given up their connection and not told of it.
-- `closing` is the call of `stop_port_forward` that is under way, with the connections that it has
-- not closed; it holds the lock of `active_connections`.
pub record RemoteServer : Type 0 where
  pub clipboard : Clipboard
  pub response_buffer : ResponseBuffer
  pub active_connections : Table ℕ (Unit {0})
  pub next_connection_id : ℕ
  pub listeners : List Forward
  pub announcing : Table ℕ Forward
  pub connecting : Table ℕ Forward
  pub relays : Table ℕ (List Bytes)
  pub leaving : Table ℕ (Unit {0})
  pub closing : Option (List ℕ)

unfoldable pub new : Clipboard → RemoteServer
new clipboard = record {
  clipboard = clipboard;
  response_buffer = empty_buffer;
  active_connections = [];
  next_connection_id = 1;
  listeners = [];
  announcing = [];
  connecting = [];
  relays = [];
  leaving = [];
  closing = none;
}

-- `bind_error` is the text of the error with which the port cannot be bound.
unfoldable pub start_port_forward :
    RemoteServer → Option String → ℕ → String → ℕ → RemoteServer × ProtocolResponse
start_port_forward s none local_port remote_host remote_port = (
  record s {
    listeners =
        record { local_port = local_port; remote_host = remote_host; remote_port = remote_port }
        ∷ s.listeners;
  },
  ProtocolResponse.success,
)
start_port_forward s (some e) local_port remote_host remote_port = (
  s,
  ProtocolResponse.error ("Failed to bind to 0.0.0.0:" <> (decimal local_port <> (": " <> e))),
)

-- The loop over `to_remove`, up to the wait for the lock of the response buffer. As nothing reads
-- `active_connections` meanwhile, a connection leaves it in the step that tells of its end.
pub to_close : RemoteServer → List ℕ → RemoteServer × Option ProtocolResponse
to_close s [] = (record s { closing = none }, some ProtocolResponse.success)
to_close s (id ∷ ids) = (record s { closing = some (id ∷ ids) }, none)

unfoldable pub stop_port_forward : RemoteServer → ℕ → RemoteServer × Option ProtocolResponse
unfolding to_close
stop_port_forward s local_port = to_close s (keys s.active_connections)

abbrev pub closed_one : RemoteServer → ℕ → RemoteServer
closed_one s id = record s {
  active_connections = remove id s.active_connections;
  response_buffer = add_close_connection s.response_buffer id;
}

closed_next : RemoteServer → Option (List ℕ) → RemoteServer × Option ProtocolResponse
unfolding to_close
closed_next s none = (s, none)
closed_next s (some []) = (s, none)
closed_next s (some (id ∷ ids)) = to_close (closed_one s id) ids

-- The lock of the response buffer is there for the next connection to close.
unfoldable pub close_next : RemoteServer → RemoteServer × Option ProtocolResponse
unfolding closed_next
close_next s = closed_next s s.closing

-- A send fails when the receiving call of `handle_connection` has returned.
sent : RemoteServer → ℕ → Bytes → Option (List Bytes) → RemoteServer × ProtocolResponse
sent s id bytes none = (s, ProtocolResponse.error "Failed to send data: channel closed")
sent s id bytes (some queue) =
    (record s { relays = insert id (queue ++ (bytes ∷ [])) s.relays }, ProtocolResponse.success)

forwarded : RemoteServer → ℕ → Bytes → Option (Unit {0}) → RemoteServer × ProtocolResponse
unfolding sent
forwarded s id bytes none = (s, ProtocolResponse.success)
forwarded s id bytes (some _) = sent s id bytes (lookup id s.relays)

unfoldable pub forward_data : RemoteServer → ℕ → Bytes → RemoteServer × ProtocolResponse
unfolding forwarded
forward_data s id bytes = forwarded s id bytes (lookup id s.active_connections)

pub take_all : RemoteServer → RemoteServer × ProtocolResponse
take_all s =
    let (buffer, taken) = take_responses s.response_buffer in
    (record s { response_buffer = buffer }, ProtocolResponse.items taken)

abbrev pub answered : RemoteServer × ProtocolResponse → RemoteServer × Option ProtocolResponse
answered (s, response) = (s, some response)

module _ (scheme : String → Option String) (text : YuhaError → String) where
  clipboard_read : RemoteServer → Result String → RemoteServer × ProtocolResponse
  unfolding take_all
  clipboard_read s (ok content) =
      take_all (record s { response_buffer = add_clipboard_content s.response_buffer content })
  clipboard_read s (err e) = (s, ProtocolResponse.error ("Failed to get clipboard: " <> text e))

  unfoldable pub get_clipboard : RemoteServer → RemoteServer × ProtocolResponse
  unfolding clipboard_read
  get_clipboard s = clipboard_read s (Desktop.get_clipboard s.clipboard)

  done_or : String → Result (Unit {0}) → ProtocolResponse
  done_or failed (ok _) = ProtocolResponse.success
  done_or failed (err e) = ProtocolResponse.error (failed <> text e)

  unfoldable pub set_clipboard : RemoteServer → String → RemoteServer × ProtocolResponse
  unfolding done_or
  set_clipboard s content =
      let (clipboard, result) = Desktop.set_clipboard s.clipboard content in
      (record s { clipboard = clipboard }, done_or "Failed to set clipboard: " result)

  unfoldable pub open_browser : String → ProtocolResponse
  unfolding done_or
  open_browser url = done_or "Failed to open browser: " (Desktop.open_url scheme url)

  -- A poll of an empty buffer has no response until the wait for data is over.
  poll : RemoteServer → List ResponseItem → RemoteServer × Option ProtocolResponse
  unfolding take_all
  poll s [] = (s, none)
  poll s (item ∷ rest) = answered (take_all s)

  unfoldable pub handle_request :
      RemoteServer → Option String → ProtocolRequest → RemoteServer × Option ProtocolResponse
  unfolding poll
  handle_request s bind_error ProtocolRequest.poll_data = poll s s.response_buffer.items
  handle_request s bind_error (ProtocolRequest.start_port_forward local_port host port) =
      answered (start_port_forward s bind_error local_port host port)
  handle_request s bind_error (ProtocolRequest.stop_port_forward local_port) =
      stop_port_forward s local_port
  handle_request s bind_error (ProtocolRequest.port_forward_data id bytes) =
      answered (forward_data s id bytes)
  handle_request s bind_error ProtocolRequest.get_clipboard = answered (get_clipboard s)
  handle_request s bind_error (ProtocolRequest.set_clipboard content) =
      answered (set_clipboard s content)
  handle_request s bind_error (ProtocolRequest.open_browser url) = (s, some (open_browser url))

-- The accept loop of a forwarded port takes an id for a connection and spawns its task.
unfoldable pub accept : RemoteServer → Forward → RemoteServer
accept s f = record s {
  next_connection_id = (s.next_connection_id + 1) % 2 ^ 32;
  announcing = insert s.next_connection_id f s.announcing;
}

announced : RemoteServer → ℕ → Option Forward → RemoteServer
announced s id none = s
announced s id (some f) = record s {
  announcing = remove id s.announcing;
  connecting = insert id f s.connecting;
  response_buffer = add_new_connection s.response_buffer id f.local_port;
}

-- The task of a connection tells of it.
unfoldable pub announce : RemoteServer → ℕ → RemoteServer
unfolding announced
announce s id = announced s id (lookup id s.announcing)

target_connected : RemoteServer → ℕ → Option Forward → RemoteServer
target_connected s id none = s
target_connected s id (some f) = record s {
  connecting = remove id s.connecting;
  active_connections = insert id tt s.active_connections;
  relays = insert id [] s.relays;
}

-- The target server has been reached.
unfoldable pub connect : RemoteServer → ℕ → RemoteServer
unfolding target_connected
connect s id = target_connected s id (lookup id s.connecting)

target_unreached : RemoteServer → ℕ → Option Forward → RemoteServer
target_unreached s id none = s
target_unreached s id (some f) = record s {
  connecting = remove id s.connecting;
  response_buffer = add_close_connection s.response_buffer id;
}

-- The target server cannot be reached.
unfoldable pub fail_connect : RemoteServer → ℕ → RemoteServer
unfolding target_unreached
fail_connect s id = target_unreached s id (lookup id s.connecting)

target_read : RemoteServer → ℕ → Bytes → Option (List Bytes) → RemoteServer
target_read s id bytes none = s
target_read s id bytes (some queue) = record s {
  response_buffer = add_port_forward_data s.response_buffer id bytes;
}

-- The target server sends bytes, which the client's stream takes.
unfoldable pub relay_from_target : RemoteServer → ℕ → Bytes → RemoteServer
unfolding target_read
relay_from_target s id bytes = target_read s id bytes (lookup id s.relays)

queue_read : RemoteServer → ℕ → Option (List Bytes) → RemoteServer × List Bytes
queue_read s id none = (s, [])
queue_read s id (some []) = (s, [])
queue_read s id (some (bytes ∷ queue)) =
    (record s { relays = insert id queue s.relays }, bytes ∷ [])

-- What waits first in the channel goes to the target server.
unfoldable pub relay_to_target : RemoteServer → ℕ → RemoteServer × List Bytes
unfolding queue_read
relay_to_target s id = queue_read s id (lookup id s.relays)

relay_ended : RemoteServer → ℕ → Option (List Bytes) → RemoteServer
relay_ended s id none = s
relay_ended s id (some queue) = record s {
  relays = remove id s.relays;
  active_connections = remove id s.active_connections;
  leaving = insert id tt s.leaving;
}

-- `handle_connection` has left its loop, on an end of a stream, an error or a closed channel, and
-- has the lock of `active_connections`.
unfoldable pub end_relay : RemoteServer → ℕ → RemoteServer
unfolding relay_ended
end_relay s id = relay_ended s id (lookup id s.relays)

told : RemoteServer → ℕ → Option (Unit {0}) → RemoteServer
told s id none = s
told s id (some _) = record s {
  leaving = remove id s.leaving;
  response_buffer = add_close_connection s.response_buffer id;
}

-- Then it has the lock of the response buffer, and returns.
unfoldable pub tell_end : RemoteServer → ℕ → RemoteServer
unfolding told
tell_end s id = told s id (lookup id s.leaving)

pub data Event : Type 0 where
  requests : Option String → ProtocolRequest → Event
  poll_returns closes : Event
  accepts : Forward → Event
  announces connects fails_connect relays_to ends tells_end : ℕ → Event
  relays_from : ℕ → Bytes → Event

-- What waits for the call of `stop_port_forward` that is under way: what takes the lock of
-- `active_connections`, and the loop of the server, which handles one request at a time.
pub waits : Event → Bool
waits (requests bind_error q) = true
waits poll_returns = true
waits (connects id) = true
waits (ends id) = true
waits _ = false

abbrev pub is_closing : Option (List ℕ) → Bool
is_closing none = false
is_closing (some ids) = true

abbrev pub blocked : RemoteServer → Event → Bool
blocked s e = is_closing s.closing && waits e

module _ (scheme : String → Option String) (text : YuhaError → String) where
  unfoldable pub act : RemoteServer → Event → RemoteServer × Option ProtocolResponse
  act s (requests bind_error q) = handle_request scheme text s bind_error q
  act s poll_returns = answered (take_all s)
  act s (accepts f) = (accept s f, none)
  act s (announces id) = (announce s id, none)
  act s (connects id) = (connect s id, none)
  act s (fails_connect id) = (fail_connect s id, none)
  act s (relays_to id) = ((relay_to_target s id).0, none)
  act s (ends id) = (end_relay s id, none)
  act s closes = close_next s
  act s (tells_end id) = (tell_end s id, none)
  act s (relays_from id bytes) = (relay_from_target s id bytes, none)

  -- An event that cannot happen yet changes nothing.
  unfoldable pub step : RemoteServer → Event → RemoteServer × Option ProtocolResponse
  step s e = elim (blocked s e) [ true ↦ (s, none) | false ↦ act s e ]

  -- The state after some events, and the response of each.
  unfoldable pub run : RemoteServer → List Event → RemoteServer × List (Option ProtocolResponse)
  run s [] = (s, [])
  run s (e ∷ es) =
      let (s', response) = step s e in let (s'', rest) = run s' es in (s'', response ∷ rest)
