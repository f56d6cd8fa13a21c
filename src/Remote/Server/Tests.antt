-- ===== src/Remote/Server/Tests.antt =====
-- Tests of the remote server, and instances of its theorems (crates/remote/src/main.rs).
use vscfreedev.Base.{
  ℕ, String, ◌≡◌, refl, ◌≢◌, ◌⊎◌, true, Option, none, some, List, [], ◌∷◌, ◌++◌, map, arith, nat_eq,
  string_eq, contains,
}
use vscfreedev.Base.Table.{lookup, keys, insert}
use vscfreedev.Errors.{YuhaError}
use vscfreedev.Protocol.Bytes.{Bytes}
use vscfreedev.Protocol.Buffer.{
  ResponseItem, close_connection, new_connection, port_forward_data, add_new_connection,
}
use vscfreedev.Protocol.Messages.{ProtocolRequest, ProtocolResponse}
use vscfreedev.Desktop.{Clipboard}
use vscfreedev.Remote.Server.{
  Forward, RemoteServer, Event, requests, poll_returns, accepts, announces, connects, ends,
  relays_from, closes, tells_end, tell_end, close_next, new, start_port_forward, stop_port_forward,
  forward_data, handle_request, accept, announce, connect, end_relay, relay_from_target, step, run,
}
use vscfreedev.Remote.Server.Valid.{IsValid}
use vscfreedev.Remote.Server.Ids.{run-new-IsValid}
use vscfreedev.Remote.Server.Queue.{buffered, delivered_in, produced_in, run-queues}
use vscfreedev.Remote.Server.Forwards.{forward_data-result}
use vscfreedev.Remote.Server.Stops.Again.{each_closes, end_relay-closes_again}

abbrev scheme : String → Option String
scheme url = some "https"

abbrev text : YuhaError → String
text e = "error"

abbrev held : Clipboard
held = record { content = "text"; poison = none }

abbrev web : Forward
web = record { local_port = 8080; remote_host = "localhost"; remote_port = 80 }

abbrev opening : List Event
opening =
    requests none (ProtocolRequest.start_port_forward 8080 "localhost" 80)
    ∷ accepts web
    ∷ announces 1
    ∷ connects 1
    ∷ []

abbrev opened : RemoteServer
opened = (run scheme text (new held) opening).0

abbrev session : List Event
session =
    requests none (ProtocolRequest.port_forward_data 1 (7 ∷ []))
    ∷ requests none ProtocolRequest.poll_data
    ∷ relays_from 1 (8 ∷ [])
    ∷ requests none ProtocolRequest.get_clipboard
    ∷ requests none (ProtocolRequest.stop_port_forward 9)
    ∷ relays_from 1 (9 ∷ [])
    ∷ closes
    ∷ ends 1
    ∷ tells_end 1
    ∷ poll_returns
    ∷ []

opened-active : lookup 1 opened.active_connections ≡ some tt
unfolding lookup run step connect announce accept insert handle_request start_port_forward new
    vscfreedev.Remote.Server.act
opened-active = refl

session-delivered :
    delivered_in (run scheme text opened session).1
    ≡ new_connection 1 8080
      ∷ port_forward_data 1 (8 ∷ [])
      ∷ ResponseItem.clipboard_content "text"
      ∷ port_forward_data 1 (9 ∷ [])
      ∷ close_connection 1
      ∷ close_connection 1
      ∷ []
unfolding run step handle_request forward_data lookup connect announce accept insert
    start_port_forward new add_new_connection vscfreedev.Protocol.Buffer.empty_buffer
    vscfreedev.Protocol.Buffer.take_responses vscfreedev.Remote.Server.get_clipboard
    vscfreedev.Desktop.get_clipboard relay_from_target
    vscfreedev.Protocol.Buffer.add_clipboard_content
    vscfreedev.Protocol.Buffer.add_port_forward_data stop_port_forward end_relay
    vscfreedev.Protocol.Buffer.add_close_connection close_next tell_end vscfreedev.Remote.Server.act
    vscfreedev.Remote.Server.waits
session-delivered = refl

run-new-IsValid_example : IsValid (run scheme text (new held) opening).0
run-new-IsValid_example = run-new-IsValid scheme text held opening (omega arith)

run-queues_example :
    delivered_in (run scheme text opened session).1 ++ buffered (run scheme text opened session).0
    ≡ buffered opened ++ produced_in scheme text opened session
run-queues_example = run-queues scheme text opened session

forward_data-result_example :
    ((forward_data opened 1 (7 ∷ [])).1 ≡ ProtocolResponse.success)
    × (((queue : List Bytes) × (lookup 1 opened.active_connections ≡ some tt)
          × (lookup 1 opened.relays ≡ some queue)
          × (lookup 1 (forward_data opened 1 (7 ∷ [])).0.relays ≡ some (queue ++ ((7 ∷ []) ∷ [])))
          × ((j : ℕ)
              → j ≢ 1
              → lookup j (forward_data opened 1 (7 ∷ [])).0.relays ≡ lookup j opened.relays))
        ⊎ ((lookup 1 opened.active_connections ≡ none)
            × ((forward_data opened 1 (7 ∷ [])).0 ≡ opened)))
forward_data-result_example = forward_data-result opened 1 (7 ∷ []) run-new-IsValid_example

opened-idle : opened.closing ≡ none
unfolding lookup run step connect announce accept insert handle_request start_port_forward new
    vscfreedev.Remote.Server.act
opened-idle = refl

end_relay-closes_again_example :
    (contains 1 (keys opened.active_connections) ≡ true)
    × (buffered
          (run scheme text opened (
            requests none (ProtocolRequest.stop_port_forward 9)
            ∷ each_closes scheme text
                (keys opened.active_connections)
                (relays_from 1 (8 ∷ []) ∷ ends 1 ∷ tells_end 1 ∷ []))).0
        ≡ buffered opened
          ++ (map close_connection (keys opened.active_connections)
              ++ (port_forward_data 1 (8 ∷ []) ∷ close_connection 1 ∷ [])))
end_relay-closes_again_example =
    end_relay-closes_again scheme text opened none 9 1 (8 ∷ []) run-new-IsValid_example opened-idle
      opened-active
