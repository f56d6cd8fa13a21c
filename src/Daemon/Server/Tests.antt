-- ===== src/Daemon/Server/Tests.antt =====
-- Tests of the daemon's server, and instances of its theorems
-- (crates/client/src/daemon/server.rs).
use vscfreedev.Base.{
  ℕ, ◌+◌, ◌*◌, ◌/◌, min, ◌≡◌, refl, true, false, ◌||◌, Option, none, some, List, [], ◌∷◌, map,
  arith, if◌then◌else◌, nat_beq, nat_eq, string_eq,
}
use vscfreedev.Protocol.Bytes.{Bytes}
use vscfreedev.Session.Metrics.{Floats}
use vscfreedev.Daemon.{DaemonRequest, DaemonResponse, default_config}
use vscfreedev.Daemon.Handler.{Texts}
use vscfreedev.Daemon.Handler
use vscfreedev.Daemon.Server.{
  DaemonServer, Listening, Input, received, lost, Event, connection, input, accepted, refused, sent,
  new, listen, step, run, handle_client, client_turn,
}
use vscfreedev.Daemon.Server.Clients.{
  requests, until_shutdown, shuts_down, respond_all, handle_client-answers,
}
use vscfreedev.Daemon.Server.Accepting.{run-waits}
use vscfreedev.Daemon.Server.Counting.{accepted_in, refused_in, connections, run-accepted}

-- Percentages in whole numbers.
abbrev whole : Floats
whole = record { Float = ℕ; zero_float = 0; percentage = λ part total. (part * 100) / total }

abbrev texts : Texts
texts = record {
  error_text = λ e. "error";
  id_text = λ id. "id";
  status_text = λ s. "status";
  time_text = λ t. "time";
}

-- One byte per request and per response.
abbrev decode : Bytes → Option DaemonRequest
decode [] = none
decode (b ∷ bs) =
    if nat_beq b 1
    then some DaemonRequest.ping
    else if nat_beq b 2
    then some DaemonRequest.shutdown
    else none

abbrev encode : DaemonResponse → Bytes
encode DaemonResponse.pong = 1 ∷ []
encode DaemonResponse.shutting_down = 2 ∷ []
encode _ = 3 ∷ []

abbrev encoded : DaemonResponse → Option Bytes
encoded r = some (encode r)

abbrev message : ℕ → Input
message b = received (record { now = 10; new_id = 7; bytes = b ∷ []; delivers = true })

-- One client at a time is what the configuration asks for.
abbrev server : DaemonServer whole texts
server = new whole texts (record (default_config "daemon.sock") { max_clients = 1 })

abbrev inputs : List Input
inputs = message 1 ∷ message 9 ∷ message 2 ∷ message 1 ∷ []

abbrev OneEvent : Type 0
OneEvent = Event whole texts decode encoded

abbrev after : List OneEvent → Listening whole texts
after es = (run whole texts decode encoded (listen whole texts decode encoded server) es).0

-- The message that cannot be read is not answered, and nothing is after the shutdown.
answered_messages :
    (handle_client whole texts decode encoded server inputs).1 ≡ (1 ∷ []) ∷ (2 ∷ []) ∷ []
unfolding handle_client Handler.handle_request
answered_messages = refl

-- The first client has left when the second comes.
abbrev first_left : List OneEvent
first_left = connection ∷ input 1 lost ∷ []

refused_second :
    (run whole texts decode encoded
      (listen whole texts decode encoded server)
      (connection ∷ input 1 lost ∷ connection ∷ [])).1
    ≡ accepted 1 ∷ sent 1 [] ∷ refused ∷ []
unfolding run step listen new vscfreedev.Daemon.Server.client_turn
refused_second = refl

abbrev asked : List OneEvent
asked = connection ∷ input 1 (message 2) ∷ []

asked-shutdown : (after asked).server.shutdown ≡ true
unfolding run step listen new vscfreedev.Daemon.Server.client_turn
asked-shutdown = refl

asked-running : (after asked).running ≡ true
unfolding run step listen new
asked-running = refl

handle_client-answers_example : handle_client whole texts decode encoded server inputs ≡ (
  record server {
    request_handler =
        (respond_all whole texts server.request_handler
          (until_shutdown (requests decode inputs))).0;
    shutdown = shuts_down (requests decode inputs) || server.shutdown;
  },
  map encode
      (respond_all whole texts server.request_handler (until_shutdown (requests decode inputs))).1,
)
handle_client-answers_example =
    handle_client-answers whole texts decode encode server inputs (refl, (refl, (refl, (refl, tt))))

run-accepted_example :
    (accepted_in whole texts decode encoded
        (run whole texts decode encoded
          (listen whole texts decode encoded server)
          (connection ∷ input 1 lost ∷ connection ∷ [])).1
      ≡ min 1 (
          connections whole texts decode encoded
            (listen whole texts decode encoded server)
            (connection ∷ input 1 lost ∷ connection ∷ [])))
    × (accepted_in whole texts decode encoded
            (run whole texts decode encoded
              (listen whole texts decode encoded server)
              (connection ∷ input 1 lost ∷ connection ∷ [])).1
          + refused_in whole texts decode encoded
              (run whole texts decode encoded
                (listen whole texts decode encoded server)
                (connection ∷ input 1 lost ∷ connection ∷ [])).1
        ≡ connections whole texts decode encoded
            (listen whole texts decode encoded server)
            (connection ∷ input 1 lost ∷ connection ∷ []))
unfolding new
run-accepted_example =
    run-accepted whole texts decode encoded server (connection ∷ input 1 lost ∷ connection ∷ [])
      (omega arith)

run-waits_example :
    ((run whole texts decode encoded (after asked) (input 1 (message 1) ∷ [])).0.running ≡ true)
    × ((step whole texts decode encoded
          (run whole texts decode encoded (after asked) (input 1 (message 1) ∷ [])).0
          connection).0.running
        ≡ false)
run-waits_example =
    run-waits whole texts decode encoded (input 1 (message 1) ∷ []) (after asked) asked-shutdown
      asked-running (refl, tt)
