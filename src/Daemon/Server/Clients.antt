-- ===== src/Daemon/Server/Clients.antt =====
-- What a client of the daemon is answered (crates/client/src/daemon/server.rs).
use vscfreedev.Base.{
  ◌≡◌, refl, ap, ◌∙◌, inl, inr, Bool, true, false, ◌||◌, Option, none, some, List, [], ◌∷◌, ◌++◌,
  map, if◌then◌else◌, nat_eq, string_eq, Bool-cases, Option-cases, exists,
}
use vscfreedev.Protocol.Bytes.{Bytes}
use vscfreedev.Session.Metrics.{Floats}
use vscfreedev.Daemon.{DaemonRequest, DaemonResponse}
use vscfreedev.Daemon.Handler.{Texts, RequestHandler, handle_request}
use vscfreedev.Daemon.Server.{
  DaemonServer, Message, Input, received, lost, continues, breaks, is_shutdown, handle_client,
  client_turn, requested, handled, respond, farewell, onward,
}

is_shutdown-eq : (q : DaemonRequest) → is_shutdown q ≡ true → q ≡ DaemonRequest.shutdown
unfolding is_shutdown
is_shutdown-eq DaemonRequest.ping h = cc
is_shutdown-eq (DaemonRequest.create_session name tc tags d) h = cc
is_shutdown-eq (DaemonRequest.connect_session name tc) h = cc
is_shutdown-eq (DaemonRequest.disconnect_session id) h = cc
is_shutdown-eq DaemonRequest.list_sessions h = cc
is_shutdown-eq (DaemonRequest.get_session_info id) h = cc
is_shutdown-eq (DaemonRequest.execute_command id c) h = cc
is_shutdown-eq DaemonRequest.shutdown h = refl

-- The responses to all messages can be sent.
abbrev pub AllDeliver : List Input → Type 0
AllDeliver [] = Unit
AllDeliver (received m ∷ is) = (m.delivers ≡ true) × AllDeliver is
AllDeliver (lost ∷ is) = AllDeliver is

abbrev pub prepend_request :
    Message → Option DaemonRequest → List (Message × DaemonRequest) → List (Message × DaemonRequest)
prepend_request m none qs = qs
prepend_request m (some q) qs = (m, q) ∷ qs

-- Requests as they come from a client, without the messages that cannot be read.
abbrev pub requests : (Bytes → Option DaemonRequest) → List Input → List (Message × DaemonRequest)
requests decode [] = []
requests decode (received m ∷ is) = prepend_request m (decode m.bytes) (requests decode is)
requests decode (lost ∷ is) = []

-- The requests up to the first shutdown, with it.
abbrev pub until_shutdown : List (Message × DaemonRequest) → List (Message × DaemonRequest)
until_shutdown [] = []
until_shutdown ((m, q) ∷ qs) = (m, q) ∷ (if is_shutdown q then [] else until_shutdown qs)

abbrev pub shuts_down : List (Message × DaemonRequest) → Bool
shuts_down = exists (λ mq. is_shutdown mq.1)

module _ (fl : Floats) (tx : Texts) where
  -- The handler alone, over a list of requests.
  pub respond_all :
      RequestHandler fl tx
      → List (Message × DaemonRequest)
      → RequestHandler fl tx × List DaemonResponse
  respond_all h [] = (h, [])
  respond_all h ((m, q) ∷ qs) =
      let (h', r) = handle_request fl tx h m.now m.new_id q in
      let (h'', rs) = respond_all h' qs in (h'', r ∷ rs)

  module _ (decode : Bytes → Option DaemonRequest) (encode : DaemonResponse → Bytes) where
    abbrev Client : Type 0
    Client = DaemonServer fl tx

    unread_turn :
        (s : Client) (m : Message)
        → decode m.bytes ≡ none
        → client_turn fl tx decode (λ r. some (encode r)) s (received m)
          ≡ record { server = s; sent = []; progress = continues }
    unfolding client_turn requested
    unread_turn s m e = rw e refl

    shutdown_turn :
        (s : Client) (m : Message)
        → decode m.bytes ≡ some DaemonRequest.shutdown
        → m.delivers ≡ true
        → client_turn fl tx decode (λ r. some (encode r)) s (received m) ≡ record {
          server = record s { shutdown = true };
          sent = encode DaemonResponse.shutting_down ∷ [];
          progress = breaks;
        }
    unfolding client_turn requested farewell is_shutdown
    shutdown_turn s m e d = rw (e, d) refl

    handled_turn :
        (s : Client) (m : Message) (q : DaemonRequest)
        → decode m.bytes ≡ some q
        → is_shutdown q ≡ false
        → m.delivers ≡ true
        → client_turn fl tx decode (λ r. some (encode r)) s (received m) ≡ record {
          server = record s {
            request_handler = (handle_request fl tx s.request_handler m.now m.new_id q).0;
          };
          sent = encode (handle_request fl tx s.request_handler m.now m.new_id q).1 ∷ [];
          progress = continues;
        }
    unfolding client_turn requested handled respond
    handled_turn s m q e other d = rw (requested, e, other, d) refl

    goes_on :
        (s s' : Client) (i : Input) (is : List Input) (bs : List Bytes)
        → client_turn fl tx decode (λ r. some (encode r)) s i
          ≡ record { server = s'; sent = bs; progress = continues }
        → handle_client fl tx decode (λ r. some (encode r)) s (i ∷ is) ≡ (
          (handle_client fl tx decode (λ r. some (encode r)) s' is).0,
          bs ++ (handle_client fl tx decode (λ r. some (encode r)) s' is).1,
        )
    unfolding handle_client onward
    goes_on s s' i is bs e =
        ap
          (λ t.
            onward fl tx decode (λ r. some (encode r)) t.progress t
              (handle_client fl tx decode (λ r. some (encode r)) t.server is))
          e

    stops :
        (s s' : Client) (i : Input) (is : List Input) (bs : List Bytes)
        → client_turn fl tx decode (λ r. some (encode r)) s i
          ≡ record { server = s'; sent = bs; progress = breaks }
        → handle_client fl tx decode (λ r. some (encode r)) s (i ∷ is) ≡ (s', bs)
    unfolding handle_client onward
    stops s s' i is bs e =
        ap
          (λ t.
            onward fl tx decode (λ r. some (encode r)) t.progress t
              (handle_client fl tx decode (λ r. some (encode r)) t.server is))
          e

    -- A client whose responses can be sent and serialized is answered by what the handler makes of
    -- its requests, in their order, up to and with the first shutdown; a message that cannot be read
    -- has no answer. The server is left with the handler after these requests, and with the flag set
    -- if one of them was a shutdown.
    pub handle_client-answers :
        (s : DaemonServer fl tx) (is : List Input)
        → AllDeliver is
        → handle_client fl tx decode (λ r. some (encode r)) s is ≡ (
          record s {
            request_handler =
                (respond_all s.request_handler (until_shutdown (requests decode is))).0;
            shutdown = shuts_down (requests decode is) || s.shutdown;
          },
          map encode (respond_all s.request_handler (until_shutdown (requests decode is))).1,
        )
    unfolding handle_client respond_all handle_request is_shutdown
    handle_client-answers s [] d = refl
    handle_client-answers s (lost ∷ is) d = refl
    handle_client-answers s (received m ∷ is) d =
        let (delivers, rest_delivers) = d in
        elim (Option-cases (decode m.bytes)) [
          | inl none' ↦
              goes_on s s (received m) is [] (unread_turn s m none')
              ∙ rw none' (handle_client-answers s is rest_delivers)
          | inr (q, some') ↦ elim (Bool-cases (is_shutdown q)) [
            | inl yes' ↦
                let e = some' ∙ ap (λ x. some x) (is_shutdown-eq q yes') in
                stops s _ (received m) is _ (shutdown_turn s m e delivers) ∙ rw e refl
            | inr no' ↦
                let (h, r) = handle_request fl tx s.request_handler m.now m.new_id q in
                let s' = record s { request_handler = h } in
                goes_on s s' (received m) is (encode r ∷ []) (handled_turn s m q some' no' delivers)
                ∙ rw (some', no')
                    (ap (λ p. (p.0, encode r ∷ p.1)) (handle_client-answers s' is rest_delivers))
          ]
        ]
