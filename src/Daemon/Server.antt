-- ===== src/Daemon/Server.antt =====
-- crates/client/src/daemon/server.rs: the daemon's server, over the handler of requests
-- (Daemon/Handler). `decode` and `encode` stand for serde_json, and a message is what the message
-- channel received. The accept loop and the tasks of the clients are steps: one per result of
-- `accept`, of a client's `receive` or of the interval of the cleanup task. The socket file is left
-- out, and so is what becomes of the tasks when `run` has returned.
pub mod Clients
pub mod Accepting
pub mod Counting
mod Tests
use vscfreedev.Base.{
  ℕ, zero, suc, ◌+◌, ◌-◌, ◌*◌, ◌/◌, ◌%◌, ◌^◌, ◌≤◌, ◌<◌, min, max, String, ◌≡◌, refl, sym, ap, subst,
  ◌∙◌, ◌≢◌, ◌↔◌, ◌⊎◌, inl, inr, Bool, true, false, not, ◌&&◌, ◌||◌, Option, none, some, List, [],
  ◌∷◌, ◌++◌, map, arith, ltb, leb, if◌then◌else◌, Eq, ◌==◌, nat_beq, nat_beq_iff, nat_eq, string_eq,
  beq_refl, Bool-cases, Option-cases, length, is_empty, retain, All, every, exists, contains, count,
  without, length-append, length-retain-le, count-append, count-without, length-without-le,
}
use vscfreedev.Protocol.Bytes.{Bytes}
use vscfreedev.Session.{SessionId, secs}
use vscfreedev.Session.Pool
use vscfreedev.Session.Lifecycle
use vscfreedev.Session.Lifecycle.{Lifecycle}
use vscfreedev.Session.Metrics.{Floats}
use vscfreedev.Session.Manager
use vscfreedev.Session.Manager.{ManagerConfig, Manager}
use vscfreedev.Daemon.{DaemonConfig, DaemonRequest, DaemonResponse}
use vscfreedev.Daemon.Handler.{Texts, RequestHandler, handle_request}
use vscfreedev.Daemon.Handler

-- What a client's `receive` gives: a message, with the clock, the random id of a session that it
-- may create and whether the response can be sent; or an error.
pub record Message : Type 0 where
  pub now : ℕ
  pub new_id : SessionId
  pub bytes : Bytes
  pub delivers : Bool

pub data Input : Type 0 where
  received : Message → Input
  lost : Input

-- What the loop of a client does after a message.
pub data Progress : Type 0 where
  continues breaks panics : Progress

-- The manager's configuration that the daemon's gives.
abbrev pub session_config : DaemonConfig → ManagerConfig
session_config c = record Manager.default_config {
  pool = record Pool.default_config {
    enabled = c.enable_session_pooling;
    max_sessions_per_connection = 5;
    max_total_sessions = 50;
    min_idle_time = c.session_idle_timeout;
  };
  lifecycle = record Lifecycle.default_config { max_idle_time = secs c.session_idle_timeout };
}

-- `matches!(request, DaemonRequest::Shutdown)`.
pub is_shutdown : DaemonRequest → Bool
is_shutdown DaemonRequest.shutdown = true
is_shutdown _ = false

module _ (fl : Floats) (tx : Texts) where
  -- The session manager is the handler's.
  pub record DaemonServer : Type 0 where
    pub config : DaemonConfig
    pub request_handler : RequestHandler fl tx
    pub shutdown : Bool

  unfoldable pub new : DaemonConfig → DaemonServer
  new c = record {
    config = c;
    request_handler = Handler.new fl tx (Manager.new fl (session_config c));
    shutdown = false;
  }

  abbrev with_manager : (Manager fl → Manager fl) → DaemonServer → DaemonServer
  with_manager f s = record s {
    request_handler = record s.request_handler {
      session_manager = f s.request_handler.session_manager;
    };
  }

  cleaned : ℕ → Manager fl → Lifecycle × Bool → Manager fl
  cleaned now m (l, true) = (Manager.cleanup fl (record m { lifecycle = l }) now).0
  cleaned now m (l, false) = record m { lifecycle = l }

  -- One turn of the cleanup task.
  tick : ℕ → DaemonServer → DaemonServer
  unfolding cleaned
  tick now = with_manager (λ m. cleaned now m (Lifecycle.cleanup_tick m.lifecycle))

  -- One turn of a client's loop: the server after it, the message that was sent, and what follows.
  pub record Turn : Type 0 where
    pub server : DaemonServer
    pub sent : List Bytes
    pub progress : Progress

  -- `run` with its local variables: the count of the connections, the ids of the clients whose
  -- tasks run, and whether the loop goes on.
  pub record Listening : Type 0 where
    pub server : DaemonServer
    pub client_count : ℕ
    pub clients : List ℕ
    pub running : Bool

  module _ (decode : Bytes → Option DaemonRequest) (encode : DaemonResponse → Option Bytes) where
    -- A response that cannot be serialized is skipped; one that cannot be sent ends the loop.
    pub respond : DaemonServer → Bool → Option Bytes → Turn
    respond s delivers none = record { server = s; sent = []; progress = continues }
    respond s true (some b) = record { server = s; sent = b ∷ []; progress = continues }
    respond s false (some b) = record { server = s; sent = []; progress = breaks }

    -- The answer to a shutdown, whose serialization is unwrapped.
    pub farewell : DaemonServer → Bool → Option Bytes → Turn
    farewell s delivers none = record { server = s; sent = []; progress = panics }
    farewell s true (some b) = record { server = s; sent = b ∷ []; progress = breaks }
    farewell s false (some b) = record { server = s; sent = []; progress = breaks }

    handled : DaemonServer → Bool → RequestHandler fl tx × DaemonResponse → Turn
    unfolding respond
    handled s delivers (h, response) =
        respond (record s { request_handler = h }) delivers (encode response)

    -- A request that cannot be read is passed over.
    requested : DaemonServer → Message → Option DaemonRequest → Turn
    unfolding farewell handled is_shutdown
    requested s m none = record { server = s; sent = []; progress = continues }
    requested s m (some q) = elim (is_shutdown q) [
      | true ↦
          farewell (record s { shutdown = true }) m.delivers (encode DaemonResponse.shutting_down)
      | false ↦ handled s m.delivers (handle_request fl tx s.request_handler m.now m.new_id q)
    ]

    unfoldable pub client_turn : DaemonServer → Input → Turn
    unfolding requested
    client_turn s (received m) = requested s m (decode m.bytes)
    client_turn s lost = record { server = s; sent = []; progress = breaks }

    -- What a turn and, where the loop goes on, the turns after it come to.
    onward : Progress → Turn → DaemonServer × List Bytes → DaemonServer × List Bytes
    onward continues turn (s', rest) = (s', turn.sent ++ rest)
    onward breaks turn after = (turn.server, turn.sent)
    onward panics turn after = (turn.server, turn.sent)

    -- The loop of one client while no other client's turn comes between: the server after it and
    -- all that was sent. At the end of the list it waits.
    unfoldable pub handle_client : DaemonServer → List Input → DaemonServer × List Bytes
    unfolding client_turn onward
    handle_client s [] = (s, [])
    handle_client s (i ∷ is) =
        let turn = client_turn s i in onward turn.progress turn (handle_client turn.server is)

    pub data Event : Type 0 where
      connection accept_failure : Event
      input : ℕ → Input → Event
      cleanup : ℕ → Event

    pub data Output : Type 0 where
      accepted : ℕ → Output
      refused : Output
      sent : ℕ → List Bytes → Output

    -- The top of the loop, and the end of `run` where the flag is set.
    checked : Listening → Listening
    checked s = elim s.server.shutdown [
      | true ↦ record s {
        server = with_manager (Manager.stop_cleanup_task fl) s.server;
        running = false;
      }
      | false ↦ record s { running = true }
    ]

    unfoldable pub listen : DaemonServer → Listening
    unfolding checked
    listen server = checked (record {
      server = with_manager (Manager.start_cleanup_task fl) server;
      client_count = 0;
      clients = [];
      running = true;
    })

    -- `client_count` is a `u32`.
    counted : Listening → ℕ → Listening × Output
    unfolding checked
    counted s n = elim (ltb s.server.config.max_clients n) [
      | true ↦ (checked (record s { client_count = n }), Output.refused)
      | false ↦
          (checked (record s { client_count = n; clients = n ∷ s.clients }), Output.accepted n)
    ]

    stays : Progress → ℕ → List ℕ → List ℕ
    stays continues id ids = ids
    stays breaks id ids = without id ids
    stays panics id ids = without id ids

    served : Listening → ℕ → Turn → Listening × Output
    unfolding stays
    served s id turn = (
      record s { server = turn.server; clients = stays turn.progress id s.clients },
      Output.sent id turn.sent,
    )

    unfoldable pub step : Listening → Event → Listening × List Output
    unfolding counted served tick
    step s connection = elim s.running [
      | true ↦ let (s', o) = counted s ((s.client_count + 1) % 2 ^ 32) in (s', o ∷ [])
      | false ↦ (s, [])
    ]
    step s accept_failure = elim s.running [ true ↦ (checked s, []) | false ↦ (s, []) ]
    step s (input id i) = elim (contains id s.clients) [
      | true ↦ let (s', o) = served s id (client_turn s.server i) in (s', o ∷ [])
      | false ↦ (s, [])
    ]
    step s (cleanup now) = (record s { server = tick now s.server }, [])

    unfoldable pub run : Listening → List Event → Listening × List Output
    run s [] = (s, [])
    run s (e ∷ es) =
        let (s', outputs) = step s e in let (s'', rest) = run s' es in (s'', outputs ++ rest)
