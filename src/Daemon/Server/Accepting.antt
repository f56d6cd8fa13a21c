-- ===== src/Daemon/Server/Accepting.antt =====
-- The shutdown of the daemon (crates/client/src/daemon/server.rs).
use vscfreedev.Base.{
  ℕ, ◌+◌, ◌%◌, ◌^◌, ◌≡◌, refl, ap, ◌∙◌, inl, inr, Bool, true, false, Option, none, some, List, [],
  ◌∷◌, ltb, nat_eq, string_eq, Bool-cases, All, contains,
}
use vscfreedev.Protocol.Bytes.{Bytes}
use vscfreedev.Session.Metrics.{Floats}
use vscfreedev.Daemon.{DaemonRequest, DaemonResponse}
use vscfreedev.Daemon.Handler.{Texts, handle_request}
use vscfreedev.Daemon.Server.{
  DaemonServer, Listening, Input, received, lost, is_shutdown, Event, connection, accept_failure,
  input, cleanup, tick, step, run, counted, client_turn, requested, handled, respond, farewell,
  checked, served, Message,
}

module _ (fl : Floats) (tx : Texts) (decode : Bytes → Option DaemonRequest)
    (encode : DaemonResponse → Option Bytes) where
  abbrev State : Type 0
  State = Listening fl tx

  pub respond-server :
      (s : DaemonServer fl tx) (d : Bool) (o : Option Bytes)
      → (respond fl tx decode encode s d o).server ≡ s
  unfolding respond
  respond-server s d none = refl
  respond-server s true (some b) = refl
  respond-server s false (some b) = refl

  pub farewell-server :
      (s : DaemonServer fl tx) (d : Bool) (o : Option Bytes)
      → (farewell fl tx decode encode s d o).server ≡ s
  unfolding farewell
  farewell-server s d none = refl
  farewell-server s true (some b) = refl
  farewell-server s false (some b) = refl

  -- A shutdown that was asked for stays so, whatever the clients send.
  requested-shutdown :
      (s : DaemonServer fl tx) (m : Message) (o : Option DaemonRequest)
      → s.shutdown ≡ true
      → (requested fl tx decode encode s m o).server.shutdown ≡ true
  unfolding requested handled
  requested-shutdown s m none h = h
  requested-shutdown s m (some q) h = elim (Bool-cases (is_shutdown q)) [
    | inl yes' ↦
        rw (requested, yes')
          (ap (λ t. t.shutdown) (farewell-server (record s { shutdown = true }) m.delivers _))
    | inr no' ↦
        let (h', r) = handle_request fl tx s.request_handler m.now m.new_id q in
        rw (requested, no')
          (ap (λ t. t.shutdown)
              (respond-server (record s { request_handler = h' }) m.delivers (encode r))
            ∙ h)
  ]

  turn-shutdown :
      (s : DaemonServer fl tx) (i : Input)
      → s.shutdown ≡ true
      → (client_turn fl tx decode encode s i).server.shutdown ≡ true
  unfolding client_turn
  turn-shutdown s (received m) h = requested-shutdown s m (decode m.bytes) h
  turn-shutdown s lost h = h

  -- The events of the other tasks than the accept loop.
  abbrev pub is_aside : Event fl tx decode encode → Bool
  is_aside (input id i) = true
  is_aside (cleanup now) = true
  is_aside _ = false

  abbrev Waits : State → Type 0
  Waits s = (s.server.shutdown ≡ true) × (s.running ≡ true)

  step-Waits :
      (s : State) (e : Event fl tx decode encode)
      → Waits s
      → is_aside e ≡ true
      → Waits (step fl tx decode encode s e).0
  unfolding step served tick
  step-Waits s connection w i = cc
  step-Waits s accept_failure w i = cc
  step-Waits s (cleanup now) w i = w
  step-Waits s (input id i) (asked, on) _ = elim (Bool-cases (contains id s.clients)) [
    | inl yes' ↦ rw (step, yes') (turn-shutdown s.server i asked, on)
    | inr no' ↦ rw (step, no') (asked, on)
  ]

  stopped :
      (s : State) (n : ℕ)
      → s.server.shutdown ≡ true
      → (counted fl tx decode encode s n).0.running ≡ false
  unfolding counted checked
  stopped s n asked = elim (Bool-cases (ltb s.server.config.max_clients n)) [
    | inl yes' ↦ rw (counted, yes', asked) refl
    | inr no' ↦ rw (counted, no', asked) refl
  ]

  -- A server that waits for a connection while a shutdown is asked for goes on waiting, whatever the
  -- clients send and however often the cleanup task runs; with the next connection its loop ends.
  pub run-waits :
      (es : List (Event fl tx decode encode)) (s : State)
      → s.server.shutdown ≡ true
      → s.running ≡ true
      → All (λ e. is_aside e ≡ true) es
      → ((run fl tx decode encode s es).0.running ≡ true)
        × ((step fl tx decode encode (run fl tx decode encode s es).0 connection).0.running ≡ false)
  unfolding run step
  run-waits [] s asked on inputs = (on, rw on (stopped s ((s.client_count + 1) % 2 ^ 32) asked))
  run-waits (e ∷ es) s asked on (i, inputs) =
      let (asked', on') = step-Waits s e (asked, on) i in
      run-waits es (step fl tx decode encode s e).0 asked' on' inputs
