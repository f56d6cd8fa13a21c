-- ===== src/Daemon/Server/Counting.antt =====
-- How many connections the daemon serves (crates/client/src/daemon/server.rs).
use vscfreedev.Base.{
  ℕ, suc, ◌+◌, ◌%◌, ◌^◌, ◌<◌, min, ◌≡◌, refl, ap, ◌∙◌, inl, inr, Bool, true, false, ◌&&◌, Option,
  none, some, List, [], ◌∷◌, ◌++◌, arith, ltb, if◌then◌else◌, nat_eq, string_eq, Bool-cases, length,
  contains,
}
use vscfreedev.Protocol.Bytes.{Bytes}
use vscfreedev.Session.Metrics.{Floats}
use vscfreedev.Daemon.{DaemonRequest, DaemonResponse}
use vscfreedev.Daemon.Handler.{Texts, handle_request}
use vscfreedev.Session.Manager
use vscfreedev.Daemon.Server.{
  with_manager, DaemonServer, Listening, Input, received, lost, is_shutdown, Event, connection,
  accept_failure, input, cleanup, tick, Output, accepted, refused, sent, step, run, counted,
  client_turn, requested, handled, checked, served, Message, listen,
}
use vscfreedev.Daemon.Server.Accepting.{respond-server, farewell-server}

module _ (fl : Floats) (tx : Texts) (decode : Bytes → Option DaemonRequest)
    (encode : DaemonResponse → Option Bytes) where
  abbrev State : Type 0
  State = Listening fl tx

  -- How many connections were accepted, and how many refused.
  abbrev pub accepted_in : List (Output fl tx decode encode) → ℕ
  accepted_in [] = 0
  accepted_in (accepted id ∷ os) = suc (accepted_in os)
  accepted_in (refused ∷ os) = accepted_in os
  accepted_in (sent id bytes ∷ os) = accepted_in os

  abbrev pub refused_in : List (Output fl tx decode encode) → ℕ
  refused_in [] = 0
  refused_in (accepted id ∷ os) = refused_in os
  refused_in (refused ∷ os) = suc (refused_in os)
  refused_in (sent id bytes ∷ os) = refused_in os

  accepted_in-append :
      (xs ys : List (Output fl tx decode encode))
      → (accepted_in (xs ++ ys) ≡ accepted_in xs + accepted_in ys)
        × (refused_in (xs ++ ys) ≡ refused_in xs + refused_in ys)
  accepted_in-append [] ys = (omega arith, omega arith)
  accepted_in-append (accepted id ∷ xs) ys =
      let (e, f) = accepted_in-append xs ys in (omega (arith, e), omega (arith, f))
  accepted_in-append (refused ∷ xs) ys =
      let (e, f) = accepted_in-append xs ys in (omega (arith, e), omega (arith, f))
  accepted_in-append (sent id bytes ∷ xs) ys =
      let (e, f) = accepted_in-append xs ys in (omega (arith, e), omega (arith, f))

  abbrev pub is_connection : Event fl tx decode encode → Bool
  is_connection connection = true
  is_connection _ = false

  -- The connections that come while the loop runs.
  abbrev pub takes : State → Event fl tx decode encode → ℕ
  takes s e = if is_connection e && s.running then 1 else 0

  abbrev pub connections : State → List (Event fl tx decode encode) → ℕ
  connections s [] = 0
  connections s (e ∷ es) = takes s e + connections (step fl tx decode encode s e).0 es

  abbrev limit : State → ℕ
  limit s = s.server.config.max_clients

  requested-config :
      (s : DaemonServer fl tx) (m : Message) (o : Option DaemonRequest)
      → (requested fl tx decode encode s m o).server.config ≡ s.config
  unfolding requested handled
  requested-config s m none = refl
  requested-config s m (some q) = elim (Bool-cases (is_shutdown q)) [
    | inl yes' ↦
        rw (requested, yes')
          (ap (λ t. t.config)
            (farewell-server fl tx decode encode (record s { shutdown = true }) m.delivers _))
    | inr no' ↦
        let (h', r) = handle_request fl tx s.request_handler m.now m.new_id q in
        rw (requested, no')
          (ap (λ t. t.config)
            (respond-server fl tx decode encode (record s { request_handler = h' }) m.delivers
              (encode r)))
  ]

  turn-config :
      (s : DaemonServer fl tx) (i : Input)
      → (client_turn fl tx decode encode s i).server.config ≡ s.config
  unfolding client_turn
  turn-config s (received m) = requested-config s m (decode m.bytes)
  turn-config s lost = refl

  checked-rest :
      (s : State)
      → (limit (checked fl tx decode encode s) ≡ limit s)
        × ((checked fl tx decode encode s).client_count ≡ s.client_count)
  unfolding checked
  checked-rest s = elim (Bool-cases s.server.shutdown) [
    | inl yes' ↦ rw (checked, yes') (refl, refl)
    | inr no' ↦ rw (checked, no') (refl, refl)
  ]

  -- What a step with `t` connections does to the count and puts out.
  abbrev Counts : State → ℕ → State × List (Output fl tx decode encode) → Type 0
  Counts s t (s', os) =
      (limit s' ≡ limit s)
      × (s'.client_count ≡ s.client_count + t)
      × (accepted_in os + min (limit s) s.client_count ≡ min (limit s) (s.client_count + t))
      × (accepted_in os + refused_in os ≡ t)

  counted-Counts :
      (s : State) (n : ℕ)
      → n ≡ s.client_count + 1
      → Counts s 1 ((counted fl tx decode encode s n).0, (counted fl tx decode encode s n).1 ∷ [])
  unfolding counted
  counted-Counts s n next = elim (Bool-cases (ltb (limit s) n)) [
    | inl full ↦
        let (same, count') = checked-rest (record s { client_count = n }) in
        rw (counted, full) (same, count' ∙ next, ground (arith, next, full), omega arith)
    | inr room ↦
        let (same, count') =
          checked-rest (record s { client_count = n; clients = n ∷ s.clients }) in
        rw (counted, room) (same, count' ∙ next, ground (arith, next, room), omega arith)
  ]

  idle-Counts :
      (s s' : State) → limit s' ≡ limit s → s'.client_count ≡ s.client_count → Counts s 0 (s', [])
  idle-Counts s s' e f = (e, omega (arith, f), omega arith, omega arith)

  step-Counts :
      (s : State) (e : Event fl tx decode encode)
      → s.client_count + 1 < 2 ^ 32
      → Counts s (takes s e) (step fl tx decode encode s e)
  unfolding step served tick
  step-Counts s connection small = elim (Bool-cases s.running) [
    | inl yes' ↦
        rw (step, yes') (counted-Counts s ((s.client_count + 1) % 2 ^ 32) (omega (arith, small)))
    | inr no' ↦ rw (step, no') (idle-Counts s s refl refl)
  ]
  step-Counts s accept_failure small = elim (Bool-cases s.running) [
    | inl yes' ↦
        let (same, count') = checked-rest s in
        rw (step, yes') (idle-Counts s (checked fl tx decode encode s) same count')
    | inr no' ↦ rw (step, no') (idle-Counts s s refl refl)
  ]
  step-Counts s (input id i) small = elim (Bool-cases (contains id s.clients)) [
    | inl yes' ↦
        rw (step, yes')
          (ap (λ c. c.max_clients) (turn-config s.server i), omega arith, omega arith, omega arith)
    | inr no' ↦ rw (step, no') (idle-Counts s s refl refl)
  ]
  step-Counts s (cleanup now) small = (refl, omega arith, omega arith, omega arith)

  run-Counts :
      (es : List (Event fl tx decode encode)) (s : State)
      → s.client_count + length es < 2 ^ 32
      → Counts s (connections s es) (run fl tx decode encode s es)
  unfolding run
  run-Counts [] s small = (refl, omega arith, omega arith, omega arith)
  run-Counts (e ∷ es) s small =
      let (s', os) = step fl tx decode encode s e in
      let (same, count', room, all') = step-Counts s e (omega (arith, small)) in
      let small' : s'.client_count + length es < 2 ^ 32 = ground (arith, count', small) in
      let (same', count'', room', all'') = run-Counts es s' small' in
      let rest = (run fl tx decode encode s' es).1 in
      let (appended, appended') = accepted_in-append os rest in
      (
        same' ∙ same,
        omega (arith, count', count''),
        omega (arith, appended, room, room', same, count'),
        omega (arith, appended, appended', all', all''),
      )

  -- In all its life, of fewer events than a u32 counts, a daemon serves the first of its connections
  -- up to its largest number of clients, however many of them have left before the next one comes,
  -- and refuses all others.
  pub run-accepted :
      (server : DaemonServer fl tx) (es : List (Event fl tx decode encode))
      → length es < 2 ^ 32
      → (accepted_in (run fl tx decode encode (listen fl tx decode encode server) es).1
          ≡ min server.config.max_clients (connections (listen fl tx decode encode server) es))
        × (accepted_in (run fl tx decode encode (listen fl tx decode encode server) es).1
              + refused_in (run fl tx decode encode (listen fl tx decode encode server) es).1
            ≡ connections (listen fl tx decode encode server) es)
  unfolding listen
  run-accepted server es small =
      let start = listen fl tx decode encode server in
      let first : State = record {
        server = with_manager fl tx (Manager.start_cleanup_task fl) server;
        client_count = 0;
        clients = [];
        running = true;
      } in
      let (same, none') = checked-rest first in
      let (_, _, room, all') = run-Counts es start (omega (arith, small, none')) in
      (omega (arith, room, same, none'), all')
