-- ===== src/Remote/Server/Stops/Again.antt =====
-- A relay that ends after its forward was stopped (crates/remote/src/main.rs).
use vscfreedev.Base.{
  ℕ, String, ◌≡◌, refl, sym, ap, ◌∙◌, inl, inr, true, false, Option, none, some, List, [], ◌∷◌,
  ◌++◌, map, arith, nat_eq, string_eq, beq_refl, Bool-cases, contains,
}
use vscfreedev.Base.Table.{lookup, keys, lookup-insert}
use vscfreedev.Errors.{YuhaError}
use vscfreedev.Protocol.Bytes.{Bytes, append_assoc, append_nil}
use vscfreedev.Protocol.Buffer.{
  close_connection, add_close_connection, port_forward_data, add_port_forward_data,
}
use vscfreedev.Protocol.Messages.{ProtocolRequest}
use vscfreedev.Remote.Server.{
  RemoteServer, Event, requests, closes, ends, tells_end, relays_from, to_close, closed_one,
  target_read, relay_from_target, relay_ended, end_relay, told, tell_end, blocked, act, step, run,
}
use vscfreedev.Remote.Server.Valid.{IsValid}
use vscfreedev.Remote.Server.Queue.{buffered}
use vscfreedev.Remote.Server.Forwards.{served_relay}
use vscfreedev.Remote.Server.Stops.{step-closes, stops, contains-keys}

module _ (scheme : String → Option String) (text : YuhaError → String) where
  -- The steps of a stopped forward with nothing between them.
  finished : RemoteServer → List ℕ → RemoteServer
  finished s [] = record s { closing = none }
  finished s (id ∷ ids) = finished (closed_one s id) ids

  finished-closing :
      (ids : List ℕ) (s : RemoteServer) (o : Option (List ℕ))
      → finished (record s { closing = o }) ids ≡ finished s ids
  unfolding finished
  finished-closing [] s o = refl
  finished-closing (id ∷ ids) s o = finished-closing ids (closed_one s id) o

  finished-rest :
      (ids : List ℕ) (s : RemoteServer)
      → (buffered (finished s ids) ≡ buffered s ++ map close_connection ids)
        × ((finished s ids).relays ≡ s.relays)
        × ((finished s ids).closing ≡ none)
  unfolding finished add_close_connection
  finished-rest [] s = (sym (append_nil (buffered s)), refl, refl)
  finished-rest (id ∷ ids) s =
      let (items, relays, done) = finished-rest ids (closed_one s id) in
      (
        items ∙ append_assoc (buffered s) (close_connection id ∷ []) (map close_connection ids),
        relays,
        done,
      )

  abbrev pub each_closes : List ℕ → List Event → List Event
  each_closes [] es = es
  each_closes (id ∷ ids) es = closes ∷ each_closes ids es

  run-each_closes :
      (ids : List ℕ) (s : RemoteServer) (es : List Event)
      → (run scheme text (to_close s ids).0 (each_closes ids es)).0
        ≡ (run scheme text (finished s ids) es).0
  unfolding to_close run finished
  run-each_closes [] s es = refl
  run-each_closes (id ∷ ids) s es =
      let s' = record s { closing = some (id ∷ ids) } in
      ap (λ p. (run scheme text p.0 (each_closes ids es)).0)
        (step-closes scheme text s' id ids refl).0
      ∙ run-each_closes ids (closed_one s' id) es
      ∙ ap (λ t. (run scheme text t es).0) (finished-closing ids (closed_one s id) _)

  freely :
      (s : RemoteServer) (e : Event) → s.closing ≡ none → step scheme text s e ≡ act scheme text s e
  unfolding step
  freely s e idle = let free : blocked s e ≡ false = rw idle refl in rw (step, free) refl

  -- Data and the end of a running relay, while no forward is being stopped.
  relay-ends :
      (s : RemoteServer) (id : ℕ) (bytes : Bytes) (queue : List Bytes)
      → s.closing ≡ none
      → lookup id s.relays ≡ some queue
      → buffered (run scheme text s (relays_from id bytes ∷ ends id ∷ tells_end id ∷ [])).0
        ≡ (buffered s ++ (port_forward_data id bytes ∷ [])) ++ (close_connection id ∷ [])
  unfolding run act relay_from_target target_read end_relay relay_ended tell_end told
      add_close_connection add_port_forward_data
  relay-ends s id bytes queue idle running =
      let s1 = target_read s id bytes (some queue) in
      let s2 = relay_ended s1 id (some queue) in
      let held : lookup id s2.leaving ≡ some tt =
        lookup-insert id id tt s.leaving ∙ rw (beq_refl id) refl in
      ap (λ p. buffered (run scheme text p.0 (ends id ∷ tells_end id ∷ [])).0)
        (freely s (relays_from id bytes) idle ∙ ap (λ o. (target_read s id bytes o, none)) running)
      ∙ ap (λ p. buffered (run scheme text p.0 (tells_end id ∷ [])).0)
          (freely s1 (ends id) idle ∙ ap (λ o. (relay_ended s1 id o, none)) running)
      ∙ ap (λ p. buffered p.0) (freely s2 (tells_end id) idle ∙ ap (λ o. (told s2 id o, none)) held)

  -- On a valid server that knows a connection, a schedule in which a forward is stopped without
  -- anything between, and then the connection's target sends data and its relay ends, puts into the
  -- buffer the closing items of all known connections, that of this one among them, then the data,
  -- and then a second closing item for it.
  pub end_relay-closes_again :
      (s : RemoteServer) (bind_error : Option String) (port id : ℕ) (bytes : Bytes)
      → IsValid s
      → s.closing ≡ none
      → lookup id s.active_connections ≡ some tt
      → (contains id (keys s.active_connections) ≡ true)
        × (buffered
              (run scheme text s (
                requests bind_error (ProtocolRequest.stop_port_forward port)
                ∷ each_closes
                    (keys s.active_connections)
                    (relays_from id bytes ∷ ends id ∷ tells_end id ∷ []))).0
            ≡ buffered s
              ++ (map close_connection (keys s.active_connections)
                  ++ (port_forward_data id bytes ∷ close_connection id ∷ [])))
  unfolding run
  end_relay-closes_again s b port id bytes v idle known =
      let ids = keys s.active_connections in
      let (queue, found) = served_relay s id v known in
      let (items, relays, done) = finished-rest ids s in
      let running : lookup id (finished s ids).relays ≡ some queue =
        ap (λ m. lookup id m) relays ∙ found in
      let last = relays_from id bytes ∷ ends id ∷ tells_end id ∷ [] in
      (
        elim (Bool-cases (contains id ids)) [
          | inl there ↦ there
          | inr absent ↦
              absurd (ground (arith, contains-keys scheme text s.active_connections id absent))
        ],
        ap (λ p. buffered (run scheme text p.0 (each_closes ids last)).0)
              (stops scheme text s b port idle)
            ∙ ap (λ t. buffered t) (run-each_closes ids s last)
            ∙ relay-ends (finished s ids) id bytes queue done running
            ∙ ap (λ xs. (xs ++ (port_forward_data id bytes ∷ [])) ++ (close_connection id ∷ []))
                items
            ∙ append_assoc (buffered s ++ map close_connection ids)
                (port_forward_data id bytes ∷ []) (close_connection id ∷ [])
            ∙ append_assoc (buffered s) (map close_connection ids)
                (port_forward_data id bytes ∷ close_connection id ∷ []),
      )
