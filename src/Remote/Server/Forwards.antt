-- ===== src/Remote/Server/Forwards.antt =====
-- What the remote server does with the data for forwarded connections
-- (crates/remote/src/main.rs).
use vscfreedev.Base.{
  ℕ, ◌≡◌, refl, ◌≢◌, ◌⊎◌, inl, inr, none, some, List, [], ◌∷◌, ◌++◌, arith, nat_beq_iff, nat_eq,
  string_eq, beq_refl, Option-cases,
}
use vscfreedev.Base.Table.{lookup, lookup-insert}
use vscfreedev.Protocol.Bytes.{Bytes}
use vscfreedev.Protocol.Messages.{ProtocolResponse}
use vscfreedev.Remote.Server.{RemoteServer, sent, forwarded, forward_data}
use vscfreedev.Remote.Server.Valid.{IsValid}

pub served_relay :
    (s : RemoteServer) (id : ℕ)
    → IsValid s
    → lookup id s.active_connections ≡ some tt
    → (queue : List Bytes) × (lookup id s.relays ≡ some queue)
served_relay s id v known = elim (Option-cases (lookup id s.relays)) [
  | inl gone ↦ absurd (ground (arith, v.served id gone))
  | inr found ↦ found
]

-- On a valid server data for a connection is always answered with success. For a connection that
-- the server knows, the data then waits last in the connection's channel, and nothing waits
-- elsewhere that did not before; for any other, the data is dropped and nothing changes.
pub forward_data-result :
    (s : RemoteServer) (id : ℕ) (bytes : Bytes)
    → IsValid s
    → ((forward_data s id bytes).1 ≡ ProtocolResponse.success)
      × (((queue : List Bytes) × (lookup id s.active_connections ≡ some tt)
            × (lookup id s.relays ≡ some queue)
            × (lookup id (forward_data s id bytes).0.relays ≡ some (queue ++ (bytes ∷ [])))
            × ((j : ℕ) → j ≢ id → lookup j (forward_data s id bytes).0.relays ≡ lookup j s.relays))
          ⊎ ((lookup id s.active_connections ≡ none) × ((forward_data s id bytes).0 ≡ s)))
unfolding forward_data forwarded sent
forward_data-result s id bytes v = elim (Option-cases (lookup id s.active_connections)) [
  | inl unknown ↦ (rw unknown refl, inr (unknown, rw unknown refl))
  | inr (_, known) ↦
      let (queue, found) = served_relay s id v known in
      (
        rw (known, found) refl,
        inl (
          queue,
          known,
          found,
          rw (known, found, lookup-insert id id (queue ++ (bytes ∷ [])) s.relays, beq_refl id) refl,
          λ j other.
              rw (known, found, lookup-insert id j (queue ++ (bytes ∷ [])) s.relays)
                (ground (arith, nat_beq_iff id j, other)),
        ),
      )
]
