-- ===== src/Protocol/Buffer.antt =====
-- crates/core/src/protocol/buffer.rs: the buffer of response items and the bounded message
-- buffer. A panic is `none`.
mod Tests
pub mod Capacity
pub mod Connections
use vscfreedev.Base.{
  ℕ, zero, suc, ◌+◌, ◌-◌, ◌*◌, ◌/◌, ◌%◌, ◌^◌, ◌≤◌, ◌<◌, min, max, String, ◌≡◌, refl, sym, ap, subst,
  ◌∙◌, ◌≢◌, ◌↔◌, ◌⊎◌, inl, inr, Bool, true, false, not, ◌&&◌, ◌||◌, Option, none, some, List, [],
  ◌∷◌, ◌++◌, map, arith, ltb, leb, if◌then◌else◌, Eq, ◌==◌, nat_beq, nat_beq_iff, nat_eq, string_eq,
  beq_refl, Bool-cases, Option-cases, length, is_empty, retain, All, every, exists, contains, count,
  without, length-append, length-retain-le, count-append, count-without, length-without-le,
}
use vscfreedev.Base.Table.{Table, insert, remove, contains_key}
use vscfreedev.Protocol.Bytes.{Bytes}

pub data ResponseItem : Type 0 where
  port_forward_data : ℕ → Bytes → ResponseItem
  new_connection : ℕ → ℕ → ResponseItem
  close_connection : ℕ → ResponseItem
  clipboard_content : String → ResponseItem

pub record ResponseBuffer : Type 0 where
  pub items : List ResponseItem
  pub pending_connections : Table ℕ ℕ
  pub closed_connections : List ℕ

unfoldable pub empty_buffer : ResponseBuffer
empty_buffer = record { items = []; pending_connections = []; closed_connections = [] }

abbrev pub add_response : ResponseBuffer → ResponseItem → ResponseBuffer
add_response b item = record b { items = b.items ++ (item ∷ []) }

unfoldable pub add_new_connection : ResponseBuffer → ℕ → ℕ → ResponseBuffer
add_new_connection b id port =
    add_response (record b { pending_connections = insert id port b.pending_connections })
      (new_connection id port)

unfoldable pub add_close_connection : ResponseBuffer → ℕ → ResponseBuffer
add_close_connection b id =
    add_response
      (record b {
        pending_connections = remove id b.pending_connections;
        closed_connections = b.closed_connections ++ (id ∷ []);
      })
      (close_connection id)

unfoldable pub add_port_forward_data : ResponseBuffer → ℕ → Bytes → ResponseBuffer
add_port_forward_data b id bytes = add_response b (port_forward_data id bytes)

unfoldable pub add_clipboard_content : ResponseBuffer → String → ResponseBuffer
add_clipboard_content b content = add_response b (clipboard_content content)

abbrev pub is_connection_active : ResponseBuffer → ℕ → Bool
is_connection_active b id = contains_key id b.pending_connections

unfoldable pub take_responses : ResponseBuffer → ResponseBuffer × List ResponseItem
take_responses b = (record b { items = [] }, b.items)

unfoldable pub clear_responses : ResponseBuffer → ResponseBuffer
clear_responses b = empty_buffer

pub record MessageBuffer {ℓ} (T : Type ℓ) : Type ℓ where
  pub items : List T
  pub max_capacity : Option ℕ

full_at : ℕ → Option ℕ → Bool
full_at n none = false
full_at n (some capacity) = leb capacity n

module _ {ℓ} {T : Type ℓ} where
  unfoldable pub new : MessageBuffer T
  new = record { items = []; max_capacity = none }

  unfoldable pub with_capacity : ℕ → MessageBuffer T
  with_capacity capacity = record { items = []; max_capacity = some capacity }

  unfoldable pub is_full : MessageBuffer T → Bool
  unfolding full_at
  is_full b = full_at (length b.items) b.max_capacity

  -- `Vec::remove(0)`, which panics on an empty vector.
  pub remove_first : List T → Option (List T)
  remove_first [] = none
  remove_first (x ∷ xs) = some xs

  make_room : List T → Option ℕ → Option (List T)
  unfolding remove_first
  make_room xs none = some xs
  make_room xs (some max_cap) = if leb max_cap (length xs) then remove_first xs else some xs

  push : MessageBuffer T → T → Option (List T) → Option (MessageBuffer T)
  push b item none = none
  push b item (some xs) = some (record b { items = xs ++ (item ∷ []) })

  unfoldable pub add_item : MessageBuffer T → T → Option (MessageBuffer T)
  unfolding push make_room
  add_item b item = push b item (make_room b.items b.max_capacity)

  abbrev pub has_data : MessageBuffer T → Bool
  has_data b = not (is_empty b.items)

  unfoldable pub take_items : MessageBuffer T → MessageBuffer T × List T
  take_items b = (record b { items = [] }, b.items)

  unfoldable pub clear : MessageBuffer T → MessageBuffer T
  clear b = record b { items = [] }
