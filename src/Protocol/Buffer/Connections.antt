-- ===== src/Protocol/Buffer/Connections.antt =====
-- What the response buffer knows of the connections (crates/core/src/protocol/buffer.rs).
use vscfreedev.Base.{
  ℕ, ◌≡◌, refl, sym, ap, ◌∙◌, Bool, true, false, List, [], ◌∷◌, ◌++◌, arith, if◌then◌else◌, ◌==◌,
  nat_eq, string_eq,
}
use vscfreedev.Base.Table.{lookup, lookup-insert, lookup-remove}
use vscfreedev.Protocol.Bytes.{append_assoc, append_nil}
use vscfreedev.Protocol.Buffer.{
  ResponseItem, port_forward_data, new_connection, close_connection, clipboard_content,
  ResponseBuffer, empty_buffer, add_new_connection, add_close_connection, add_port_forward_data,
  add_clipboard_content, is_connection_active,
}

unfoldable pub add : ResponseBuffer → ResponseItem → ResponseBuffer
add b (port_forward_data id bytes) = add_port_forward_data b id bytes
add b (new_connection id port) = add_new_connection b id port
add b (close_connection id) = add_close_connection b id
add b (clipboard_content content) = add_clipboard_content b content

unfoldable pub add_each : ResponseBuffer → List ResponseItem → ResponseBuffer
add_each b [] = b
add_each b (i ∷ is) = add_each (add b i) is

-- Whether the latest item about a connection opens it, if there is one.
abbrev pub latest_opens : ℕ → List ResponseItem → Bool → Bool
latest_opens id [] open' = open'
latest_opens id (new_connection j port ∷ is) open' =
    latest_opens id is (if j == id then true else open')
latest_opens id (close_connection j ∷ is) open' =
    latest_opens id is (if j == id then false else open')
latest_opens id (_ ∷ is) open' = latest_opens id is open'

add-active :
    (b : ResponseBuffer) (i : ResponseItem) (id : ℕ)
    → is_connection_active (add b i) id ≡ latest_opens id (i ∷ []) (is_connection_active b id)
unfolding add add_port_forward_data add_new_connection add_close_connection add_clipboard_content
add-active b (port_forward_data j bytes) id = refl
add-active b (new_connection j port) id =
    ground (arith, lookup-insert j id port b.pending_connections)
add-active b (close_connection j) id = ground (arith, lookup-remove j id b.pending_connections)
add-active b (clipboard_content content) id = refl

latest_opens-cons :
    (id : ℕ) (i : ResponseItem) (is : List ResponseItem) (o : Bool)
    → latest_opens id (i ∷ is) o ≡ latest_opens id is (latest_opens id (i ∷ []) o)
latest_opens-cons id (port_forward_data j bytes) is o = refl
latest_opens-cons id (new_connection j port) is o = refl
latest_opens-cons id (close_connection j) is o = refl
latest_opens-cons id (clipboard_content content) is o = refl

add_each-active :
    (b : ResponseBuffer) (is : List ResponseItem) (id : ℕ)
    → is_connection_active (add_each b is) id ≡ latest_opens id is (is_connection_active b id)
unfolding add_each
add_each-active b [] id = refl
add_each-active b (i ∷ is) id =
    add_each-active (add b i) is id
    ∙ (ap (latest_opens id is) (add-active b i id)
        ∙ sym (latest_opens-cons id i is (is_connection_active b id)))

add-items : (b : ResponseBuffer) (i : ResponseItem) → (add b i).items ≡ b.items ++ (i ∷ [])
unfolding add add_port_forward_data add_new_connection add_close_connection add_clipboard_content
add-items b (port_forward_data j bytes) = refl
add-items b (new_connection j port) = refl
add-items b (close_connection j) = refl
add-items b (clipboard_content content) = refl

add_each-items :
    (b : ResponseBuffer) (is : List ResponseItem) → (add_each b is).items ≡ b.items ++ is
unfolding add_each
add_each-items b [] = sym (append_nil b.items)
add_each-items b (i ∷ is) =
    add_each-items (add b i) is ∙ rw (add-items b i) (append_assoc b.items (i ∷ []) is)

-- Whatever is added to an empty response buffer, its items are those added, in their order, and
-- a connection is active exactly when an item opened it and no later item closed it.
pub add_each-empty_buffer :
    (is : List ResponseItem) (id : ℕ)
    → ((add_each empty_buffer is).items ≡ is)
      × (is_connection_active (add_each empty_buffer is) id ≡ latest_opens id is false)
unfolding empty_buffer lookup
add_each-empty_buffer is id = (add_each-items empty_buffer is, add_each-active empty_buffer is id)
