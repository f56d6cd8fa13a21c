-- ===== src/Protocol/Buffer/Tests.antt =====
-- Instances of the theorems of the protocol buffers (crates/core/src/protocol/buffer.rs).
use vscfreedev.Protocol.Buffer.{
  MessageBuffer, ResponseItem, new_connection, close_connection, clipboard_content,
}
use vscfreedev.Base.{ℕ, some, List, [], ◌∷◌, nat_eq, string_eq}

abbrev numbers : List ℕ
numbers = 4 ∷ 5 ∷ 6 ∷ []

abbrev narrow : MessageBuffer ℕ
narrow = record { items = []; max_capacity = some 0 }

abbrev responses : List ResponseItem
responses =
    new_connection 1 80 ∷ new_connection 2 81 ∷ clipboard_content "text" ∷ close_connection 1 ∷ []
