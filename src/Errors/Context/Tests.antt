-- ===== src/Errors/Context/Tests.antt =====
-- Tests of the context of errors (crates/core/src/error/context.rs).
use vscfreedev.Base.{◌≡◌, refl, some, nat_eq, string_eq}
use vscfreedev.Base.Table.{insert, lookup}
use vscfreedev.Errors.{YuhaError, ProtocolError, category}
use vscfreedev.Errors.Context.{new, with_host, with_metadata, with_session_id, with_operation, text}

-- The later value of a key is kept, beside the other keys.
host_replaced :
    lookup "host"
      (with_host (with_session_id (with_host (new 5 "connect" "ssh") "a") "7") "b").metadata
    ≡ some "b"
unfolding new with_host with_session_id with_metadata insert lookup
host_replaced = refl

closed_text :
    text
      (λ e. "closed")
      (λ m. "{}")
      (with_operation (YuhaError.protocol ProtocolError.channel_closed) 5 "receive" "channel")
    ≡ "[channel:receive] protocol: closed (metadata: {})"
unfolding text with_operation new category
closed_text = refl
