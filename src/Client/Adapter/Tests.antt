-- ===== src/Client/Adapter/Tests.antt =====
-- Tests of the SSH channel's stream, and an instance of its theorem
-- (crates/client/src/transport/ssh.rs).
use vscfreedev.Base.{◌≡◌, refl, true, false, List, [], ◌∷◌, ◌++◌, nat_eq, string_eq}
use vscfreedev.Client.Adapter.{new, data_arrives, poll_read}
use vscfreedev.Client.Adapter.Stream.{Event, arrives, reads, run, held, arrived, run-queues_bytes}

-- Reads of other sizes than the messages have.
abbrev session : List Event
session = arrives (1 ∷ 2 ∷ 3 ∷ []) ∷ reads 2 ∷ arrives (4 ∷ []) ∷ reads 5 ∷ reads 5 ∷ reads 5 ∷ []

session-given : (run new session).1 ≡ 1 ∷ 2 ∷ 3 ∷ 4 ∷ []
unfolding new data_arrives poll_read vscfreedev.Protocol.Bytes.take vscfreedev.Protocol.Bytes.drop
session-given = refl

-- An empty message from the server ends the read as the end of the stream does, with more behind it.
empty-read :
    (poll_read (data_arrives (data_arrives new []) (5 ∷ [])) 8).1
    ≡ (poll_read (record new { sending = false }) 8).1
unfolding new data_arrives poll_read vscfreedev.Protocol.Bytes.take
empty-read = refl

new-sending : new.sending ≡ true
unfolding new
new-sending = refl

run-queues_bytes_example :
    (run new session).1 ++ held (run new session).0 ≡ held new ++ arrived session
run-queues_bytes_example = run-queues_bytes session new new-sending
