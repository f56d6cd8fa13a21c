-- ===== src/Daemon/Client/Tests.antt =====
-- Tests of the client of the daemon (crates/client/src/daemon_client.rs).
use vscfreedev.Base.{◌≡◌, refl, inl, inr, true, [], ◌∷◌, nat_eq, string_eq}
use vscfreedev.Protocol.Bytes.{Bytes}
use vscfreedev.Protocol.Channel.{MessageChannel, new_with_stream, send, receive}
use vscfreedev.Protocol.Channel.Exchange.{accepting}
use vscfreedev.Protocol.Channel.Frames.{reads_of}
use vscfreedev.Protocol.Channel.Typed.{Json}
use vscfreedev.Daemon.{DaemonRequest, DaemonResponse}
use vscfreedev.Daemon.Client.{
  success, ping, send_request, ping_result, handle_daemon_response, shutdown, shutdown_result,
  unexpected,
}

-- One byte for a request and one for a response.
abbrev request_byte : DaemonRequest → Bytes
request_byte DaemonRequest.ping = 1 ∷ []
request_byte _ = 2 ∷ []

abbrev requests : Json DaemonRequest
requests = record { to_vec = λ q. inr (request_byte q); from_slice = λ b. inl "unused" }

abbrev responses : Json DaemonResponse
responses = record { to_vec = λ r. inl "unused"; from_slice = λ b. inr DaemonResponse.pong }

-- A stream on which the daemon answers with one byte.
abbrev channel : MessageChannel
channel = new_with_stream (reads_of ((0 ∷ 1 ∷ 9 ∷ []) ∷ []))

answered_ping : (ping requests responses (λ e. "error") channel accepting).1 ≡ success true
unfolding ping send_request ping_result send receive new_with_stream
answered_ping = refl

-- The shutdown is not answered with a pong.
unexpected_pong : (shutdown requests responses (λ e. "error") channel accepting).1 ≡ unexpected
unfolding shutdown send_request shutdown_result handle_daemon_response send receive new_with_stream
unexpected_pong = refl
