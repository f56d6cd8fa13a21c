-- ===== src/Daemon/Client.antt =====
-- crates/client/src/daemon_client.rs: the client of the daemon, over the message channel
-- (Protocol/Channel). The JSON of serde_json and what `Display` prints of an error are arguments,
-- and so is what becomes of the writes of a request.
pub mod SessionClient
mod Tests
use Prim.Native.String.{◌++◌ as ◌<>◌}
use vscfreedev.Base.{
  ℕ, zero, suc, ◌+◌, ◌-◌, ◌*◌, ◌/◌, ◌%◌, ◌^◌, ◌≤◌, ◌<◌, min, max, String, ◌≡◌, refl, sym, ap, subst,
  ◌∙◌, ◌≢◌, ◌↔◌, ◌⊎◌, inl, inr, Bool, true, false, not, ◌&&◌, ◌||◌, Option, none, some, List, [],
  ◌∷◌, ◌++◌, map, arith, ltb, leb, if◌then◌else◌, Eq, ◌==◌, nat_beq, nat_beq_iff, nat_eq, string_eq,
  beq_refl, Bool-cases, Option-cases, length, is_empty, retain, All, every, exists, contains, count,
  without, length-append, length-retain-le, count-append, count-without, length-without-le,
}
use vscfreedev.Errors.{Result, ok, err, YuhaError}
use vscfreedev.Transport.{TransportConfig}
use vscfreedev.Session.{SessionId}
use vscfreedev.Protocol.Bytes.{Bytes}
use vscfreedev.Protocol.Channel.{MessageChannel, Writes, send, receive}
use vscfreedev.Protocol.Channel.Typed.{Json}
use vscfreedev.Daemon.{
  DaemonCommand, DaemonRequest, DaemonResponse, CommandResult, ErrorCode, SessionSummary,
  SessionDetails,
}

-- `ClientError` of crates/client/src/lib.rs; the errors of the libraries are kept as their texts.
pub data ClientError : Type 0 where
  ssh io connection remote_execution channel key binary_transfer : String → ClientError
  daemon_error : ErrorCode → String → ClientError

pub data ClientResult {ℓ} (A : Type ℓ) : Type ℓ where
  success : A → ClientResult A
  failure : ClientError → ClientResult A

abbrev channel_failure : {A : Type 0} → String → String → ClientResult A
channel_failure what e = failure (ClientError.channel (what <> e))

abbrev pub unexpected : {A : Type 0} → ClientResult A
unexpected = failure (ClientError.channel "Unexpected response from daemon")

-- What is made of a response that is not an error, by what the caller's closure gives.
expected_or : {A : Type 0} → Option A → ClientResult A
expected_or (some a) = success a
expected_or none = unexpected

unfoldable pub handle_daemon_response :
    {A : Type 0} → DaemonResponse → (DaemonResponse → Option A) → ClientResult A
unfolding expected_or
handle_daemon_response (DaemonResponse.error code message) success_handler =
    failure (ClientError.daemon_error code message)
handle_daemon_response DaemonResponse.pong f = expected_or (f DaemonResponse.pong)
handle_daemon_response (DaemonResponse.session_created id reused) f =
    expected_or (f (DaemonResponse.session_created id reused))
handle_daemon_response DaemonResponse.session_disconnected f =
    expected_or (f DaemonResponse.session_disconnected)
handle_daemon_response (DaemonResponse.session_list sessions) f =
    expected_or (f (DaemonResponse.session_list sessions))
handle_daemon_response (DaemonResponse.session_info session) f =
    expected_or (f (DaemonResponse.session_info session))
handle_daemon_response (DaemonResponse.command_success result) f =
    expected_or (f (DaemonResponse.command_success result))
handle_daemon_response DaemonResponse.shutting_down f = expected_or (f DaemonResponse.shutting_down)

-- The closures of the requests.
created_of : DaemonResponse → Option (SessionId × Bool)
created_of (DaemonResponse.session_created id reused) = some (id, reused)
created_of _ = none

disconnected_of : DaemonResponse → Option (Unit {0})
disconnected_of DaemonResponse.session_disconnected = some tt
disconnected_of _ = none

sessions_of : DaemonResponse → Option (List SessionSummary)
sessions_of (DaemonResponse.session_list sessions) = some sessions
sessions_of _ = none

details_of : DaemonResponse → Option SessionDetails
details_of (DaemonResponse.session_info session) = some session
details_of _ = none

command_result_of : DaemonResponse → Option CommandResult
command_result_of (DaemonResponse.command_success result) = some result
command_result_of _ = none

shutting_down_of : DaemonResponse → Option (Unit {0})
shutting_down_of DaemonResponse.shutting_down = some tt
shutting_down_of _ = none

-- What each operation makes of the daemon's response.
unfoldable pub ping_result : DaemonResponse → ClientResult Bool
ping_result DaemonResponse.pong = success true
ping_result _ = success false

unfoldable pub created_result : DaemonResponse → ClientResult (SessionId × Bool)
unfolding created_of
created_result r = handle_daemon_response r created_of

unfoldable pub disconnected_result : DaemonResponse → ClientResult (Unit {0})
unfolding disconnected_of
disconnected_result r = handle_daemon_response r disconnected_of

unfoldable pub sessions_result : DaemonResponse → ClientResult (List SessionSummary)
unfolding sessions_of
sessions_result r = handle_daemon_response r sessions_of

unfoldable pub details_result : DaemonResponse → ClientResult SessionDetails
unfolding details_of
details_result r = handle_daemon_response r details_of

-- The `match` of the last two operations, which is that of `handle_daemon_response`.
unfoldable pub executed_result : DaemonResponse → ClientResult CommandResult
unfolding command_result_of
executed_result r = handle_daemon_response r command_result_of

unfoldable pub shutdown_result : DaemonResponse → ClientResult (Unit {0})
unfolding shutting_down_of
shutdown_result r = handle_daemon_response r shutting_down_of

-- `?` on the result of `send_request`.
asked :
    {A : Type 0}
    → (DaemonResponse → ClientResult A)
    → MessageChannel × ClientResult DaemonResponse
    → MessageChannel × ClientResult A
asked result (c, success r) = (c, result r)
asked result (c, failure e) = (c, failure e)

module _ (requests : Json DaemonRequest) (responses : Json DaemonResponse)
    (error_text : YuhaError → String) where
  response_read : String ⊎ DaemonResponse → ClientResult DaemonResponse
  response_read (inl e) = channel_failure "Failed to deserialize response: " e
  response_read (inr r) = success r

  response_received : MessageChannel × Result Bytes → MessageChannel × ClientResult DaemonResponse
  unfolding response_read
  response_received (c, err e) = (c, channel_failure "Failed to receive response: " (error_text e))
  response_received (c, ok payload) = (c, response_read (responses.from_slice payload))

  request_sent : MessageChannel × Result (Unit {0}) → MessageChannel × ClientResult DaemonResponse
  unfolding response_received
  request_sent (c, err e) = (c, channel_failure "Failed to send request: " (error_text e))
  request_sent (c, ok _) = response_received (receive c)

  request_packed :
      MessageChannel → Writes → String ⊎ Bytes → MessageChannel × ClientResult DaemonResponse
  unfolding request_sent
  request_packed c w (inl e) = (c, channel_failure "Failed to serialize request: " e)
  request_packed c w (inr payload) = request_sent (send c payload w)

  unfoldable pub send_request :
      MessageChannel → Writes → DaemonRequest → MessageChannel × ClientResult DaemonResponse
  unfolding request_packed
  send_request c w q = request_packed c w (requests.to_vec q)

  unfoldable pub ping : MessageChannel → Writes → MessageChannel × ClientResult Bool
  unfolding asked
  ping c w = asked ping_result (send_request c w DaemonRequest.ping)

  unfoldable pub create_session :
      MessageChannel
      → Writes
      → String
      → TransportConfig
      → List String
      → Option String
      → MessageChannel × ClientResult (SessionId × Bool)
  unfolding asked
  create_session c w name tc tags description =
      asked created_result
        (send_request c w (DaemonRequest.create_session name tc tags description))

  unfoldable pub connect_session :
      MessageChannel
      → Writes
      → String
      → TransportConfig
      → MessageChannel × ClientResult (SessionId × Bool)
  unfolding asked
  connect_session c w name tc =
      asked created_result (send_request c w (DaemonRequest.connect_session name tc))

  unfoldable pub disconnect_session :
      MessageChannel → Writes → SessionId → MessageChannel × ClientResult (Unit {0})
  unfolding asked
  disconnect_session c w id =
      asked disconnected_result (send_request c w (DaemonRequest.disconnect_session id))

  unfoldable pub list_sessions :
      MessageChannel → Writes → MessageChannel × ClientResult (List SessionSummary)
  unfolding asked
  list_sessions c w = asked sessions_result (send_request c w DaemonRequest.list_sessions)

  unfoldable pub get_session_info :
      MessageChannel → Writes → SessionId → MessageChannel × ClientResult SessionDetails
  unfolding asked
  get_session_info c w id =
      asked details_result (send_request c w (DaemonRequest.get_session_info id))

  unfoldable pub execute_command :
      MessageChannel
      → Writes
      → SessionId
      → DaemonCommand
      → MessageChannel × ClientResult CommandResult
  unfolding asked
  execute_command c w id command =
      asked executed_result (send_request c w (DaemonRequest.execute_command id command))

  unfoldable pub shutdown : MessageChannel → Writes → MessageChannel × ClientResult (Unit {0})
  unfolding asked
  shutdown c w = asked shutdown_result (send_request c w DaemonRequest.shutdown)
