-- ===== src/Daemon/Client/SessionClient.antt =====
-- `DaemonSessionClient` of crates/client/src/daemon_client.rs: the commands of one session.
use vscfreedev.Base.{ℕ, String, Option, none, some, nat_eq, string_eq}
use vscfreedev.Errors.{YuhaError}
use vscfreedev.Session.{SessionId}
use vscfreedev.Protocol.Channel.{MessageChannel, Writes}
use vscfreedev.Protocol.Channel.Typed.{Json}
use vscfreedev.Daemon.{DaemonCommand, DaemonRequest, DaemonResponse, CommandResult}
use vscfreedev.Daemon.Client.{ClientError, ClientResult, success, failure, execute_command}

-- The client of the daemon is its message channel.
pub record DaemonSessionClient : Type 0 where
  pub daemon_client : MessageChannel
  pub session_id : SessionId

-- The `match` on the result of a command.
content_of : CommandResult → Option String
content_of (CommandResult.clipboard_content content) = some content
content_of _ = none

is_set : CommandResult → Option (Unit {0})
is_set CommandResult.clipboard_set = some tt
is_set _ = none

is_opened : CommandResult → Option (Unit {0})
is_opened CommandResult.browser_opened = some tt
is_opened _ = none

is_started : CommandResult → Option (Unit {0})
is_started CommandResult.port_forward_started = some tt
is_started _ = none

is_stopped : CommandResult → Option (Unit {0})
is_stopped CommandResult.port_forward_stopped = some tt
is_stopped _ = none

result_or : {A : Type 0} → Option A → ClientResult A
result_or (some a) = success a
result_or none = failure (ClientError.channel "Unexpected command result")

commanded :
    {A : Type 0}
    → DaemonSessionClient
    → (CommandResult → Option A)
    → MessageChannel × ClientResult CommandResult
    → DaemonSessionClient × ClientResult A
unfolding result_or
commanded s expect (c, success r) = (record s { daemon_client = c }, result_or (expect r))
commanded s expect (c, failure e) = (record s { daemon_client = c }, failure e)

module _ (requests : Json DaemonRequest) (responses : Json DaemonResponse)
    (error_text : YuhaError → String) where
  execute :
      {A : Type 0}
      → DaemonSessionClient
      → Writes
      → (CommandResult → Option A)
      → DaemonCommand
      → DaemonSessionClient × ClientResult A
  unfolding commanded
  execute s w expect command =
      commanded s expect
        (execute_command requests responses error_text s.daemon_client w s.session_id command)

  unfoldable pub get_clipboard :
      DaemonSessionClient → Writes → DaemonSessionClient × ClientResult String
  unfolding execute content_of
  get_clipboard s w = execute s w content_of DaemonCommand.get_clipboard

  unfoldable pub set_clipboard :
      DaemonSessionClient → Writes → String → DaemonSessionClient × ClientResult (Unit {0})
  unfolding execute is_set
  set_clipboard s w content = execute s w is_set (DaemonCommand.set_clipboard content)

  unfoldable pub open_browser :
      DaemonSessionClient → Writes → String → DaemonSessionClient × ClientResult (Unit {0})
  unfolding execute is_opened
  open_browser s w url = execute s w is_opened (DaemonCommand.open_browser url)

  unfoldable pub start_port_forward :
      DaemonSessionClient → Writes → ℕ → String → ℕ → DaemonSessionClient × ClientResult (Unit {0})
  unfolding execute is_started
  start_port_forward s w local_port host port =
      execute s w is_started (DaemonCommand.start_port_forward local_port host port)

  unfoldable pub stop_port_forward :
      DaemonSessionClient → Writes → ℕ → DaemonSessionClient × ClientResult (Unit {0})
  unfolding execute is_stopped
  stop_port_forward s w local_port =
      execute s w is_stopped (DaemonCommand.stop_port_forward local_port)
