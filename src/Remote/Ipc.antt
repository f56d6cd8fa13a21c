-- ===== src/Remote/Ipc.antt =====
-- crates/remote/src/ipc.rs: the commands that a shell sends to the running remote process,
-- one line of text each (Remote/Lines). How serde_json writes a command and a response, and reads
-- them from a trimmed line, is a `Codec`. The response buffer, which the IPC server is given, has no
-- part in any command.
pub mod Client
pub mod Connection
mod Tests
use Prim.Native.String.{◌++◌ as ◌<>◌}
use vscfreedev.Base.{
  ℕ, zero, suc, ◌+◌, ◌-◌, ◌*◌, ◌/◌, ◌%◌, ◌^◌, ◌≤◌, ◌<◌, min, max, String, ◌≡◌, refl, sym, ap, subst,
  ◌∙◌, ◌≢◌, ◌↔◌, ◌⊎◌, inl, inr, Bool, true, false, not, ◌&&◌, ◌||◌, Option, none, some, List, [],
  ◌∷◌, ◌++◌, map, arith, ltb, leb, if◌then◌else◌, Eq, ◌==◌, nat_beq, nat_beq_iff, nat_eq, string_eq,
  beq_refl, Bool-cases, Option-cases, length, is_empty, retain, All, every, exists, contains, count,
  without, length-append, length-retain-le, count-append, count-without, length-without-le,
}
use vscfreedev.Base.Anyhow.{Fallible, returns, fails}
use vscfreedev.Errors.{Result, ok, err, YuhaError}
use vscfreedev.Transport.{decimal}
use vscfreedev.Remote.Lines.{Text, line, read_line, trim, IsLine}
use vscfreedev.Desktop.{Clipboard}
use vscfreedev.Desktop

pub data IpcCommand : Type 0 where
  get_clipboard : IpcCommand
  set_clipboard open_browser send_to_client : String → IpcCommand
  status ping : IpcCommand

pub data IpcResponse : Type 0 where
  success : Option String → IpcResponse
  error : String → IpcResponse
  status : ℕ → ℕ → ℕ → IpcResponse
  pong : IpcResponse

pub record Codec : Type 0 where
  pub print_command : IpcCommand → Text
  pub parse_command : Text → Fallible IpcCommand
  pub print_response : IpcResponse → Text
  pub parse_response : Text → Fallible IpcResponse

-- A command and its response are each written as one line, without white space around it, and read
-- back from what was written.
pub record Carries (codec : Codec) (c : IpcCommand) (r : IpcResponse) : Type 0 where
  pub command : codec.parse_command (codec.print_command c) ≡ returns c
  pub command_line : IsLine (codec.print_command c)
  pub response : codec.parse_response (codec.print_response r) ≡ returns r
  pub response_line : IsLine (codec.print_response r)

-- The channel to the client; the receiving end may have been dropped.
pub record Sender : Type 0 where
  pub receiving : Bool
  pub queue : List String

-- A turn of the loop of a connection: its read fails, or gives a line, with the time of the command
-- and the outcome of the write of its response.
pub data Turn : Type 0 where
  read_fails : Turn
  reads : ℕ → Fallible (Unit {0}) → Turn

pub record IpcServer : Type 0 where
  pub socket_path : String
  pub client_sender : Option Sender
  pub uptime_start : ℕ
  -- The clipboard of the process.
  pub clipboard : Clipboard

unfoldable pub new : String → ℕ → Clipboard → IpcServer
new socket_path now clipboard = record {
  socket_path = socket_path;
  client_sender = none;
  uptime_start = now;
  clipboard = clipboard;
}

unfoldable pub set_client_sender : IpcServer → Sender → IpcServer
set_client_sender s sender = record s { client_sender = some sender }

module _ (scheme : String → Option String) (text : YuhaError → String) where
  content_read : Result String → IpcResponse
  content_read (ok content) = IpcResponse.success (some content)
  content_read (err e) = IpcResponse.error ("Failed to get clipboard: " <> text e)

  done_or : String → Result (Unit {0}) → IpcResponse
  done_or failed (ok _) = IpcResponse.success none
  done_or failed (err e) = IpcResponse.error (failed <> text e)

  sent_to : IpcServer → String → Option Sender → IpcServer × IpcResponse
  sent_to s message none = (s, IpcResponse.error "No client connected")
  sent_to s message (some sender) =
      if sender.receiving
      then (
        record s {
          client_sender = some (record sender { queue = sender.queue ++ (message ∷ []) });
        },
        IpcResponse.success none,
      )
      else (s, IpcResponse.error "Failed to send to client: channel closed")

  connected_clients : Option Sender → ℕ
  connected_clients none = 0
  connected_clients (some sender) = 1

  -- Times are in seconds.
  unfoldable pub handle_command : IpcServer → ℕ → IpcCommand → IpcServer × IpcResponse
  unfolding content_read done_or sent_to connected_clients
  handle_command s now IpcCommand.get_clipboard =
      (s, content_read (Desktop.get_clipboard s.clipboard))
  handle_command s now (IpcCommand.set_clipboard content) =
      let (clipboard, result) = Desktop.set_clipboard s.clipboard content in
      (record s { clipboard = clipboard }, done_or "Failed to set clipboard: " result)
  handle_command s now (IpcCommand.open_browser url) =
      (s, done_or "Failed to open browser: " (Desktop.open_url scheme url))
  handle_command s now (IpcCommand.send_to_client message) = sent_to s message s.client_sender
  handle_command s now IpcCommand.status =
      (s, IpcResponse.status (now - s.uptime_start) (connected_clients s.client_sender) 0)
  handle_command s now IpcCommand.ping = (s, IpcResponse.pong)

  module _ (codec : Codec) where
    -- A line that is no command is answered with an error.
    line_handled : IpcServer → ℕ → Fallible IpcCommand → IpcServer × IpcResponse
    line_handled s now (returns c) = handle_command s now c
    line_handled s now (fails e) = (s, IpcResponse.error ("Invalid command format: " <> e))

    -- What a connection has written, and how it ended.
    abbrev pub Handled : Type 0
    Handled = IpcServer × Text × Fallible (Unit {0})

    -- The end of the loop at the end of the stream, where the line is empty, and after a response
    -- that could not be written; otherwise the response and what the loop gives after it.
    replied : IpcServer → IpcServer → Text → Text → Fallible (Unit {0}) → Handled → Handled
    replied s s' [] response written more = (s, [], returns tt)
    replied s s' (c ∷ cs) response (fails e) more = (s', [], fails e)
    replied s s' (c ∷ cs) response (returns _) (s'', output, result) =
        (s'', line response ++ output, result)

    -- The loop over the lines of what the other side writes until it ends its stream, for as many
    -- turns as are given.
    unfoldable pub handle_connection : IpcServer → Text → List Turn → Handled
    unfolding line_handled replied
    handle_connection s input [] = (s, [], returns tt)
    handle_connection s input (read_fails ∷ turns) = (s, [], returns tt)
    handle_connection s input (reads now written ∷ turns) =
        let (first, rest) = read_line input in
        let (s', response) = line_handled s now (codec.parse_command (trim first)) in
        replied s s' first (codec.print_response response) written (handle_connection s' rest turns)
