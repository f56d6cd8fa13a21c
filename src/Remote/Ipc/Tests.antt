-- ===== src/Remote/Ipc/Tests.antt =====
-- Tests of the IPC server and its client, and instances of their theorems
-- (crates/remote/src/ipc.rs).
use Prim.Native.String.{◌++◌ as ◌<>◌}
use vscfreedev.Base.{
  ℕ, String, ◌≡◌, refl, ◌⊎◌, Option, none, some, List, [], ◌∷◌, if◌then◌else◌, nat_beq, nat_eq,
  string_eq,
}
use vscfreedev.Errors.{YuhaError}
use vscfreedev.Desktop.{lock_failed, Clipboard}
use vscfreedev.Desktop
use vscfreedev.Base.Anyhow.{Fallible, returns, fails}
use vscfreedev.Remote.Lines.{Text, line, read_line, trim}
use vscfreedev.Remote.Ipc.{
  IpcCommand, IpcResponse, Codec, Carries, IpcServer, reads, new, handle_command, handle_connection,
}
use vscfreedev.Remote.Ipc.Connection.{
  handle_all, written, replies, turns, handle_connection-commands,
}
use vscfreedev.Remote.Ipc.Client.{get_clipboard, set_clipboard}
use vscfreedev.Remote.Ipc.Client.Exchange.{to, after, get_clipboard-set_clipboard}

abbrev scheme : String → Option String
scheme url = some "https"

abbrev text : YuhaError → String
text e = "error"

-- One sign for each command and response of the tests.
abbrev write_command : IpcCommand → Text
write_command IpcCommand.get_clipboard = 1 ∷ []
write_command (IpcCommand.set_clipboard content) = 2 ∷ []
write_command _ = 3 ∷ []

-- The sign of a text of one sign.
abbrev sign : Text → ℕ
sign (c ∷ []) = c
sign _ = 0

abbrev read_command : Text → Fallible IpcCommand
read_command t =
    if nat_beq (sign t) 1
    then returns IpcCommand.get_clipboard
    else if nat_beq (sign t) 2
    then returns (IpcCommand.set_clipboard "new")
    else if nat_beq (sign t) 3
    then returns IpcCommand.ping
    else fails "expected value"

abbrev write_response : IpcResponse → Text
write_response (IpcResponse.success none) = 4 ∷ []
write_response (IpcResponse.success (some content)) = 5 ∷ []
write_response IpcResponse.pong = 6 ∷ []
write_response _ = 7 ∷ []

abbrev read_response : Text → Fallible IpcResponse
read_response t =
    if nat_beq (sign t) 4
    then returns (IpcResponse.success none)
    else if nat_beq (sign t) 5
    then returns (IpcResponse.success (some "new"))
    else if nat_beq (sign t) 6
    then returns IpcResponse.pong
    else fails "expected value"

abbrev codec : Codec
codec = record {
  print_command = write_command;
  parse_command = read_command;
  print_response = write_response;
  parse_response = read_response;
}

abbrev server : IpcServer
server = new "/tmp/yuha-remote.sock" 10 (record { content = "text"; poison = none })

no_client :
    (handle_command scheme text server 20 (IpcCommand.send_to_client "hello")).1
    ≡ IpcResponse.error "No client connected"
unfolding handle_command new
no_client = refl

-- The line is read with its newline and trimmed of it and of the spaces around; the next line is no
-- command, and the last has no newline.
spaced_lines :
    (handle_connection scheme text codec server (32 ∷ 3 ∷ 13 ∷ 10 ∷ 9 ∷ 10 ∷ 3 ∷ []) (
      reads 20 (returns tt)
      ∷ reads 21 (returns tt)
      ∷ reads 22 (returns tt)
      ∷ reads 23 (returns tt)
      ∷ [])).1
    ≡ 6 ∷ 10 ∷ 7 ∷ 10 ∷ 6 ∷ 10 ∷ []
unfolding handle_connection handle_command new read_line trim
spaced_lines = refl

set_carried :
    Carries codec
      (IpcCommand.set_clipboard "new")
      (handle_command scheme text server 20 (IpcCommand.set_clipboard "new")).1
unfolding handle_command new trim Desktop.set_clipboard
set_carried = record {
  command = refl;
  command_line = (refl, refl);
  response = refl;
  response_line = (refl, refl);
}

get_carried :
    Carries codec IpcCommand.get_clipboard
      (handle_command scheme text
        (handle_command scheme text server 20 (IpcCommand.set_clipboard "new")).0
        30
        IpcCommand.get_clipboard).1
unfolding handle_command new trim Desktop.set_clipboard Desktop.get_clipboard
get_carried = record {
  command = refl;
  command_line = (refl, refl);
  response = refl;
  response_line = (refl, refl);
}

abbrev commands : List (ℕ × IpcCommand)
commands = (20, IpcCommand.set_clipboard "new") ∷ (30, IpcCommand.get_clipboard) ∷ []

handle_connection-commands_example :
    handle_connection scheme text codec server
      (written scheme text codec commands)
      (turns scheme text codec commands)
    ≡ (
      (handle_all scheme text codec server commands).0,
      replies scheme text codec (handle_all scheme text codec server commands).1,
      returns tt,
    )
handle_connection-commands_example =
    handle_connection-commands scheme text codec server commands (set_carried, (get_carried, tt))

get_clipboard-set_clipboard_example :
    ((server.clipboard.poison ≡ none)
      × (set_clipboard codec (to scheme text codec server 20) "new" ≡ returns tt)
      × (get_clipboard codec (
            to scheme text codec
              (after scheme text codec server 20
                (line (codec.print_command (IpcCommand.set_clipboard "new"))))
              30)
          ≡ returns "new"))
    ⊎ ((e : String) × (server.clipboard.poison ≡ some e)
        × (set_clipboard codec (to scheme text codec server 20) "new"
            ≡ fails
                ("Failed to set clipboard: " <> text (lock_failed ("Write lock poisoned: " <> e))))
        × (get_clipboard codec (
              to scheme text codec
                (after scheme text codec server 20
                  (line (codec.print_command (IpcCommand.set_clipboard "new"))))
                30)
            ≡ fails
                ("Failed to get clipboard: " <> text (lock_failed ("Read lock poisoned: " <> e)))))
get_clipboard-set_clipboard_example =
    get_clipboard-set_clipboard scheme text codec server 20 30 "new" set_carried get_carried
