-- ===== src/Remote/Ipc/Client.antt =====
-- The client of crates/remote/src/ipc.rs and the shell commands of crates/remote/src/main.rs.
pub mod Exchange
use Prim.Native.String.{◌++◌ as ◌<>◌}
use vscfreedev.Base.{
  ℕ, zero, suc, ◌+◌, ◌-◌, ◌*◌, ◌/◌, ◌%◌, ◌^◌, ◌≤◌, ◌<◌, min, max, String, ◌≡◌, refl, sym, ap, subst,
  ◌∙◌, ◌≢◌, ◌↔◌, ◌⊎◌, inl, inr, Bool, true, false, not, ◌&&◌, ◌||◌, Option, none, some, List, [],
  ◌∷◌, ◌++◌, map, arith, ltb, leb, if◌then◌else◌, Eq, ◌==◌, nat_beq, nat_beq_iff, nat_eq, string_eq,
  beq_refl, Bool-cases, Option-cases, length, is_empty, retain, All, every, exists, contains, count,
  without, length-append, length-retain-le, count-append, count-without, length-without-le,
}
use vscfreedev.Transport.{decimal}
use vscfreedev.Base.Anyhow.{Fallible, returns, fails}
use vscfreedev.Remote.Lines.{Text, line, read_line, trim}
use vscfreedev.Remote.Ipc.{IpcCommand, IpcResponse, Codec}

-- `connection` gives what comes back, until the other side ends its stream, for what is written.
module _ (codec : Codec) (connection : Text → Fallible Text) where
  reply_read : Fallible Text → Fallible IpcResponse
  reply_read (fails e) = fails e
  reply_read (returns reply) = codec.parse_response (trim (read_line reply).0)

  unfoldable pub send_command : IpcCommand → Fallible IpcResponse
  unfolding reply_read
  send_command c = reply_read (connection (line (codec.print_command c)))

  is_pong : Fallible IpcResponse → Bool
  is_pong (returns IpcResponse.pong) = true
  is_pong _ = false

  unfoldable pub ping : Bool
  unfolding is_pong
  ping = is_pong (send_command IpcCommand.ping)

  content_of : Fallible IpcResponse → Fallible String
  content_of (fails e) = fails e
  content_of (returns (IpcResponse.success (some content))) = returns content
  content_of (returns (IpcResponse.error message)) = fails message
  content_of (returns _) = fails "Unexpected response"

  unfoldable pub get_clipboard : Fallible String
  unfolding content_of
  get_clipboard = content_of (send_command IpcCommand.get_clipboard)

  done_of : Fallible IpcResponse → Fallible (Unit {0})
  done_of (fails e) = fails e
  done_of (returns (IpcResponse.success data')) = returns tt
  done_of (returns (IpcResponse.error message)) = fails message
  done_of (returns _) = fails "Unexpected response"

  unfoldable pub set_clipboard : String → Fallible (Unit {0})
  unfolding done_of
  set_clipboard content = done_of (send_command (IpcCommand.set_clipboard content))

  unfoldable pub open_browser : String → Fallible (Unit {0})
  unfolding done_of
  open_browser url = done_of (send_command (IpcCommand.open_browser url))

  unfoldable pub send_to_client : String → Fallible (Unit {0})
  unfolding done_of
  send_to_client message = done_of (send_command (IpcCommand.send_to_client message))

  status_of : Fallible IpcResponse → Fallible (ℕ × ℕ × ℕ)
  status_of (fails e) = fails e
  status_of (returns (IpcResponse.status uptime clients forwards)) =
      returns (uptime, clients, forwards)
  status_of (returns (IpcResponse.error message)) = fails message
  status_of (returns _) = fails "Unexpected response"

  unfoldable pub status : Fallible (ℕ × ℕ × ℕ)
  unfolding status_of
  status = status_of (send_command IpcCommand.status)

  -- What a shell command prints, on its output and its error output, and its exit code.
  pub record Shell : Type 0 where
    pub out : List String
    pub err_out : List String
    pub exit_code : ℕ

  abbrev printed : List String → Shell
  printed lines = record { out = lines; err_out = []; exit_code = 0 }

  abbrev refused : String → Shell
  refused message = record { out = []; err_out = message ∷ []; exit_code = 1 }

  shown : Fallible IpcResponse → Shell
  shown (returns (IpcResponse.success (some data'))) = printed (data' ∷ [])
  shown (returns (IpcResponse.success none)) = printed ("Success" ∷ [])
  shown (returns (IpcResponse.error message)) = refused ("Error: " <> message)
  shown (returns (IpcResponse.status uptime clients forwards)) = printed (
      "Remote process status:"
      ∷ ("  Uptime: " <> (decimal uptime <> " seconds"))
      ∷ ("  Connected clients: " <> decimal clients)
      ∷ ("  Active port forwards: " <> decimal forwards)
      ∷ [])
  shown (returns IpcResponse.pong) = printed ("Pong" ∷ [])
  shown (fails e) = refused ("Failed to communicate with remote process: " <> e)

  unfoldable pub handle_shell_command : IpcCommand → Shell
  unfolding shown
  handle_shell_command c = shown (send_command c)
