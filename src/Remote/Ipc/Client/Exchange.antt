-- ===== src/Remote/Ipc/Client/Exchange.antt =====
-- A command of the IPC client at the IPC server (crates/remote/src/ipc.rs).
use Prim.Native.String.{◌++◌ as ◌<>◌}
use vscfreedev.Base.{
  ℕ, String, ◌≡◌, refl, sym, ap, ◌∙◌, ◌⊎◌, inl, inr, Option, none, some, [], ◌∷◌, nat_eq, string_eq,
  Option-cases,
}
use vscfreedev.Errors.{YuhaError}
use vscfreedev.Protocol.Bytes.{append_nil}
use vscfreedev.Desktop.{Clipboard}
use vscfreedev.Desktop
use vscfreedev.Base.Anyhow.{Fallible, returns, fails}
use vscfreedev.Remote.Lines.{Text, line, trim, read_line-line, trim-line}
use vscfreedev.Remote.Ipc.{
  IpcCommand, Codec, Carries, IpcServer, reads, handle_command, handle_connection, content_read,
  done_or,
}
use vscfreedev.Remote.Ipc.Connection.{command-handled}
use vscfreedev.Remote.Ipc.Client.{
  reply_read, send_command, content_of, get_clipboard, done_of, set_clipboard,
}

module _ (scheme : String → Option String) (text : YuhaError → String) (codec : Codec) where
  -- A connection of its own to the server in a state, which serves one line.
  abbrev pub to : IpcServer → ℕ → Text → Fallible Text
  to s now input =
      returns (handle_connection scheme text codec s input (reads now (returns tt) ∷ [])).1

  -- The server's state after that.
  abbrev pub after : IpcServer → ℕ → Text → IpcServer
  after s now input = (handle_connection scheme text codec s input (reads now (returns tt) ∷ [])).0

  -- A command that a client sends on its own connection is carried out by the server as if it were
  -- called directly: the client has the response of the call, and the server is in the state that
  -- the call leaves.
  pub send_command-handled :
      (s : IpcServer) (now : ℕ) (c : IpcCommand)
      → Carries codec c (handle_command scheme text s now c).1
      → (send_command codec (to s now) c ≡ returns (handle_command scheme text s now c).1)
        × (after s now (line (codec.print_command c)) ≡ (handle_command scheme text s now c).0)
  unfolding send_command reply_read handle_connection
  send_command-handled s now c v =
      let p = codec.print_command c in
      let r = (handle_command scheme text s now c).1 in
      let handled =
        ap (λ i. handle_connection scheme text codec s i (reads now (returns tt) ∷ []))
          (sym (append_nil (line p)))
        ∙ command-handled scheme text codec s now c [] [] v.command v.command_line in
      let q = codec.print_response r in
      (
        ap (λ h. reply_read codec (to s now) (returns h.1)) handled
            ∙ ap (λ t. codec.parse_response (trim t.0)) (read_line-line q [] v.response_line.0)
            ∙ ap (λ t. codec.parse_response t) (trim-line q v.response_line.1)
            ∙ v.response,
        ap (λ h. h.0) handled,
      )

  -- Where the codec carries the two commands with their responses: with a clipboard that is not
  -- poisoned, what one client sets is what the next client gets; with a poisoned one, both are given
  -- an error.
  pub get_clipboard-set_clipboard :
      (s : IpcServer) (now later : ℕ) (content : String)
      → Carries codec
          (IpcCommand.set_clipboard content)
          (handle_command scheme text s now (IpcCommand.set_clipboard content)).1
      → Carries codec IpcCommand.get_clipboard
          (handle_command scheme text
            (handle_command scheme text s now (IpcCommand.set_clipboard content)).0
            later
            IpcCommand.get_clipboard).1
      → ((s.clipboard.poison ≡ none)
          × (set_clipboard codec (to s now) content ≡ returns tt)
          × (get_clipboard codec (
                to
                  (after s now (line (codec.print_command (IpcCommand.set_clipboard content))))
                  later)
              ≡ returns content))
        ⊎ ((e : String) × (s.clipboard.poison ≡ some e)
            × (set_clipboard codec (to s now) content
                ≡ fails (
                    "Failed to set clipboard: "
                    <> text (Desktop.lock_failed ("Write lock poisoned: " <> e))))
            × (get_clipboard codec (
                  to
                    (after s now (line (codec.print_command (IpcCommand.set_clipboard content))))
                    later)
                ≡ fails (
                    "Failed to get clipboard: "
                    <> text (Desktop.lock_failed ("Read lock poisoned: " <> e)))))
  unfolding set_clipboard get_clipboard content_of done_of handle_command content_read done_or
      Desktop.set_clipboard Desktop.get_clipboard
  get_clipboard-set_clipboard s now later content v w =
      let (sent, s') = send_command-handled s now (IpcCommand.set_clipboard content) v in
      let (read, _) =
        send_command-handled (handle_command scheme text s now (IpcCommand.set_clipboard content)).0
          later IpcCommand.get_clipboard w in
      elim (Option-cases s.clipboard.poison) [
        | inl sane ↦ inl (sane, rw (sent, sane) refl, rw (s', read, sane) refl)
        | inr (e, poisoned) ↦
            inr (e, poisoned, rw (sent, poisoned) refl, rw (s', read, poisoned) refl)
      ]
