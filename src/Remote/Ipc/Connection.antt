-- ===== src/Remote/Ipc/Connection.antt =====
-- The commands of one connection to the IPC server (crates/remote/src/ipc.rs).
use vscfreedev.Base.{ℕ, String, ◌≡◌, refl, ap, ◌∙◌, Option, List, [], ◌∷◌, ◌++◌, nat_eq, string_eq}
use vscfreedev.Errors.{YuhaError}
use vscfreedev.Base.Anyhow.{returns}
use vscfreedev.Remote.Lines.{Text, line, IsLine, read_line-line, trim-line}
use vscfreedev.Remote.Ipc.{
  IpcCommand, IpcResponse, Codec, Carries, IpcServer, Turn, reads, handle_command, line_handled,
  replied, Handled, handle_connection,
}

module _ (scheme : String → Option String) (text : YuhaError → String) (codec : Codec) where
  -- Commands, each with its time, carried out one after the other.
  pub handle_all : IpcServer → List (ℕ × IpcCommand) → IpcServer × List IpcResponse
  handle_all s [] = (s, [])
  handle_all s ((now, c) ∷ cs) =
      let (s', r) = handle_command scheme text s now c in
      let (s'', rs) = handle_all s' cs in (s'', r ∷ rs)

  -- Each command and its response in such a run is carried by the codec.
  abbrev pub CarriesAll : IpcServer → List (ℕ × IpcCommand) → Type 0
  CarriesAll s [] = Unit
  CarriesAll s ((now, c) ∷ cs) =
      Carries codec c (handle_command scheme text s now c).1
      × CarriesAll (handle_command scheme text s now c).0 cs

  -- What the client writes, what the server writes, and turns whose reads and writes succeed.
  abbrev pub written : List (ℕ × IpcCommand) → Text
  written [] = []
  written ((now, c) ∷ cs) = line (codec.print_command c) ++ written cs

  abbrev pub replies : List IpcResponse → Text
  replies [] = []
  replies (r ∷ rs) = line (codec.print_response r) ++ replies rs

  abbrev pub turns : List (ℕ × IpcCommand) → List Turn
  turns [] = []
  turns ((now, c) ∷ cs) = reads now (returns tt) ∷ turns cs

  -- A line with its newline is not the end of the stream.
  replied-line :
      (s s' : IpcServer) (t response : Text) (more : Handled scheme text codec)
      → replied scheme text codec s s' (line t) response (returns tt) more
        ≡ (more.0, line response ++ more.1, more.2)
  unfolding replied
  replied-line s s' [] response more = refl
  replied-line s s' (c ∷ cs) response more = refl

  -- One turn of the loop on the line of a command.
  pub command-handled :
      (s : IpcServer) (now : ℕ) (c : IpcCommand) (rest : Text) (ts : List Turn)
      → codec.parse_command (codec.print_command c) ≡ returns c
      → IsLine (codec.print_command c)
      → let (s', r) = handle_command scheme text s now c in
        let more = handle_connection scheme text codec s' rest ts in
        handle_connection scheme text codec s
          (line (codec.print_command c) ++ rest)
          (reads now (returns tt) ∷ ts)
        ≡ (more.0, line (codec.print_response r) ++ more.1, more.2)
  unfolding handle_connection line_handled
  command-handled s now c rest ts parsed (one, trimmed) =
      let p = codec.print_command c in
      let (s', r) = handle_command scheme text s now c in
      let more = handle_connection scheme text codec s' rest ts in
      rw (read_line-line p rest one, trim-line p trimmed, parsed)
        (replied-line s s' p (codec.print_response r) more)

  -- The commands that a client writes on one connection, a line each, are carried out in their
  -- order, as if they were called one after the other, and each is answered with the line of its
  -- response, where these commands and responses are each written as one line and read back.
  pub handle_connection-commands :
      (s : IpcServer) (cs : List (ℕ × IpcCommand))
      → CarriesAll s cs
      → handle_connection scheme text codec s (written cs) (turns cs)
        ≡ ((handle_all s cs).0, replies (handle_all s cs).1, returns tt)
  unfolding handle_connection handle_all
  handle_connection-commands s [] v = refl
  handle_connection-commands s ((now, c) ∷ cs) (v, vs) =
      let (s', r) = handle_command scheme text s now c in
      command-handled s now c (written cs) (turns cs) v.command v.command_line
      ∙ ap (λ h. (h.0, line (codec.print_response r) ++ h.1, h.2))
          (handle_connection-commands s' cs vs)
