-- ===== src/Checks/StdioChecks.antt =====
-- A pipe that takes one byte at a time.
use g.Base.{ℕ, ◌≡◌, refl, [], ◌∷◌, ◌++◌, Option, none, some, Str, txt, true, pos}
use g.Mcp.Stdio.{
  Pipes, PosixStdioTransport, stdio_transport, write_all, send_line, cut_line, pop_line,
  receive_line,
}
use g.Mcp.Lines.{receive_line-IsOneLine}

-- The world is what the child was given.
abbrev narrow_write : Str → Str → Option ℕ × Str
narrow_write [] w = (none, w)
narrow_write (c ∷ bs) w = (some 1, w ++ c ∷ [])

abbrev narrow : Pipes Str
narrow = record { write = narrow_write; read = λ w. (w, []) }

narrow_send : send_line narrow (txt "{}") [] ≡ some (true, txt "{}" ++ 10 ∷ [])
unfolding send_line write_all
narrow_send = refl

abbrev idle : PosixStdioTransport
idle = stdio_transport (pos 7) (pos 3) (pos 4)

-- Of two messages in one read, the second one waits in the buffer.
two_messages :
    receive_line narrow idle (txt "a" ++ 10 ∷ txt "b" ++ 10 ∷ [])
    ≡ (txt "a", record idle { buffer = txt "b" ++ 10 ∷ [] }, [])
two_messages =
    receive_line-IsOneLine narrow idle (txt "a") (txt "b" ++ 10 ∷ []) _ _ (refl, tt) refl refl refl

-- A message that comes in two reads is returned as two.
half_message : receive_line narrow idle (txt "ab") ≡ (txt "ab", idle, [])
unfolding receive_line pop_line cut_line
half_message = refl
