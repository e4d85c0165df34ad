-- ===== src/Mcp/Lines.antt =====
-- What goes through the pipes of a child.
use g.Base.{
  ℕ, ◌≡◌, ◌<◌, refl, Bool, true, false, [], ◌∷◌, ◌++◌, Option, none, some, Str, take, ◌==◌,
  is_empty, All,
}
use g.Mcp.Stdio.{Pipes, cut_line, pop_line, receive_line, PosixStdioTransport}

-- the end of a line
abbrev pub newline : Str
newline = 10 ∷ []

module _ {World : Type 0} (pipes : Pipes World) where
  -- `sent` is what the child is given. A write that succeeds gives it one byte at least and a prefix
  -- of what was asked, and a write that fails nothing.
  pub record IsPipe (sent : World → Str) : Type 0 where
    pub grows :
        (bs : Str) (n : ℕ) (w w1 : World)
        → pipes.write bs w ≡ (some n, w1)
        → (0 < n) × (sent w1 ≡ sent w ++ take n bs)
    pub stays : (bs : Str) (w w1 : World) → pipes.write bs w ≡ (none, w1) → sent w1 ≡ sent w

  -- How writing `p` ends: all of it is sent, or a part and a write fails.
  pub data IsWritten (sent : World → Str) (p : Str) (w : World)
      : Option (Bool × World) → Type 0 where
    all_written : (w1 : World) → sent w1 ≡ sent w ++ p → IsWritten sent p w (some (true, w1))
    stopped :
        (front : Str) (c : ℕ) (back : Str) (before w1 : World)
        → p ≡ front ++ c ∷ back
        → pipes.write (c ∷ back) before ≡ (none, w1)
        → sent w1 ≡ sent w ++ front
        → IsWritten sent p w (some (false, w1))

  -- How `send` ends: the child is given the line; or it is given the payload and the write of the end
  -- of the line fails, which nobody notices; or the exception comes after a part.
  pub data IsSent (sent : World → Str) (payload : Str) (w : World)
      : Option (Bool × World) → Type 0 where
    as_line :
        (w1 : World)
        → sent w1 ≡ sent w ++ (payload ++ 10 ∷ [])
        → IsSent sent payload w (some (true, w1))
    without_end :
        (before w1 : World)
        → sent before ≡ sent w ++ payload
        → pipes.write newline before ≡ (none, w1)
        → sent w1 ≡ sent w ++ payload
        → IsSent sent payload w (some (true, w1))
    broken :
        (front : Str) (c : ℕ) (back : Str) (before w1 : World)
        → payload ≡ front ++ c ∷ back
        → pipes.write (c ∷ back) before ≡ (none, w1)
        → sent w1 ≡ sent w ++ front
        → IsSent sent payload w (some (false, w1))

  -- no end of a line
  abbrev pub IsOneLine : Str → Type 0
  IsOneLine = All (λ c. (c == 10) ≡ false)

  cut_line-IsOneLine : (s rest : Str) → IsOneLine s → cut_line (s ++ 10 ∷ rest) ≡ some (s, rest)
  unfolding cut_line
  cut_line-IsOneLine [] rest h = refl
  cut_line-IsOneLine (c ∷ s) rest (h, hs) = rw (h, cut_line-IsOneLine s rest hs) refl

  pop_line-IsOneLine : (s rest : Str) → IsOneLine s → pop_line (s ++ 10 ∷ rest) ≡ (s, rest)
  unfolding pop_line
  pop_line-IsOneLine s rest h = rw (pop_line, cut_line-IsOneLine s rest h) refl

  not_empty : (s rest : Str) → is_empty (s ++ 10 ∷ rest) ≡ false
  not_empty [] rest = refl
  not_empty (c ∷ s) rest = refl

  -- A read of a whole line gives the line. What was read behind it stays in the buffer, and the next
  -- call reads again before it looks there.
  pub receive_line-IsOneLine :
      (t : PosixStdioTransport) (payload rest : Str) (w w1 : World)
      → IsOneLine payload
      → t.line ≡ []
      → t.buffer ≡ []
      → pipes.read w ≡ (payload ++ 10 ∷ rest, w1)
      → receive_line pipes t w ≡ (payload, record t { buffer = rest }, w1)
  unfolding receive_line
  receive_line-IsOneLine t payload rest w w1 h e f g =
      rw (e, f, g, not_empty payload rest, pop_line-IsOneLine payload rest h) refl
