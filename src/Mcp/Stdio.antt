-- ===== src/Mcp/Stdio.antt =====
-- examples/cpp/posix_stdio_transport: messages as lines over the pipes of a child. `write` and
-- `read` are system calls, and so parameters.
use g.Base.{
  ℕ, zero, suc, Bool, true, false, ◌&&◌, [], ◌∷◌, ◌++◌, Option, none, some, Str, drop, length, ◌==◌,
  if◌then◌else◌, is_empty, ℤ, pos, negsuc, leb,
}

pub record Pipes (World : Type 0) : Type 0 where
  -- how many bytes were written, none on an error or where there were none
  pub write : Str → World → Option ℕ × World
  -- the bytes that were read, 4096 at most, and none at the end and on an error
  pub read : World → Str × World

pub record PosixStdioTransport : Type 0 where
  pub pid : ℤ
  pub read_fd : ℤ
  pub write_fd : ℤ
  pub buffer : Str
  pub line : Str

-- the constructor in the parent, given what `fork` and `pipe` return
abbrev pub stdio_transport : ℤ → ℤ → ℤ → PosixStdioTransport
stdio_transport pid read_fd write_fd = record {
  pid = pid;
  read_fd = read_fd;
  write_fd = write_fd;
  buffer = [];
  line = [];
}

unfoldable pub at_least_zero : ℤ → Bool
at_least_zero (pos n) = true
at_least_zero (negsuc n) = false

unfoldable pub above_zero : ℤ → Bool
above_zero (pos n) = leb 1 n
above_zero (negsuc n) = false

unfoldable pub stdio_alive : PosixStdioTransport → Bool
unfolding at_least_zero above_zero
stdio_alive t = at_least_zero t.read_fd && above_zero t.pid

-- `buffer_.find('\n')`, with what is before it and behind
unfoldable pub cut_line : Str → Option (Str × Str)
cut_line [] = none
cut_line (c ∷ s) =
    let rest = cut_line s in
    if c == 10 then some ([], s) else elim rest [ none ↦ none | some (a, b) ↦ some (c ∷ a, b) ]

-- `pop_line`: the line and the buffer
unfoldable pub pop_line : Str → Str × Str
unfolding cut_line
pop_line buffer = elim (cut_line buffer) [ none ↦ (buffer, []) | some cut ↦ cut ]

module _ {World : Type 0} (pipes : Pipes World) where
  -- the loop of `send`, with fuel: was everything written?
  unfoldable pub write_all : ℕ → Str → World → Option (Bool × World)
  write_all fuel [] w = some (true, w)
  write_all zero (c ∷ p) w = none
  write_all (suc fuel) (c ∷ p) w =
      let (count, w1) = pipes.write (c ∷ p) w in
      elim count [ none ↦ some (false, w1) | some n ↦ write_all fuel (drop n (c ∷ p)) w1 ]

  -- `send`; false is the exception. The result of the last write is not looked at.
  unfoldable pub send_line : Str → World → Option (Bool × World)
  unfolding write_all
  send_line payload w = elim (write_all (length payload) payload w) [
    | none ↦ none
    | some (true, w1) ↦ some (true, (pipes.write (10 ∷ []) w1).1)
    | some (false, w1) ↦ some (false, w1)
  ]

  -- `receive`
  unfoldable pub receive_line : PosixStdioTransport → World → Str × PosixStdioTransport × World
  unfolding pop_line
  receive_line t w =
      let (bytes, w1) = pipes.read w in
      let (out, buffer) = pop_line (t.buffer ++ bytes) in
      if is_empty t.line
      then if is_empty bytes then ([], t, w1) else (out, record t { buffer = buffer }, w1)
      else (t.line, record t { line = [] }, w)
