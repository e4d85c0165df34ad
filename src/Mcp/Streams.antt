-- ===== src/Mcp/Streams.antt =====
-- What comes out of the stream of the server, and how its thread starts and ends.
use g.Base.{
  ℕ, zero, suc, ◌≤◌, ◌≡◌, refl, sym, ap, ◌∙◌, ◌≢◌, false, ◌&&◌, List, [], ◌∷◌, ◌++◌, none, some,
  Str, txt, All, All-map, length, is_empty, ◌==◌, arith, append_assoc, append-nil, length-append,
  starts_with,
}
use g.Facts.{lines, strip_cr}
use g.Facts.Escaping.{strip_cr-Plain}
use g.Mcp.Sse.{
  SseTransport, parse_frame, push_frame, split_frame, drain, fill, on_chunk, on_chunks, add_lines,
  add_line, payload_of,
}
use g.Mcp.Framing.{on_chunks-on_chunk, joined_chunks, drain-done}

-- No byte of a message ends a line.
abbrev pub InLine : ℕ → Type 0
InLine c = (c ≢ 10) × (c ≢ 13)

-- Messages as a server sends them, and then other bytes.
unfoldable pub frames_of : List Str → Str → Str
frames_of [] tail = tail
frames_of (m ∷ ms) tail = (txt "data: " ++ m) ++ 10 ∷ 10 ∷ frames_of ms tail

-- A frame in one line ends at the first empty line.
split_frame-InLine :
    (s rest : Str) → All InLine s → split_frame (s ++ 10 ∷ 10 ∷ rest) ≡ some (s, rest)
unfolding split_frame
split_frame-InLine [] rest h = refl
split_frame-InLine (c ∷ []) rest (h, _) = ground (arith, h)
split_frame-InLine (c ∷ d ∷ s) rest (h, hs) =
    let test : (c == 10 && d == 10) ≡ false = ground (arith, h) in
    rw (split_frame, test, split_frame-InLine (d ∷ s) rest hs) refl

lines-InLine : (c : ℕ) (s : Str) → All InLine (c ∷ s) → lines (c ∷ s) ≡ (c ∷ s) ∷ []
unfolding lines
lines-InLine c [] (h, _) = ground (arith, h)
lines-InLine c (d ∷ s) (h, hs) =
    let test : (c == 10) ≡ false = ground (arith, h) in rw (test, lines-InLine d s hs) refl

-- a message that is not empty, in one line
abbrev pub IsMessage : Str → Type 0
IsMessage m = (is_empty m ≡ false) × All InLine m

data_line-InLine : (m : Str) → All InLine m → All InLine (txt "data: " ++ m)
data_line-InLine m h = ground (arith, h)

parse_frame-data : (m : Str) → IsMessage m → parse_frame (txt "data: " ++ m) ≡ m
unfolding parse_frame add_lines add_line payload_of starts_with
parse_frame-data [] h = cc (h.0)
parse_frame-data (c ∷ s) (e, h) =
    let plain = data_line-InLine (c ∷ s) h in
    let no_cr : strip_cr (txt "data: " ++ c ∷ s) ≡ txt "data: " ++ c ∷ s = strip_cr-Plain _ (
      All-map InLine (λ d. d ≢ 13) (txt "data: " ++ c ∷ s) (λ (d : ℕ) (p : InLine d). p.1) plain) in
    rw (lines-InLine 100 (txt "ata: " ++ c ∷ s) plain, no_cr) refl

drain-frame :
    (n : ℕ) (m rest : Str) (t : SseTransport)
    → IsMessage m
    → drain (suc n) (record t { buffer = (txt "data: " ++ m) ++ 10 ∷ 10 ∷ rest })
      ≡ drain n (record t { buffer = rest; queue = t.queue ++ m ∷ [] })
unfolding drain push_frame
drain-frame n m rest t (e, h) =
    rw
      (
        split_frame-InLine (txt "data: " ++ m) rest (data_line-InLine m h),
        parse_frame-data m (e, h),
        e,
      )
      refl

drain-frames :
    (n : ℕ) (ms : List Str) (tail : Str) (t : SseTransport)
    → All IsMessage ms
    → split_frame tail ≡ none
    → length ms ≤ n
    → drain n (record t { buffer = frames_of ms tail })
      ≡ record t { buffer = tail; queue = t.queue ++ ms }
unfolding frames_of
drain-frames n [] tail t h e le =
    drain-done n (record t { buffer = tail }) e
    ∙ ap (λ q. record t { buffer = tail; queue = q }) (sym (append-nil t.queue))
drain-frames zero (m ∷ ms) tail t h e le = let no_fuel : ⊥ = omega arith in elim no_fuel [ ]
drain-frames (suc n) (m ∷ ms) tail t (h, hs) e le =
    drain-frame n m (frames_of ms tail) t h
    ∙ drain-frames n ms tail (record t { queue = t.queue ++ m ∷ [] }) hs e (omega arith)
    ∙ ap (λ q. record t { buffer = tail; queue = q }) (append_assoc t.queue (m ∷ []) ms)

length-frames_of : (ms : List Str) (tail : Str) → length ms ≤ length (frames_of ms tail)
unfolding frames_of
length-frames_of [] tail = omega arith
length-frames_of (m ∷ ms) tail =
    rw (length-append (txt "data: " ++ m) (10 ∷ 10 ∷ frames_of ms tail))
      (omega (arith, length-frames_of ms tail))

-- Whatever chunks it comes in, a stream of messages, each of one line and not empty, is queued as those
-- messages, in order, behind what is queued; the bytes of a frame that is not complete stay in the buffer.
pub on_chunks-frames_of :
    (c : Str) (cs ms : List Str) (tail : Str) (t : SseTransport)
    → All IsMessage ms
    → split_frame tail ≡ none
    → t.buffer ≡ []
    → joined_chunks (c ∷ cs) ≡ frames_of ms tail
    → on_chunks (c ∷ cs) t ≡ record t { buffer = tail; queue = t.queue ++ ms }
unfolding on_chunk fill
on_chunks-frames_of c cs ms tail t h e empty sent =
    on_chunks-on_chunk c cs t
    ∙ ap (λ s. on_chunk s t) sent
    ∙ ap
        (λ b.
          drain (length (b ++ frames_of ms tail)) (record t { buffer = b ++ frames_of ms tail }))
        empty
    ∙ drain-frames _ ms tail t h e (length-frames_of ms tail)

-- Lines as HTTP servers may send them: each ends with a carriage return and a newline.
unfoldable pub crlf_lines : List Str → Str
crlf_lines [] = []
crlf_lines (l ∷ ls) = l ++ 13 ∷ 10 ∷ crlf_lines ls

skip_byte :
    (c d : ℕ) (s : Str)
    → (c == 10 && d == 10) ≡ false
    → split_frame (d ∷ s) ≡ none
    → split_frame (c ∷ d ∷ s) ≡ none
unfolding split_frame
skip_byte c d s e f = rw (split_frame, e, f) refl

skip_line :
    (l rest : Str)
    → All InLine l
    → split_frame (10 ∷ rest) ≡ none
    → split_frame (l ++ 13 ∷ 10 ∷ rest) ≡ none
skip_line [] rest h e = skip_byte 13 10 rest refl e
skip_line (c ∷ []) rest (h, _) e =
    skip_byte c 13 (10 ∷ rest) (ground (arith, h)) (skip_line [] rest tt e)
skip_line (c ∷ d ∷ l) rest (h, hs) e =
    skip_byte c d (l ++ 13 ∷ 10 ∷ rest) (ground (arith, h)) (skip_line (d ∷ l) rest hs e)

skip_lines : (ls : List Str) → All (All InLine) ls → split_frame (10 ∷ crlf_lines ls) ≡ none
unfolding crlf_lines split_frame
skip_lines [] h = refl
skip_lines ([] ∷ ls) (h, hs) =
    skip_byte 10 13 (10 ∷ crlf_lines ls) refl (skip_line [] (crlf_lines ls) tt (skip_lines ls hs))
skip_lines ((c ∷ l) ∷ ls) (h, hs) =
    skip_byte 10 c (l ++ 13 ∷ 10 ∷ crlf_lines ls) (ground (arith, h.0))
      (skip_line (c ∷ l) (crlf_lines ls) h (skip_lines ls hs))

split_frame-crlf_lines : (ls : List Str) → All (All InLine) ls → split_frame (crlf_lines ls) ≡ none
unfolding crlf_lines split_frame
split_frame-crlf_lines [] h = refl
split_frame-crlf_lines (l ∷ ls) (h, hs) = skip_line l (crlf_lines ls) h (skip_lines ls hs)

-- From a stream whose lines end with a carriage return and a newline no message is ever queued, whatever its
-- lines and chunks: the bytes stay in the buffer.
pub on_chunks-crlf_lines :
    (c : Str) (cs ls : List Str) (t : SseTransport)
    → All (All InLine) ls
    → t.buffer ≡ []
    → joined_chunks (c ∷ cs) ≡ crlf_lines ls
    → on_chunks (c ∷ cs) t ≡ record t { buffer = crlf_lines ls }
unfolding on_chunk fill
on_chunks-crlf_lines c cs ls t h empty sent =
    on_chunks-on_chunk c cs t
    ∙ ap (λ s. on_chunk s t) sent
    ∙ ap (λ b. drain (length (b ++ crlf_lines ls)) (record t { buffer = b ++ crlf_lines ls })) empty
    ∙ drain-done _ (record t { buffer = crlf_lines ls }) (split_frame-crlf_lines ls h)
