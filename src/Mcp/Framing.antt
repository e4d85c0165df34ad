-- ===== src/Mcp/Framing.antt =====
-- How the event thread cuts the server's stream into frames, whatever the chunks that it gets.
use g.Base.{
  ℕ, subst, is_empty, zero, suc, ◌+◌, ◌≤◌, ◌≡◌, refl, sym, ap, ◌∙◌, Bool, true, false, ◌&&◌, List,
  [], ◌∷◌, ◌++◌, Option, none, some, Str, length, ◌==◌, arith, Bool-cases, Option-cases, inl, inr,
  append_assoc, append-nil, length-append,
}
use g.Mcp.Sse.{SseTransport, parse_frame, push_frame, split_frame, drain, fill, on_chunk, on_chunks}

-- what `split_frame` makes of what it finds after the first byte
after_byte : Bool → ℕ → Str → Option (Str × Str) → Option (Str × Str)
after_byte true c s rest = some ([], s)
after_byte false c s none = none
after_byte false c s (some (a, b)) = some (c ∷ a, b)

after_byte-append :
    (hit : Bool) (c : ℕ) (s t a b : Str) (rest longer : Option (Str × Str))
    → ((x y : Str) → rest ≡ some (x, y) → longer ≡ some (x, y ++ t))
    → after_byte hit c s rest ≡ some (a, b)
    → after_byte hit c (s ++ t) longer ≡ some (a, b ++ t)
unfolding after_byte
after_byte-append true c s t a b rest longer h e = cc e
after_byte-append false c s t a b none longer h e = cc e
after_byte-append false c s t a b (some (x, y)) longer h e =
    let found : longer ≡ some (x, y ++ t) = h x y refl in rw found (cc e)

split_frame-after_byte :
    (c d : ℕ) (s : Str)
    → split_frame (c ∷ d ∷ s) ≡ after_byte (c == 10 && d == 10) c s (split_frame (d ∷ s))
unfolding split_frame after_byte
split_frame-after_byte c d s = elim (Bool-cases (c == 10 && d == 10)) [
  | inl e ↦ rw (split_frame, e) refl
  | inr e ↦ elim (Option-cases (split_frame (d ∷ s))) [
    | inl f ↦ rw (split_frame, e, f) refl
    | inr (x, f) ↦ rw (split_frame, e, f) refl
  ]
]

-- A frame is found again when more bytes follow.
split_frame-append :
    (s t a b : Str) → split_frame s ≡ some (a, b) → split_frame (s ++ t) ≡ some (a, b ++ t)
unfolding split_frame
split_frame-append [] t a b e = ground (arith, e)
split_frame-append (c ∷ []) t a b e = ground (arith, e)
split_frame-append (c ∷ d ∷ s) t a b e =
    split_frame-after_byte c d (s ++ t)
    ∙ after_byte-append (c == 10 && d == 10) c s t a b (split_frame (d ∷ s)) _
        (λ x y f. split_frame-append (d ∷ s) t x y f) (sym (split_frame-after_byte c d s) ∙ e)

-- What follows the frame is shorter than the buffer, of `n` bytes, by two or more.
Shortens : ℕ → Option (Str × Str) → Type 0
Shortens n none = Unit
Shortens n (some (a, b)) = length b + 2 ≤ n

after_byte-Shortens :
    (hit : Bool) (c : ℕ) (s : Str) (n : ℕ) (rest : Option (Str × Str))
    → length s + 1 ≤ n
    → Shortens n rest
    → Shortens (suc n) (after_byte hit c s rest)
unfolding after_byte Shortens
after_byte-Shortens true c s n rest le h = omega arith
after_byte-Shortens false c s n none le h = tt
after_byte-Shortens false c s n (some (a, b)) le h = omega arith

split_frame-Shortens : (s : Str) → Shortens (length s) (split_frame s)
unfolding split_frame Shortens
split_frame-Shortens [] = tt
split_frame-Shortens (c ∷ []) = tt
split_frame-Shortens (c ∷ d ∷ s) =
    subst (Shortens (length (c ∷ d ∷ s))) (sym (split_frame-after_byte c d s)) (
      after_byte-Shortens (c == 10 && d == 10) c s (length (d ∷ s)) _ (omega arith)
        (split_frame-Shortens (d ∷ s)))

length-split_frame : (s a b : Str) → split_frame s ≡ some (a, b) → length b + 2 ≤ length s
unfolding Shortens
length-split_frame s a b e = subst (Shortens (length s)) e (split_frame-Shortens s)

next_frame : Str → Str → SseTransport → SseTransport
next_frame frame rest t = push_frame (parse_frame frame) (record t { buffer = rest })

buffer-next_frame : (a b : Str) (t : SseTransport) → (next_frame a b t).buffer ≡ b
unfolding next_frame push_frame
buffer-next_frame a b t = elim (Bool-cases (is_empty (parse_frame a))) [
  | inl e ↦ rw (push_frame, e) refl
  | inr e ↦ rw (push_frame, e) refl
]

fill-next_frame :
    (a b more : Str) (t : SseTransport)
    → fill more (next_frame a b t) ≡ next_frame a (b ++ more) (fill more t)
unfolding next_frame push_frame fill
fill-next_frame a b more t = elim (Bool-cases (is_empty (parse_frame a))) [
  | inl e ↦ rw (push_frame, e) refl
  | inr e ↦ rw (push_frame, e) refl
]

drain-next_frame :
    (n : ℕ) (t : SseTransport) (a b : Str)
    → split_frame t.buffer ≡ some (a, b)
    → drain (suc n) t ≡ drain n (next_frame a b t)
unfolding drain next_frame
drain-next_frame n t a b e = rw (drain, e) refl

pub drain-done : (n : ℕ) (t : SseTransport) → split_frame t.buffer ≡ none → drain n t ≡ t
unfolding drain
drain-done zero t e = refl
drain-done (suc n) t e = rw (drain, e) refl

no_frame : (t : SseTransport) → length t.buffer ≤ 0 → split_frame t.buffer ≡ none
no_frame t le = elim (Option-cases (split_frame t.buffer)) [
  | inl e ↦ e
  | inr ((a, b), e) ↦
      let none_left : ⊥ = omega (arith, length-split_frame t.buffer a b e) in elim none_left [ ]
]

-- Fuel for each byte of the buffer is enough.
pub drain-enough :
    (n m : ℕ) (t : SseTransport) → length t.buffer ≤ n → length t.buffer ≤ m → drain n t ≡ drain m t
drain-enough zero m t hn hm = let e = no_frame t hn in drain-done zero t e ∙ sym (drain-done m t e)
drain-enough (suc n) zero t hn hm =
    let e = no_frame t hm in drain-done (suc n) t e ∙ sym (drain-done zero t e)
drain-enough (suc n) (suc m) t hn hm = elim (Option-cases (split_frame t.buffer)) [
  | inl e ↦ drain-done (suc n) t e ∙ sym (drain-done (suc m) t e)
  | inr ((a, b), e) ↦
      let shorter = length-split_frame t.buffer a b e in
      let left = buffer-next_frame a b t in
      drain-next_frame n t a b e
      ∙ drain-enough n m (next_frame a b t) (rw left (omega arith)) (rw left (omega arith))
      ∙ sym (drain-next_frame m t a b e)
]

-- A buffer that is drained before more bytes come ends as one that gets them first.
drain-fill :
    (n m : ℕ) (more : Str) (t : SseTransport)
    → length t.buffer ≤ n
    → length t.buffer + length more ≤ m
    → drain m (fill more (drain n t)) ≡ drain m (fill more t)
unfolding fill
drain-fill zero m more t hn hm = ap (λ x. drain m (fill more x)) (drain-done zero t (no_frame t hn))
drain-fill (suc n) zero more t hn hm =
    let e = no_frame t (omega arith) in ap (λ x. drain zero (fill more x)) (drain-done (suc n) t e)
drain-fill (suc n) (suc m) more t hn hm = elim (Option-cases (split_frame t.buffer)) [
  | inl e ↦ ap (λ x. drain (suc m) (fill more x)) (drain-done (suc n) t e)
  | inr ((a, b), e) ↦
      let shorter = length-split_frame t.buffer a b e in
      let left = buffer-next_frame a b t in
      let left_fill : length ((fill more (next_frame a b t)).buffer) ≡ length b + length more =
        rw left (length-append b more) in
      ap (λ x. drain (suc m) (fill more x)) (drain-next_frame n t a b e)
      ∙ drain-fill n (suc m) more (next_frame a b t) (rw left (omega arith)) (rw left (omega arith))
      ∙ drain-enough (suc m) m (fill more (next_frame a b t)) (rw left_fill (omega arith))
          (rw left_fill (omega arith))
      ∙ ap (drain m) (fill-next_frame a b more t)
      ∙ sym
          (drain-next_frame m (fill more t) a (b ++ more) (split_frame-append t.buffer more a b e))
]

fill_twice : (a b : Str) (t : SseTransport) → fill b (fill a t) ≡ fill (a ++ b) t
unfolding fill
fill_twice a b t = ap (λ x. record t { buffer = x }) (append_assoc t.buffer a b)

length-fill : (a : Str) (t : SseTransport) → length ((fill a t).buffer) ≡ length t.buffer + length a
unfolding fill
length-fill a t = length-append t.buffer a

-- Fuel for each byte, and whatever more, is enough for a chunk.
drain-on_chunk :
    (n : ℕ) (a : Str) (t : SseTransport)
    → length t.buffer + length a ≤ n
    → on_chunk a t ≡ drain n (fill a t)
unfolding on_chunk
drain-on_chunk n a t le =
    let size = length-fill a t in
    drain-enough (length (t.buffer ++ a)) n (fill a t) (rw size (omega arith)) (rw size le)

-- A chunk in two parts does what it does in one.
pub on_chunk_twice :
    (a b : Str) (t : SseTransport) → on_chunk b (on_chunk a t) ≡ on_chunk (a ++ b) t
on_chunk_twice a b t =
    let first : SseTransport = on_chunk a t in
    let n : ℕ = length t.buffer + length a in
    let m : ℕ = length first.buffer + length b + n in
    let size = length-fill a t in
    drain-on_chunk m b first (omega arith)
    ∙ ap (λ x. drain m (fill b x)) (drain-on_chunk n a t (omega arith))
    ∙ drain-fill n m b (fill a t) (rw size (omega arith)) (rw size (omega arith))
    ∙ ap (drain m) (fill_twice a b t)
    ∙ sym (drain-on_chunk m (a ++ b) t (rw (length-append a b) (omega arith)))

-- all the bytes of the chunks
unfoldable pub joined_chunks : List Str → Str
joined_chunks [] = []
joined_chunks (c ∷ cs) = c ++ joined_chunks cs

-- Whatever chunks the stream of the server is cut into, the event thread queues the same messages, in the same
-- order, and is left with the same bytes, as when all of the stream comes at once.
pub on_chunks-on_chunk :
    (c : Str) (cs : List Str) (t : SseTransport)
    → on_chunks (c ∷ cs) t ≡ on_chunk (joined_chunks (c ∷ cs)) t
unfolding on_chunks joined_chunks
on_chunks-on_chunk c [] t = ap (λ x. on_chunk x t) (sym (append-nil c))
on_chunks-on_chunk c (d ∷ cs) t =
    on_chunks-on_chunk d cs (on_chunk c t) ∙ on_chunk_twice c (joined_chunks (d ∷ cs)) t
