-- ===== src/Builtin/Quoting.antt =====
-- The command line of the default `exec_argv`, read by a shell.
use g.Base.{
  ℕ, ◌≡◌, refl, ap, sym, ◌∙◌, Bool, true, false, ◌||◌, List, [], ◌∷◌, ◌++◌, append_assoc,
  append-nil, Option, none, some, Str, ◌==◌, if◌then◌else◌, arith, Bool-cases, inl, inr, All,
}
use g.Builtin.{quote_bytes, quote_args, joined}

-- The quoting of a POSIX shell: outside quotes, between single quotes, between double quotes.
pub data Mode : Type 0 where
  bare single double : Mode

-- `word` and the words read so far in front of the others
pub before_words : Bool → Str → Option (List Str) → Option (List Str)
before_words false word ws = ws
before_words true word none = none
before_words true word (some ws) = some (word ∷ ws)

-- A byte that means something to a shell outside quotes, other than a quote or a space: an expansion,
-- an escape, an operator, the end of a line, a comment or a pattern.
pub is_special : ℕ → Bool
is_special c =
    c == 36
    || (c == 96
        || (c == 92
            || (c == 59
                || (c == 124
                    || (c == 38
                        || (c == 60
                            || (c == 62
                                || (c == 40
                                    || (c == 41
                                        || (c == 42
                                            || (c == 63
                                                || (c == 91
                                                    || (c == 35
                                                        || (c == 126
                                                            || (c == 123
                                                            || (c == 125
                                                            || (c == 33
                                                            || (c == 9
                                                            || (c == 10
                                                            || (c == 61))))))))))))))))))))

-- The words of a command line from where the shell is, `word` being read if `begun`. There are
-- none where a quote is left open, where a byte means something else to the shell than itself, and
-- where a NUL would end the line.
pub words : Mode → Bool → Str → Str → Option (List Str)
words bare begun word [] = before_words begun word (some [])
words single begun word [] = none
words double begun word [] = none
words single begun word (c ∷ s) =
    let out = words bare true word s in
    let more = words single true (word ++ c ∷ []) s in
    if c == 39 then out else if c == 0 then none else more
words double begun word (c ∷ s) =
    let out = words bare true word s in
    let more = words double true (word ++ c ∷ []) s in
    if c == 34 then out else if c == 0 || (c == 36 || (c == 96 || c == 92)) then none else more
words bare begun word (c ∷ s) =
    let into_single = words single true word s in
    let into_double = words double true word s in
    let next = words bare false [] s in
    let more = words bare true (word ++ c ∷ []) s in
    if c == 39
    then into_single
    else if c == 34
    then into_double
    else if c == 32
    then before_words begun word next
    else if c == 0 || is_special c
    then none
    else more

abbrev pub HasNoNul : Str → Type 0
HasNoNul = All (λ c. (c == 0) ≡ false)

words_char :
    (c : ℕ) (word s : Str)
    → (c == 39) ≡ false
    → (c == 0) ≡ false
    → words single true word (c ∷ s) ≡ words single true (word ++ c ∷ []) s
unfolding words
words_char c word s e z = rw (e, z) refl

words-quote_bytes :
    (s word rest : Str)
    → HasNoNul s
    → words single true word (quote_bytes s ++ 39 ∷ rest) ≡ words bare true (word ++ s) rest
unfolding words quote_bytes
words-quote_bytes [] word rest h = ap (λ w. words bare true w rest) (sym (append-nil word))
words-quote_bytes (c ∷ s) word rest (h, hs) = elim (Bool-cases (c == 39)) [
  | inl e ↦
      let same : c ≡ 39 = ground (arith, e) in
      rw (e, same)
        (words-quote_bytes s (word ++ 39 ∷ []) rest hs
          ∙ ap (λ w. words bare true w rest) (append_assoc word (39 ∷ []) s))
  | inr e ↦ rw (e) (
      words_char c word (quote_bytes s ++ 39 ∷ rest) e h
      ∙ words-quote_bytes s (word ++ c ∷ []) rest hs
      ∙ ap (λ w. words bare true w rest) (append_assoc word (c ∷ []) s))
]

words-quote_args :
    (args : List Str) (word : Str)
    → All HasNoNul args
    → words bare true word (quote_args args) ≡ some (word ∷ args)
unfolding words quote_args before_words
words-quote_args [] word h = refl
words-quote_args (a ∷ args) word (h, hs) =
    rw (words-quote_bytes a [] (quote_args args) h, words-quote_args args a hs) refl

-- The command line that the default `exec_argv` passes to `exec` is read by a shell as the program
-- and its arguments, each one word and unchanged, with no operator, expansion, pattern or line end
-- among them, whatever bytes other than NUL they are made of.
pub words-joined :
    (program : Str) (args : List Str)
    → HasNoNul program
    → All HasNoNul args
    → words bare false [] (joined program args) ≡ some (program ∷ args)
unfolding words joined
words-joined program args h hs =
    words-quote_bytes program [] (quote_args args) h ∙ words-quote_args args program hs
