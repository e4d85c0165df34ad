-- ===== src/Digest/Bags.antt =====
-- What the soft fingerprint sees of a text, and its size.
use g.Base.{
  ℕ, ◌/◌, ◌<◌, ◌≡◌, refl, sym, ap, ◌∙◌, Bool, true, false, List, [], ◌∷◌, ◌++◌, map, Str, All,
  All-append, All-map, arith, if◌then◌else◌, leb, length, length-set, length-map, length-replicate,
  append_assoc, append-nil, ◌==◌,
}
use g.Floats.{Floats}
use g.Digest.{decode_codepoints, decode_from, extra, lead}
use g.Digest.Soft.{
  to_lower, is_gap, flush, tokens_from, soft_tokens, SoftOps, deposit, deposit_all, normalize,
  build_soft,
}

abbrev pub IsAscii : ℕ → Type 0
IsAscii c = c < 128

-- a byte of a word
abbrev pub IsLetter : ℕ → Type 0
IsLetter c = (c < 128) × (is_gap c ≡ false)

abbrev pub IsGap : ℕ → Type 0
IsGap c = is_gap c ≡ true

decode_from-IsAscii : (cp : ℕ) (s : Str) → All IsAscii s → decode_from 0 cp s ≡ cp ∷ s
unfolding decode_from extra lead
decode_from-IsAscii cp [] h = refl
decode_from-IsAscii cp (c ∷ s) (h, hs) =
    let first : (c / 128 == 0) ≡ true = ground (arith, h) in
    rw first (ap (◌∷◌ cp) (decode_from-IsAscii c s hs))

decode_codepoints-IsAscii : (s : Str) → All IsAscii s → decode_codepoints s ≡ s
unfolding decode_codepoints extra lead
decode_codepoints-IsAscii [] h = refl
decode_codepoints-IsAscii (c ∷ s) (h, hs) =
    let first : (c / 128 == 0) ≡ true = ground (arith, h) in rw first (decode_from-IsAscii c s hs)

tokens_from-word :
    (current w rest : Str)
    → All IsLetter w
    → tokens_from current (w ++ rest) ≡ tokens_from (current ++ map to_lower w) rest
unfolding tokens_from
tokens_from-word current [] rest h = ap (λ c. tokens_from c rest) (sym (append-nil current))
tokens_from-word current (c ∷ w) rest ((lt, plain), hs) =
    let low : leb 128 c ≡ false = ground (arith, lt) in
    rw (plain, low)
      (tokens_from-word (current ++ to_lower c ∷ []) w rest hs
        ∙ ap (λ x. tokens_from x rest) (append_assoc current (to_lower c ∷ []) (map to_lower w)))

tokens_from-gap :
    (gap rest : Str) → All IsGap gap → tokens_from [] (gap ++ rest) ≡ tokens_from [] rest
unfolding tokens_from flush
tokens_from-gap [] rest h = refl
tokens_from-gap (c ∷ gap) rest (h, hs) = rw h (tokens_from-gap gap rest hs)

-- A token ends at a gap.
tokens_from-end :
    (current : Str) (c : ℕ) (gap rest : Str)
    → IsGap c
    → All IsGap gap
    → tokens_from current (c ∷ gap ++ rest) ≡ flush current (tokens_from [] rest)
unfolding tokens_from
tokens_from-end current c gap rest h hs = rw h (ap (flush current) (tokens_from-gap gap rest hs))

-- A word and the gap behind it, which is not empty.
pub record Spaced : Type 0 where
  pub word : Str
  pub gap_head : ℕ
  pub gap_tail : Str
  pub word_head : ℕ
  pub letters : All IsLetter (word_head ∷ word)
  pub gap_bytes : All IsGap (gap_head ∷ gap_tail)

abbrev word_of : Spaced → Str
word_of p = p.word_head ∷ p.word

unfoldable pub spaced : List Spaced → Str → Str
spaced [] last = last
spaced (p ∷ ps) last = word_of p ++ p.gap_head ∷ p.gap_tail ++ spaced ps last

unfoldable pub lower_words : List Spaced → List Str
lower_words [] = []
lower_words (p ∷ ps) = map to_lower (p.word_head ∷ p.word) ∷ lower_words ps

tokens_from-nil : (current : Str) → tokens_from current [] ≡ flush current []
unfolding tokens_from
tokens_from-nil current = refl

tokens_from-spaced :
    (ps : List Spaced) (last : Str)
    → All IsLetter last
    → tokens_from [] (spaced ps last) ≡ lower_words ps ++ flush (map to_lower last) []
unfolding spaced lower_words flush
tokens_from-spaced [] last h =
    ap (tokens_from []) (sym (append-nil last))
    ∙ tokens_from-word [] last [] h
    ∙ tokens_from-nil (map to_lower last)
tokens_from-spaced (p ∷ ps) last h =
    let rest = spaced ps last in
    let w = map to_lower (word_of p) in
    ap (tokens_from []) (append_assoc (word_of p) (p.gap_head ∷ p.gap_tail) rest)
    ∙ tokens_from-word [] (word_of p) (p.gap_head ∷ p.gap_tail ++ rest) p.letters
    ∙ tokens_from-end w p.gap_head p.gap_tail rest p.gap_bytes.0 p.gap_bytes.1
    ∙ ap (◌∷◌ w) (tokens_from-spaced ps last h)

gap-IsAscii : (c : ℕ) → IsGap c → c < 128
unfolding is_gap
gap-IsAscii c h = ground (arith, h)

spaced-IsAscii : (ps : List Spaced) (last : Str) → All IsLetter last → All IsAscii (spaced ps last)
unfolding spaced
spaced-IsAscii [] last h = All-map IsLetter IsAscii last (λ c l. l.0) h
spaced-IsAscii (p ∷ ps) last h =
    All-append IsAscii (word_of p ++ p.gap_head ∷ p.gap_tail) (spaced ps last)
      (All-append IsAscii (word_of p) (p.gap_head ∷ p.gap_tail)
        (All-map IsLetter IsAscii (word_of p) (λ c l. l.0) p.letters)
        (All-map IsGap IsAscii (p.gap_head ∷ p.gap_tail) gap-IsAscii p.gap_bytes))
      (spaced-IsAscii ps last h)

-- The tokens of an ASCII text are its words, in order and in lower case, whatever blanks, tabs and ends of lines
-- stand before, between and after them.
pub soft_tokens-spaced :
    (front : Str) (ps : List Spaced) (last : Str)
    → All IsGap front
    → All IsLetter last
    → soft_tokens (front ++ spaced ps last) ≡ lower_words ps ++ flush (map to_lower last) []
unfolding soft_tokens
soft_tokens-spaced front ps last hf hl =
    let ascii =
      All-append IsAscii front (spaced ps last) (All-map IsGap IsAscii front gap-IsAscii hf)
        (spaced-IsAscii ps last hl) in
    ap (tokens_from []) (decode_codepoints-IsAscii (front ++ spaced ps last) ascii)
    ∙ tokens_from-gap front (spaced ps last) hf
    ∙ tokens_from-spaced ps last hl

module _ {f : Floats} (ops : SoftOps f) where
  open f use {Double}

  length-deposit :
      (tok : Str) (weight : Double) (e : List Double) → length (deposit ops tok weight e) ≡ length e
  unfolding deposit
  length-deposit tok weight e = length-set e _ _

  length-deposit_all : (ts : List Str) (e : List Double) → length (deposit_all ops ts e) ≡ length e
  unfolding deposit_all
  length-deposit_all [] e = refl
  length-deposit_all (a ∷ []) e = length-deposit a _ e
  length-deposit_all (a ∷ b ∷ []) e =
      length-deposit b f.one_double _
      ∙ length-deposit (a ++ 32 ∷ b) ops.half _
      ∙ length-deposit a f.one_double e
  length-deposit_all (a ∷ b ∷ c ∷ rest) e =
      length-deposit_all (b ∷ c ∷ rest) _
      ∙ length-deposit (a ++ 32 ∷ b ++ 32 ∷ c) ops.quarter _
      ∙ length-deposit (a ++ 32 ∷ b) ops.half _
      ∙ length-deposit a f.one_double e

  length-if :
      (b : Bool) (norm : Double) (e : List Double)
      → length (if b then map (λ v. f.divide v norm) e else e) ≡ length e
  length-if true norm e = length-map (λ v. f.divide v norm) e
  length-if false norm e = refl

  length-normalize : (e : List Double) → length (normalize ops e) ≡ length e
  unfolding normalize
  length-normalize e = length-if _ _ e

  -- Every fingerprint that is built has 64 numbers, so that any two can be compared.
  pub length-build_soft : (content : Str) → length (build_soft ops content).embedding ≡ 64
  unfolding build_soft
  length-build_soft [] = length-replicate 64 f.zero_double
  length-build_soft (c ∷ content) =
      length-normalize _
      ∙ length-deposit_all (soft_tokens (c ∷ content)) _
      ∙ length-replicate 64 f.zero_double
