-- ===== src/Facts/Escaping.antt =====
-- The line format can be read back.
use g.Base.{ℕ, ◌≡◌, ◌≢◌, refl, ap, [], ◌∷◌, ◌++◌, some, Str, arith, All}
use g.Facts.{escape, unescape, strip_cr, split_tab}

unescape-plain : (c : ℕ) (s : Str) → c ≢ 92 → unescape (c ∷ s) ≡ c ∷ unescape s
unfolding unescape
unescape-plain c [] ne = refl
unescape-plain c (d ∷ s) ne = ground arith

-- Unescaping undoes escaping, for every text.
pub unescape-escape : (s : Str) → unescape (escape s) ≡ s
unfolding escape unescape
unescape-escape [] = refl
unescape-escape (c ∷ s) = ground (arith, unescape-escape s, unescape-plain c (escape s))

-- neither a newline, nor a carriage return, nor a tab
abbrev pub Plain : ℕ → Type 0
Plain c = (c ≢ 10) × (c ≢ 13) × (c ≢ 9)

pub escape-Plain : (s : Str) → All Plain (escape s)
unfolding escape
escape-Plain [] = tt
escape-Plain (c ∷ s) = ground (arith, escape-Plain s)

pub strip_cr-Plain : (s : Str) → All (λ c. c ≢ 13) s → strip_cr s ≡ s
unfolding strip_cr
strip_cr-Plain [] h = refl
strip_cr-Plain (c ∷ []) h = ground arith
strip_cr-Plain (c ∷ d ∷ s) h = ap (◌∷◌ c) (strip_cr-Plain (d ∷ s) h.1)

pub split_tab-append : (s t : Str) → All Plain s → split_tab (s ++ 9 ∷ t) ≡ some (s, t)
unfolding split_tab
split_tab-append [] t h = refl
split_tab-append (c ∷ s) t h = ground (arith, split_tab-append s t h.1)
