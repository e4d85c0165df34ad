-- ===== src/Checks/SoftChecks.antt =====
-- The tokens of a short text.
use g.Base.{◌≡◌, refl, [], ◌∷◌, txt, arith, All}
use g.Digest.Soft.{soft_tokens, flush, is_gap, to_lower}
use g.Digest.Bags.{Spaced, IsLetter, IsGap, lower_words, spaced, soft_tokens-spaced}

hello-IsLetter : All IsLetter (txt "Hi")
unfolding is_gap
hello-IsLetter = ((omega arith, refl), ((omega arith, refl), tt))

hello-IsGap : All IsGap (32 ∷ 10 ∷ [])
unfolding is_gap
hello-IsGap = (refl, (refl, tt))

abbrev hello : Spaced
hello = record {
  word = txt "i";
  gap_head = 32;
  gap_tail = 10 ∷ [];
  word_head = 72;
  letters = hello-IsLetter;
  gap_bytes = hello-IsGap;
}

hello_twice : soft_tokens (txt "Hi \nHi") ≡ txt "hi" ∷ txt "hi" ∷ []
unfolding spaced lower_words flush to_lower
hello_twice = soft_tokens-spaced [] (hello ∷ []) (txt "Hi") tt hello-IsLetter
