-- ===== src/Digest/Tokens.antt =====
-- The token estimate: its bounds, and how it splits.
use g.Base.{
  ℕ, zero, suc, ◌+◌, ◌*◌, ◌%◌, ◌≤◌, ◌<◌, ◌≡◌, refl, List, [], ◌∷◌, ◌++◌, Str, Bool, true, false,
  arith, All, length,
}
use g.Digest.Utf8.{encode_all, decode-encode_all, decode-encode_all_append}
use g.Digest.{extra, lead, decode_from, decode_codepoints, is_blank, count_tokens, estimate_tokens}

length-decode_from : (k cp : ℕ) (s : Str) → length (decode_from k cp s) ≤ suc (length s)
unfolding decode_from
length-decode_from k cp [] = omega arith
length-decode_from zero cp (c ∷ s) = omega (arith, length-decode_from (extra c) (lead c) s)
length-decode_from (suc k) cp (b ∷ s) = omega (arith, length-decode_from k (cp * 64 + b % 64) s)

-- There are no more code points than bytes.
pub length-decode_codepoints : (s : Str) → length (decode_codepoints s) ≤ length s
unfolding decode_codepoints
length-decode_codepoints [] = omega arith
length-decode_codepoints (c ∷ s) = length-decode_from (extra c) (lead c) s

-- Each code point adds at most two tokens.
count_tokens-le : (w : Bool) (n : ℕ) (cps : List ℕ) → count_tokens w n cps ≤ n + 2 * length cps
unfolding count_tokens
count_tokens-le w n [] = omega arith
count_tokens-le w n (cp ∷ cps) =
    let stop = count_tokens-le false n cps in
    let one = count_tokens-le false (n + 1) cps in
    let two = count_tokens-le false (n + 2) cps in
    let start = count_tokens-le true (n + 1) cps in
    let go_on = count_tokens-le true n cps in ground arith

-- The count that is passed along is added up.
count_tokens-add :
    (w : Bool) (n : ℕ) (cps : List ℕ) → count_tokens w n cps ≡ n + count_tokens w 0 cps
unfolding count_tokens
count_tokens-add w n [] = omega arith
count_tokens-add w n (cp ∷ cps) =
    let stop = count_tokens-add false n cps in
    let one = count_tokens-add false (n + 1) cps in
    let two = count_tokens-add false (n + 2) cps in
    let start = count_tokens-add true (n + 1) cps in
    let go_on = count_tokens-add true n cps in
    let one' = count_tokens-add false 1 cps in
    let two' = count_tokens-add false 2 cps in
    let start' = count_tokens-add true 1 cps in ground arith

-- A blank ends a word, whatever came before.
count_tokens-blank :
    (cps ds : List ℕ) (w : Bool) (n : ℕ)
    → count_tokens w n (cps ++ 32 ∷ ds) ≡ count_tokens w n cps + count_tokens false 0 ds
unfolding count_tokens is_blank
count_tokens-blank [] ds w n = count_tokens-add false n ds
count_tokens-blank (cp ∷ cps) ds w n = count_tokens-blank cps ds _ _

estimate-count : (s : Str) → estimate_tokens s ≡ count_tokens false 0 (decode_codepoints s)
unfolding estimate_tokens count_tokens decode_codepoints
estimate-count [] = refl
estimate-count (c ∷ s) = refl

-- A text is estimated at no more than two tokens a byte.
pub estimate_tokens-le : (s : Str) → estimate_tokens s ≤ 2 * length s
estimate_tokens-le s =
    let counted = estimate-count s in
    let bound = count_tokens-le false 0 (decode_codepoints s) in
    let fewer = length-decode_codepoints s in ground arith

-- Decoding a blank gives a blank.
decode-blank : (s : Str) → decode_codepoints (32 ∷ s) ≡ 32 ∷ decode_codepoints s
unfolding decode_codepoints decode_from extra lead
decode-blank [] = refl
decode-blank (c ∷ s) = refl

-- The estimate of two texts joined by a blank is the sum of their estimates, where the first is
-- the UTF-8 encoding of code points below 2 ^ 21. The second is any bytes.
pub estimate_tokens-append :
    (cps : List ℕ) (s : Str)
    → All (λ cp. cp < 2097152) cps
    → estimate_tokens (encode_all cps ++ 32 ∷ s)
      ≡ estimate_tokens (encode_all cps) + estimate_tokens s
estimate_tokens-append cps s below =
    let joined = decode-encode_all_append cps (32 ∷ s) below in
    let alone = decode-encode_all cps below in
    rw (
      estimate-count (encode_all cps ++ 32 ∷ s),
      estimate-count (encode_all cps),
      estimate-count s,
      joined,
      alone,
      decode-blank s,
      count_tokens-blank cps (decode_codepoints s) false 0,
    )
