-- ===== src/Digest.antt =====
-- core/digest: code points, the token estimate, and the hard keys of a content. On bytes the masks
-- of the source are quotients and remainders: `c & 0x1F` is `c % 32`, `(c & 0xE0) == 0xC0` is
-- `c / 32 == 6`, and `(cp << 6) | b` is `cp * 64 + b` for `b < 64`.
pub mod Utf8
pub mod Tokens
pub mod Soft
pub mod Stored
pub mod Storing
pub mod Bags
use g.Base.{
  ℕ, zero, suc, ◌+◌, ◌*◌, ◌/◌, ◌%◌, Bool, true, false, ◌||◌, List, [], ◌∷◌, ◌++◌, Option, none,
  some, Str, txt, Map, lookup, contains, insert_sorted, leb, ◌==◌, if◌then◌else◌, str_eq,
}
use g.Json.{JsonLib}

-- `extra`: how many bytes follow the lead byte
unfoldable pub extra : ℕ → ℕ
extra c =
    if c / 128 == 0
    then 0
    else if c / 32 == 6
    then 1
    else if c / 16 == 14
    then 2
    else if c / 8 == 30
    then 3
    else 0

-- the bits of the lead byte
unfoldable pub lead : ℕ → ℕ
lead c =
    if c / 128 == 0
    then c
    else if c / 32 == 6
    then c % 32
    else if c / 16 == 14
    then c % 16
    else if c / 8 == 30
    then c % 8
    else c

-- the loop, with `k` bytes of the code point `cp` still to come
unfoldable pub decode_from : ℕ → ℕ → Str → List ℕ
unfolding extra lead
decode_from k cp [] = cp ∷ []
decode_from zero cp (c ∷ s) = cp ∷ decode_from (extra c) (lead c) s
decode_from (suc k) cp (b ∷ s) = decode_from k (cp * 64 + b % 64) s

unfoldable pub decode_codepoints : Str → List ℕ
unfolding decode_from
decode_codepoints [] = []
decode_codepoints (c ∷ s) = decode_from (extra c) (lead c) s

unfoldable pub is_blank : ℕ → Bool
is_blank cp = cp == 32 || (cp == 10 || cp == 9)

-- the loop of `estimate_tokens`
unfoldable pub count_tokens : Bool → ℕ → List ℕ → ℕ
unfolding is_blank
count_tokens in_word count [] = count
count_tokens in_word count (cp ∷ cps) =
    count_tokens (if is_blank cp then false else if leb 128 cp then false else true)
      (if is_blank cp
        then count
        else if leb 128 cp
        then (if in_word then count + 2 else count + 1)
        else if in_word
        then count
        else count + 1)
      cps

unfoldable pub estimate_tokens : Str → ℕ
estimate_tokens [] = 0
estimate_tokens (c ∷ s) = count_tokens false 0 (decode_codepoints (c ∷ s))

-- `HardKeys`, a map in key order
abbrev pub HardKeys : Type 0
HardKeys = Map Str

-- `join`
unfoldable pub join : HardKeys → Str
join [] = []
join ((k, v) ∷ keys) = k ++ 61 ∷ v ++ 10 ∷ join keys

module _ (j : JsonLib) where
  open j use {Json, parse, members, as_string, integer_text, float_text, as_boolean}

  bool_text : Bool → Str
  bool_text true = txt "true"
  bool_text false = txt "false"

  -- the text of a string, an integer, a floating-point number or a Boolean, tested in this order
  unfoldable pub scalar_text : Json → Option Str
  unfolding bool_text
  scalar_text v = elim (as_string v) [
    | some s ↦ some s
    | none ↦ elim (integer_text v) [
      | some s ↦ some s
      | none ↦ elim (float_text v) [
        | some s ↦ some s
        | none ↦ elim (as_boolean v) [ some b ↦ some (bool_text b) | none ↦ none ]
      ]
    ]
  ]

  -- the loop over the members
  unfoldable pub scalar_keys : List (Str × Json) → HardKeys → HardKeys
  scalar_keys [] keys = keys
  scalar_keys ((k, v) ∷ rest) keys = elim (scalar_text v) [
    | none ↦ scalar_keys rest keys
    | some s ↦ scalar_keys rest (insert_sorted k s keys)
  ]

  -- malformed text, or text that is no object, has no keys
  unfoldable pub hard_keys : Str → HardKeys
  hard_keys [] = []
  hard_keys (c ∷ s) = elim (parse (c ∷ s)) [
    | none ↦ []
    | some v ↦ elim (members v) [ none ↦ [] | some ms ↦ scalar_keys ms [] ]
  ]

  -- `hard_fingerprint` of `Digest::build`
  unfoldable pub hard_fingerprint : Str → Str → Str
  hard_fingerprint type content = type ++ 10 ∷ join (hard_keys content)

-- `Normalizer::value_of`
unfoldable pub value_of : HardKeys → Str → Str
value_of keys key = elim (lookup key keys) [ none ↦ [] | some v ↦ v ]
