-- ===== src/Platform/Windows/Command.antt =====
-- The command line that `run` builds.
use g.Base.{
  ◌≡◌, Bool, true, false, ◌||◌, List, [], ◌∷◌, ◌++◌, Option, none, some, Str, All, ◌==◌,
  if◌then◌else◌,
}

-- a word, if one is begun, in front of the others
before_words : Bool → Str → Option (List Str) → Option (List Str)
before_words false word ws = ws
before_words true word none = none
before_words true word (some ws) = some (word ∷ ws)

-- The argument vector that a program makes of its command line, from where the reader is, `word`
-- being read if `begun`: a space or a tab outside quotation marks ends a word, and quotation marks are
-- taken off. There is none where quotation marks are left open, and for a backslash, which may quote
-- the mark behind it.
unfoldable pub argument_vector : Bool → Bool → Str → Str → Option (List Str)
unfolding before_words
argument_vector true begun word [] = none
argument_vector false begun word [] = before_words begun word (some [])
argument_vector true begun word (c ∷ s) =
    let closed = argument_vector false true word s in
    let longer = argument_vector true true (word ++ c ∷ []) s in
    if c == 34 then closed else if c == 92 then none else longer
argument_vector false begun word (c ∷ s) =
    let opened = argument_vector true true word s in
    let next = argument_vector false false [] s in
    let longer = argument_vector false true (word ++ c ∷ []) s in
    if c == 34
    then opened
    else if c == 92
    then none
    else if c == 32 || c == 9
    then before_words begun word next
    else longer

-- no quotation mark and no backslash
abbrev pub IsPlain : Str → Type 0
IsPlain = All (λ c. ((c == 34) ≡ false) × ((c == 92) ≡ false))

-- no space and no tab
abbrev pub IsSolid : Str → Type 0
IsSolid = All (λ c. (c == 32 || c == 9) ≡ false)
