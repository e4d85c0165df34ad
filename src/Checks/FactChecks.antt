-- ===== src/Checks/FactChecks.antt =====
-- Facts with every escaped character.
use g.Base.{◌≡◌, refl, [], ◌∷◌, some, Str, txt, fnv1a, hex, contains}
use g.Facts.{lines, read_lines, write_line, escape, digest_hex, line_of, open_store, append}
use g.Facts.Reload.{appends, open_store-appends}
use g.Facts.Contents.{IsAddressed}
use g.Facts.Reload.{appends-IsAddressed}

abbrev awkward : Str
awkward = 9 ∷ 10 ∷ 13 ∷ 92 ∷ 110 ∷ []

escape-awkward : escape awkward ≡ txt "\\t\\n\\r\\\\n"
unfolding escape
escape-awkward = refl

digest_empty : digest_hex [] [] ≡ txt "44bd31d473cd01cb0000000000000001"
unfolding digest_hex fnv1a hex
digest_empty = refl

abbrev bytes : Str
bytes = txt "t\tc\\n\n"

appends-bytes : (appends ((txt "t", txt "c\n") ∷ []) (open_store [])).out ≡ some bytes
unfolding appends append open_store contains lines read_lines write_line line_of escape
appends-bytes = refl

open_store-appends_example :
    (open_store bytes).entries ≡ (appends ((txt "t", txt "c\n") ∷ []) (open_store [])).entries
open_store-appends_example = open_store-appends ((txt "t", txt "c\n") ∷ []) bytes appends-bytes

appends-IsAddressed_example :
    IsAddressed (appends ((txt "t", txt "new") ∷ []) (open_store (txt "damaged\nt\tc\r\n"))).entries
appends-IsAddressed_example =
    appends-IsAddressed (txt "damaged\nt\tc\r\n") ((txt "t", txt "new") ∷ [])
