-- ===== src/Facts.antt =====
-- core/fact_store: facts by the digest of their content, appended to a file that is read back at
-- the start. The file is the list of its bytes; `none` is a store whose stream is not open.
pub mod Escaping
pub mod Reload
pub mod Contents
use g.Base.{
  ℕ, Bool, true, false, List, [], ◌∷◌, ◌++◌, Option, none, some, Str, Map, lookup, contains, insert,
  length, ◌==◌, if◌then◌else◌, fnv1a, hex,
}

pub record Fact : Type 0 where
  pub id : Str
  pub type : Str
  pub content : Str

pub record FactStore : Type 0 where
  pub entries : Map Fact
  pub out : Option Str

-- Backslash, newline, carriage return and tab become two characters.
unfoldable pub escape : Str → Str
escape [] = []
escape (c ∷ s) =
    let rest = escape s in
    if c == 92
    then 92 ∷ 92 ∷ rest
    else if c == 10
    then 92 ∷ 110 ∷ rest
    else if c == 13
    then 92 ∷ 114 ∷ rest
    else if c == 9
    then 92 ∷ 116 ∷ rest
    else c ∷ rest

-- A backslash before another character, or at the end, stays.
unfoldable pub unescape : Str → Str
unescape [] = []
unescape (c ∷ []) = c ∷ []
unescape (c ∷ d ∷ s) =
    let skip = unescape s in
    let keep = unescape (d ∷ s) in
    if c == 92
    then (if d == 92
        then 92 ∷ skip
        else if d == 110
        then 10 ∷ skip
        else if d == 114
        then 13 ∷ skip
        else if d == 116
        then 9 ∷ skip
        else c ∷ keep)
    else c ∷ keep

unfoldable pub digest_hex : Str → Str → Str
digest_hex type content =
    let combined = type ++ 10 ∷ content in hex 16 (fnv1a combined) ++ hex 16 (length combined)

-- a character before the lines of the rest
push_char : ℕ → List Str → List Str
push_char c [] = (c ∷ []) ∷ []
push_char c (l ∷ ls) = (c ∷ l) ∷ ls

-- the lines that `std::getline` reads; the last one need not be ended
unfoldable pub lines : Str → List Str
unfolding push_char
lines [] = []
lines (c ∷ s) = let rest = lines s in if c == 10 then [] ∷ rest else push_char c rest

-- `if (line.back() == '\r') line.pop_back()`
unfoldable pub strip_cr : Str → Str
strip_cr [] = []
strip_cr (c ∷ []) = if c == 13 then [] else c ∷ []
strip_cr (c ∷ d ∷ s) = c ∷ strip_cr (d ∷ s)

-- the parts before and after the first tab
unfoldable pub split_tab : Str → Option (Str × Str)
split_tab [] = none
split_tab (c ∷ s) =
    let rest = split_tab s in
    if c == 9 then some ([], s) else elim rest [ none ↦ none | some (a, b) ↦ some (c ∷ a, b) ]

unfoldable pub add_fact : Str → Str → Map Fact → Map Fact
add_fact type content entries =
    let id = digest_hex type content in
    insert id (record { id = id; type = type; content = content }) entries

-- one round of the loop that reads the file
unfoldable pub read_line : Str → Map Fact → Map Fact
read_line line entries = elim (split_tab (strip_cr line)) [
  | none ↦ entries
  | some (type, content) ↦ add_fact (unescape type) (unescape content) entries
]

unfoldable pub read_lines : List Str → Map Fact → Map Fact
read_lines [] entries = entries
read_lines (l ∷ ls) entries = read_lines ls (read_line l entries)

-- the constructor, at a file with these bytes, and the store without a path
unfoldable pub open_store : Str → FactStore
open_store bytes = record { entries = read_lines (lines bytes) []; out = some bytes }

unfoldable pub open_memory : FactStore
open_memory = record { entries = []; out = none }

-- the line that is written for a fact
unfoldable pub line_of : Str → Str → Str
line_of type content = escape type ++ 9 ∷ escape content

unfoldable pub write_line : Str → Str → Option Str → Option Str
write_line type content none = none
write_line type content (some bytes) = some (bytes ++ line_of type content ++ 10 ∷ [])

unfoldable pub append : Str → Str → FactStore → Str × FactStore
append type content s =
    let id = digest_hex type content in
    if contains id s.entries then (id, s) else (
      id,
      record { entries = add_fact type content s.entries; out = write_line type content s.out },
    )

unfoldable pub get : Str → FactStore → Option Fact
get id s = lookup id s.entries

unfoldable pub size : FactStore → ℕ
size s = length s.entries
