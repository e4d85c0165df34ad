-- ===== src/Facts/Reload.antt =====
-- A store that is closed and opened again on its file has the same facts.
use mathlib.Core.Option.{some-injective}
use g.Base.{
  ◌≡◌, ◌≢◌, refl, ap, sym, ◌∙◌, List, [], ◌∷◌, ◌++◌, append_assoc, some, Str, Map, contains, arith,
  All, All-append, All-map, Bool-cases, inl, inr,
}
use g.Facts.Contents.{IsAddressed, append-IsAddressed, open_store-IsAddressed}
use g.Facts.{
  Fact, FactStore, escape, lines, split_tab, line_of, add_fact, read_line, read_lines, open_store,
  write_line, append, digest_hex,
}
use g.Facts.Escaping.{unescape-escape, Plain, escape-Plain, strip_cr-Plain, split_tab-append}

-- the bytes of a file that holds these facts
pub encode : List (Str × Str) → Str
encode [] = []
encode ((type, content) ∷ fs) = line_of type content ++ 10 ∷ encode fs

-- the entries after these facts are added in order
pub index : List (Str × Str) → Map Fact → Map Fact
index [] entries = entries
index ((type, content) ∷ fs) entries = index fs (add_fact type content entries)

line_of-NoNewline : (type content : Str) → All (λ c. (c ≢ 10) × (c ≢ 13)) (line_of type content)
unfolding line_of
line_of-NoNewline type content =
    All-append (λ c. (c ≢ 10) × (c ≢ 13)) (escape type) (9 ∷ escape content)
      (All-map Plain (λ c. (c ≢ 10) × (c ≢ 13)) (escape type) (λ c p. (p.0, p.1))
        (escape-Plain type))
      (
        (omega arith, omega arith),
        All-map Plain (λ c. (c ≢ 10) × (c ≢ 13)) (escape content) (λ c p. (p.0, p.1))
            (escape-Plain content),
      )

lines-append :
    (s rest : Str) → All (λ c. (c ≢ 10) × (c ≢ 13)) s → lines (s ++ 10 ∷ rest) ≡ s ∷ lines rest
unfolding lines
lines-append [] rest h = refl
lines-append (c ∷ s) rest h = ground (arith, lines-append s rest h.1, h.0.0)

read_line-line_of :
    (type content : Str) (entries : Map Fact)
    → read_line (line_of type content) entries ≡ add_fact type content entries
unfolding read_line
read_line-line_of type content entries =
    let whole = strip_cr-Plain (line_of type content) (
      All-map (λ c. (c ≢ 10) × (c ≢ 13)) (λ c. c ≢ 13) (line_of type content) (λ c p. p.1)
        (line_of-NoNewline type content)) in
    let parts : split_tab (line_of type content) ≡ some (escape type, escape content) =
      unfold line_of in split_tab-append (escape type) (escape content) (escape-Plain type) in
    ground (arith, whole, parts, unescape-escape type, unescape-escape content)

read_lines-cons :
    (l : Str) (ls : List Str) (entries : Map Fact)
    → read_lines (l ∷ ls) entries ≡ read_lines ls (read_line l entries)
unfolding read_lines
read_lines-cons l ls entries = refl

read_lines-encode :
    (fs : List (Str × Str)) (entries : Map Fact)
    → read_lines (lines (encode fs)) entries ≡ index fs entries
unfolding encode index
read_lines-encode [] entries = unfold read_lines lines in refl
read_lines-encode ((type, content) ∷ fs) entries =
    ap (λ ls. read_lines ls entries)
      (lines-append (line_of type content) (encode fs) (line_of-NoNewline type content))
    ∙ read_lines-cons (line_of type content) (lines (encode fs)) entries
    ∙ ap (read_lines (lines (encode fs))) (read_line-line_of type content entries)
    ∙ read_lines-encode fs (add_fact type content entries)

encode-append :
    (fs : List (Str × Str)) (type content : Str)
    → encode (fs ++ (type, content) ∷ []) ≡ encode fs ++ line_of type content ++ 10 ∷ []
unfolding encode
encode-append [] type content = refl
encode-append ((t, c) ∷ fs) type content =
    ap (λ s. line_of t c ++ 10 ∷ s) (encode-append fs type content) ∙ simp append_assoc

index-append :
    (fs : List (Str × Str)) (type content : Str) (entries : Map Fact)
    → index (fs ++ (type, content) ∷ []) entries ≡ add_fact type content (index fs entries)
unfolding index
index-append [] type content entries = refl
index-append ((t, c) ∷ fs) type content entries =
    index-append fs type content (add_fact t c entries)

-- The file of the store holds facts that index to its entries.
pub record IsSaved (s : FactStore) : Type 0 where
  pub facts : List (Str × Str)
  pub written : s.out ≡ some (encode facts)
  pub indexed : s.entries ≡ index facts []

append-IsSaved :
    (type content : Str) (s : FactStore) → IsSaved s → IsSaved (append type content s).1
unfolding append write_line
append-IsSaved type content s v = elim (Bool-cases (contains (digest_hex type content) s.entries)) [
  | inl old ↦ rw (append, old) v
  | inr new ↦
      rw (append, new)
        (record {
          facts = v.facts ++ (type, content) ∷ [];
          written =
              ap (write_line type content) v.written
              ∙ ap some (sym (encode-append v.facts type content));
          indexed =
              ap (add_fact type content) v.indexed ∙ sym (index-append v.facts type content []);
        })
]

-- what a run appends
unfoldable pub appends : List (Str × Str) → FactStore → FactStore
appends [] s = s
appends ((type, content) ∷ fs) s = appends fs (append type content s).1

appends-IsSaved : (fs : List (Str × Str)) (s : FactStore) → IsSaved s → IsSaved (appends fs s)
unfolding appends
appends-IsSaved [] s v = v
appends-IsSaved ((type, content) ∷ fs) s v =
    appends-IsSaved fs (append type content s).1 (append-IsSaved type content s v)

-- A store opened on a file that the store wrote has exactly the entries that were in memory,
-- whatever bytes the facts are made of: tabs, newlines, carriage returns and backslashes included.
pub open_store-appends :
    (fs : List (Str × Str)) (bytes : Str)
    → (appends fs (open_store [])).out ≡ some bytes
    → (open_store bytes).entries ≡ (appends fs (open_store [])).entries
unfolding open_store
open_store-appends fs bytes e =
    let v = appends-IsSaved fs (open_store []) fresh in
    let same : bytes ≡ encode v.facts = some-injective bytes (encode v.facts) (sym e ∙ v.written) in
    ap (λ b. read_lines (lines b) []) same ∙ read_lines-encode v.facts [] ∙ sym v.indexed
  where
    fresh : IsSaved (open_store [])
    fresh = record {
      facts = [];
      written = unfold encode in refl;
      indexed = unfold read_lines lines index in refl;
    }

appends-IsAddressed_from :
    (fs : List (Str × Str)) (s : FactStore)
    → IsAddressed s.entries
    → IsAddressed (appends fs s).entries
unfolding appends
appends-IsAddressed_from [] s h = h
appends-IsAddressed_from ((type, content) ∷ fs) s h =
    appends-IsAddressed_from fs (append type content s).1 (append-IsAddressed type content s h)

-- Whatever bytes the file holds, damaged lines included, the store that opens it files every fact
-- under its own digest, and so it does after any facts are appended to it.
pub appends-IsAddressed :
    (bytes : Str) (fs : List (Str × Str)) → IsAddressed (appends fs (open_store bytes)).entries
appends-IsAddressed bytes fs =
    appends-IsAddressed_from fs (open_store bytes) (open_store-IsAddressed bytes)
