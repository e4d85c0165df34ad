-- ===== src/Facts/Contents.antt =====
-- What a store holds.
use g.Base.{
  ◌≡◌, refl, ap, sym, ◌∙◌, true, List, [], ◌∷◌, ◌++◌, none, some, Str, str_eq, str_eq_iff, Map,
  lookup, contains, lookup-insert, lookup-insert_self, contains-lookup, arith, Bool-cases,
  Option-cases, inl, inr, length, length-append, length-hex, hex, fnv1a,
}
use g.Facts.{
  Fact, FactStore, digest_hex, add_fact, append, get, read_line, read_lines, split_tab, strip_cr,
  unescape, lines, open_store,
}

-- Identifiers have 32 digits.
length-digest_hex : (type content : Str) → length (digest_hex type content) ≡ 32
unfolding digest_hex
length-digest_hex type content =
    let combined = type ++ 10 ∷ content in
    omega (
      arith,
      length-append (hex 16 (fnv1a combined)) (hex 16 (length combined)),
      length-hex 16 (fnv1a combined),
      length-hex 16 (length combined),
    )

-- Every fact is filed under the digest of its own type and content.
pub record IsAddressed (entries : Map Fact) : Type 0 where
  pub at_key :
      (id : Str) (x : Fact)
      → lookup id entries ≡ some x
      → (x.id ≡ id) × (digest_hex x.type x.content ≡ id)

add_fact-IsAddressed :
    (type content : Str) (entries : Map Fact)
    → IsAddressed entries
    → IsAddressed (add_fact type content entries)
unfolding add_fact
add_fact-IsAddressed type content entries v = record {
  at_key = λ id x h. elim (Bool-cases (str_eq (digest_hex type content) id)) [
    | inl same ↦ ground (
      arith,
      h,
      same,
      lookup-insert id (digest_hex type content)
          (record { id = digest_hex type content; type = type; content = content }) entries,
      str_eq_iff (digest_hex type content) id,
    )
    | inr other ↦
        v.at_key id x
          (sym (lookup-insert id (digest_hex type content) _ entries ∙ rw other refl) ∙ h)
  ];
}

read_lines-IsAddressed :
    (ls : List Str) (entries : Map Fact) → IsAddressed entries → IsAddressed (read_lines ls entries)
unfolding read_lines read_line
read_lines-IsAddressed [] entries v = v
read_lines-IsAddressed (l ∷ ls) entries v = elim (Option-cases (split_tab (strip_cr l))) [
  | inl e ↦ rw (read_line, e) (read_lines-IsAddressed ls entries v)
  | inr (p, e) ↦
      rw (read_line, e)
        (read_lines-IsAddressed ls (add_fact (unescape p.0) (unescape p.1) entries)
          (add_fact-IsAddressed (unescape p.0) (unescape p.1) entries v))
]

-- Whatever bytes the file holds, damaged lines included, the store that opens it files every fact
-- under its own digest.
pub open_store-IsAddressed : (bytes : Str) → IsAddressed (open_store bytes).entries
unfolding open_store
open_store-IsAddressed bytes =
    read_lines-IsAddressed (lines bytes) [] (record { at_key = λ id x h. cc (h, nothing id) })
  where
    nothing : (id : Str) → lookup {V = Fact} id [] ≡ none
    nothing id = unfold lookup in refl

contains-some :
    (id : Str) (entries : Map Fact)
    → contains id entries ≡ true
    → (x : Fact) × (lookup id entries ≡ some x)
contains-some id entries h = elim (Option-cases (lookup id entries)) [
  | inl e ↦ cc (h, rw e at (contains-lookup id entries))
  | inr (x, e) ↦ (x, e)
]

contains-of-lookup :
    (id : Str) (x : Fact) (entries : Map Fact)
    → lookup id entries ≡ some x
    → contains id entries ≡ true
contains-of-lookup id x entries e = ground (arith, e, contains-lookup id entries)

pub append-IsAddressed :
    (type content : Str) (s : FactStore)
    → IsAddressed s.entries
    → IsAddressed (append type content s).1.entries
unfolding append
append-IsAddressed type content s v =
    elim (Bool-cases (contains (digest_hex type content) s.entries)) [
      | inl old ↦ rw (append, old) v
      | inr new ↦ rw (append, new) (add_fact-IsAddressed type content s.entries v)
    ]

-- The identifier that `append` returns finds a fact with that identifier, whose type and content
-- have the digest of those appended. It is the fact itself unless another fact with that digest was
-- in the store before.
pub get-append :
    (type content : Str) (s : FactStore)
    → IsAddressed s.entries
    → let (id, s') = append type content s in
      (x : Fact) × (get id s' ≡ some x)
      × (x.id ≡ id)
      × (digest_hex x.type x.content ≡ digest_hex type content)
      × (get id s ≡ none → (x.type ≡ type) × (x.content ≡ content))
unfolding append get add_fact
get-append type content s v =
    let id = digest_hex type content in
    elim (Bool-cases (contains id s.entries)) [
      | inl old ↦
          let (x, e) = contains-some id s.entries old in
          let (named, filed) = v.at_key id x e in
          rw (append, old) (x, e, named, filed, λ absent. cc (e, absent))
      | inr new ↦
          rw (append, new)
            (
              record { id = id; type = type; content = content },
              lookup-insert_self id _ s.entries,
              refl,
              refl,
              λ absent. (refl, refl),
            )
    ]

append_known :
    (type content : Str) (s : FactStore)
    → contains (digest_hex type content) s.entries ≡ true
    → append type content s ≡ (digest_hex type content, s)
unfolding append
append_known type content s old = rw (append, old) refl

pub append-id :
    (type content : Str) (s : FactStore) → (append type content s).0 ≡ digest_hex type content
unfolding append
append-id type content s = ground arith

pub contains-append :
    (type content : Str) (s : FactStore)
    → contains (digest_hex type content) (append type content s).1.entries ≡ true
unfolding append add_fact
contains-append type content s =
    let id = digest_hex type content in
    elim (Bool-cases (contains id s.entries)) [
      | inl old ↦ rw (append, old) old
      | inr new ↦
          rw (append, new)
            (contains-of-lookup id (record { id = id; type = type; content = content }) _
              (lookup-insert_self id _ s.entries))
    ]

-- Appending a fact again returns the same identifier and changes nothing: neither the entries nor
-- the file grow.
pub append_again :
    (type content : Str) (s : FactStore)
    → append type content (append type content s).1 ≡ append type content s
append_again type content s =
    append_known type content (append type content s).1 (contains-append type content s)
    ∙ ap (λ id. (id, (append type content s).1)) (sym (append-id type content s))
