-- ===== src/Digest/Storing.antt =====
-- A digest that is stored as JSON is read back.
use g.Base.{
  ◌≡◌, refl, sym, ap, ◌∙◌, true, List, [], ◌∷◌, ◌++◌, map, append-nil, append_assoc, some, Str,
  str_eq, str_lt, lookup, insert_sorted, Before, After, Ascending, insert_sorted-last,
  insert_sorted-Ascending, All, All-append, Option-cases, inl, inr,
}
use g.Json.{JsonLib}
use g.Floats.{Floats}
use g.Digest.{HardKeys, hard_keys, scalar_keys, scalar_text}
use g.Digest.Soft.{SoftOps, Digest, build}
use g.Digest.Stored.{
  DoubleJson, key_members, soft_members, digest_members, to_json, value_or, read_keys, read_doubles,
  as_doubles, read_hard_keys, from_json, IsFaithful,
}

-- The keys of a digest are kept in key order.
scalar_keys-Ascending :
    (j : JsonLib) (ms : List (Str × j.Json)) (keys : HardKeys)
    → Ascending keys
    → Ascending (scalar_keys j ms keys)
unfolding scalar_keys
scalar_keys-Ascending j [] keys h = h
scalar_keys-Ascending j ((k, v) ∷ ms) keys h = elim (Option-cases (scalar_text j v)) [
  | inl e ↦ rw (Ascending, e) (scalar_keys-Ascending j ms keys h)
  | inr (s, e) ↦
      rw (Ascending, e)
        (scalar_keys-Ascending j ms (insert_sorted k s keys) (insert_sorted-Ascending k s keys h))
]

hard_keys-Ascending : (j : JsonLib) (content : Str) → Ascending (hard_keys j content)
unfolding hard_keys
hard_keys-Ascending j [] = tt
hard_keys-Ascending j (c ∷ s) = elim (Option-cases (j.parse (c ∷ s))) [
  | inl e ↦ rw (Ascending, e) tt
  | inr (v, e) ↦ elim (Option-cases (j.members v)) [
    | inl q ↦ rw (Ascending, e, q) tt
    | inr (ms, q) ↦ rw (Ascending, e, q) (scalar_keys-Ascending j ms [] tt)
  ]
]

module _ {j : JsonLib} {f : Floats} (dj : DoubleJson j f) (faithful : IsFaithful dj) where
  open j use {Json, of_string}
  open dj use {of_double}

  Before-key_members : (k : Str) (keys : HardKeys) → Before k keys → Before k (key_members dj keys)
  Before-key_members k [] h = tt
  Before-key_members k (e ∷ keys) (h, hs) = (h, Before-key_members k keys hs)

  Ascending-key_members : (keys : HardKeys) → Ascending keys → Ascending (key_members dj keys)
  Ascending-key_members [] h = tt
  Ascending-key_members ((k, v) ∷ keys) (h, hs) =
      (Before-key_members k keys h, Ascending-key_members keys hs)

  -- All keys of one map come before those of the other.
  abbrev Precedes : HardKeys → HardKeys → Type 0
  Precedes keys = All (λ e. After e.0 keys)

  Precedes-append :
      (k v : Str) (keys rest : HardKeys)
      → Before k rest
      → Precedes keys rest
      → Precedes (keys ++ (k, v) ∷ []) rest
  Precedes-append k v keys [] b h = tt
  Precedes-append k v keys ((i, w) ∷ rest) (b, bs) (h, hs) = (
    All-append (λ e. str_lt e.0 i ≡ true) keys ((k, v) ∷ []) h (b, tt),
    Precedes-append k v keys rest bs hs,
  )

  read_keys-key_members :
      (keys rest : HardKeys)
      → Ascending rest
      → Precedes keys rest
      → read_keys dj keys (key_members dj rest) ≡ some (keys ++ rest)
  unfolding read_keys
  read_keys-key_members keys [] h p = ap some (sym (append-nil keys))
  read_keys-key_members keys ((k, v) ∷ rest) (h, hs) (p, ps) =
      rw (faithful.text v, insert_sorted-last k v keys p)
        (read_keys-key_members (keys ++ (k, v) ∷ []) rest hs (Precedes-append k v keys rest h ps)
          ∙ ap some (append_assoc keys ((k, v) ∷ []) rest))

  nothing-Precedes : (rest : HardKeys) → Precedes [] rest
  nothing-Precedes [] = tt
  nothing-Precedes (e ∷ rest) = (tt, nothing-Precedes rest)

  read_doubles-map : (ds : List f.Double) → read_doubles dj (map of_double ds) ≡ some ds
  unfolding read_doubles
  read_doubles-map [] = refl
  read_doubles-map (d ∷ ds) = rw (faithful.number d, read_doubles-map ds) refl

  -- a digest whose keys are in key order
  from_json-to_json_sorted :
      (d : Digest f) → Ascending d.keys → from_json dj (to_json dj d) ≡ some d
  unfolding from_json to_json value_or read_hard_keys as_doubles lookup str_eq str_lt
  from_json-to_json_sorted d h =
      rw
        (
          faithful.object (digest_members dj d) ((refl, (refl, tt)), ((refl, tt), (tt, tt))),
          faithful.text d.fingerprint,
          faithful.object (key_members dj d.keys) (Ascending-key_members d.keys h),
          read_keys-key_members [] d.keys h (nothing-Precedes d.keys),
          faithful.object (soft_members dj d.soft) ((refl, tt), (tt, tt)),
          faithful.number d.soft.confidence,
          faithful.array (map of_double d.soft.embedding),
          read_doubles-map d.soft.embedding,
        )
        refl

-- Where the JSON library keeps what it is given, a digest that is built from a content, written as
-- JSON and read is the same digest: its fingerprint, its keys and the soft fingerprint.
pub from_json-to_json :
    {j : JsonLib} {f : Floats} (dj : DoubleJson j f)
    → IsFaithful dj
    → (ops : SoftOps f) (type content : Str)
    → from_json dj (to_json dj (build j ops type content)) ≡ some (build j ops type content)
from_json-to_json {j} dj faithful ops type content =
    from_json-to_json_sorted dj faithful (build j ops type content)
      (unfold build in hard_keys-Ascending j content)
