-- ===== src/Digest/Stored.antt =====
-- core/digest: `to_json` and `from_json`. `none` is the exception of the JSON library: a value of
-- another type, or a member that is asked of what is no object.
use g.Base.{
  ◌≡◌, ◌>>=◌, List, [], ◌∷◌, map, Option, none, some, Str, txt, Map, lookup, insert_sorted,
  Ascending,
}
use g.Json.{JsonLib}
use g.Floats.{Floats}
use g.Digest.{HardKeys}
use g.Digest.Soft.{SoftFingerprint, Digest}

-- What the JSON library does with a `double`.
pub record DoubleJson (j : JsonLib) (f : Floats) : Type 0 where
  pub of_double : f.Double → j.Json
  pub as_double : j.Json → Option f.Double

module _ {j : JsonLib} {f : Floats} (dj : DoubleJson j f) where
  open j use {Json, members, elements, as_string, of_string, of_members, of_elements}
  open f use {Double, zero_double}
  open dj use {of_double, as_double}

  -- the keys of a map and their texts
  abbrev pub key_members : HardKeys → Map Json
  key_members = map (λ e. (e.0, of_string e.1))

  -- `j["soft"]`
  abbrev pub soft_members : SoftFingerprint f → Map Json
  soft_members soft =
      (txt "confidence", of_double soft.confidence)
      ∷ (txt "embedding", of_elements (map of_double soft.embedding))
      ∷ []

  abbrev pub digest_members : Digest f → Map Json
  digest_members d =
      (txt "hard_fingerprint", of_string d.fingerprint)
      ∷ (txt "hard_keys", of_members (key_members d.keys))
      ∷ (txt "soft", of_members (soft_members d.soft))
      ∷ []

  unfoldable pub to_json : Digest f → Json
  to_json d = of_members (digest_members d)

  -- `value(key, fallback)` of an object with these members
  unfoldable pub value_or {ℓ} : {A : Type ℓ} → (Json → Option A) → Str → A → Map Json → Option A
  value_or read key fallback ms = elim (lookup key ms) [ none ↦ some fallback | some v ↦ read v ]

  -- the loop over `json["hard_keys"]`, after the keys `keys`
  unfoldable pub read_keys : HardKeys → List (Str × Json) → Option HardKeys
  read_keys keys [] = some keys
  read_keys keys ((k, v) ∷ rest) = do s ← as_string v; read_keys (insert_sorted k s keys) rest

  unfoldable pub read_doubles : List Json → Option (List Double)
  read_doubles [] = some []
  read_doubles (v ∷ vs) = do d ← as_double v; ds ← read_doubles vs; some (d ∷ ds)

  -- `get<std::vector<double>>()`
  unfoldable pub as_doubles : Json → Option (List Double)
  unfolding read_doubles
  as_doubles v = do vs ← elements v; read_doubles vs

  -- A member that is no object gives no keys.
  unfoldable pub read_hard_keys : Map Json → Option HardKeys
  unfolding read_keys
  read_hard_keys ms = elim (lookup (txt "hard_keys") ms) [
    | none ↦ some []
    | some v ↦ elim (members v) [ none ↦ some [] | some held ↦ read_keys [] held ]
  ]

  unfoldable pub from_json : Json → Option (Digest f)
  unfolding value_or read_hard_keys as_doubles
  from_json json = do
    ms ← members json
    fingerprint ← value_or as_string (txt "hard_fingerprint") [] ms
    keys ← read_hard_keys ms
    soft ← value_or some (txt "soft") (of_members []) ms
    parts ← members soft
    confidence ← value_or as_double (txt "confidence") zero_double parts
    embedding ← value_or as_doubles (txt "embedding") [] parts
    some (record {
      keys = keys;
      fingerprint = fingerprint;
      soft = record { embedding = embedding; confidence = confidence };
    })

-- What the JSON library keeps: an object its members, which it holds in key order, an array its
-- elements, a text and a number their value.
pub record IsFaithful {j : JsonLib} {f : Floats} (dj : DoubleJson j f) : Type 0 where
  pub object : (ms : Map j.Json) → Ascending ms → j.members (j.of_members ms) ≡ some ms
  pub array : (vs : List j.Json) → j.elements (j.of_elements vs) ≡ some vs
  pub text : (s : Str) → j.as_string (j.of_string s) ≡ some s
  pub number : (d : f.Double) → dj.as_double (dj.of_double d) ≡ some d
