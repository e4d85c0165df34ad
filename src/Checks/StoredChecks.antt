-- ===== src/Checks/StoredChecks.antt =====
-- A digest with two keys, stored as JSON and read.
use g.Base.{
  ℕ, ◌+◌, ◌*◌, ◌≡◌, refl, ◌>>=◌, false, List, [], ◌∷◌, Option, none, some, Str, txt, Map, ltb,
}
use g.Json.{JsonLib}
use g.Floats.{Floats}
use g.Digest.Soft.{SoftOps, build}
use g.Digest.Stored.{DoubleJson, IsFaithful, to_json, from_json}
use g.Digest.Storing.{from_json-to_json}

-- Objects and arrays are built member by member.
data Doc : Type 0 where
  leaf : Str → Doc
  amount : ℕ → Doc
  object_end : Doc
  member : Str → Doc → Doc → Doc
  array_end : Doc
  element : Doc → Doc → Doc

abbrev doc_members : Doc → Option (Map Doc)
doc_members object_end = some []
doc_members (member k v rest) = do ms ← doc_members rest; some ((k, v) ∷ ms)
doc_members _ = none

abbrev doc_elements : Doc → Option (List Doc)
doc_elements array_end = some []
doc_elements (element v rest) = do vs ← doc_elements rest; some (v ∷ vs)
doc_elements _ = none

abbrev doc_text : Doc → Option Str
doc_text (leaf s) = some s
doc_text _ = none

abbrev doc_amount : Doc → Option ℕ
doc_amount (amount n) = some n
doc_amount _ = none

abbrev object_of : Map Doc → Doc
object_of [] = object_end
object_of ((k, v) ∷ ms) = member k v (object_of ms)

abbrev array_of : List Doc → Doc
array_of [] = array_end
array_of (v ∷ vs) = element v (array_of vs)

-- Every text is that of one object.
abbrev settings : Doc
settings = member (txt "port") (leaf (txt "80")) (member (txt "host") (leaf (txt "h")) object_end)

abbrev store : JsonLib
store = record {
  Json = Doc;
  null = object_end;
  is_null = λ v. false;
  parse = λ s. some settings;
  dump = λ v. txt "{}";
  members = doc_members;
  elements = doc_elements;
  as_string = doc_text;
  as_boolean = λ v. none;
  as_unsigned = doc_amount;
  integer_text = λ v. none;
  float_text = λ v. none;
  of_string = leaf;
  of_number = amount;
  of_boolean = λ b. object_end;
  of_members = object_of;
  of_elements = array_of;
}

abbrev whole : Floats
whole = record {
  Double = ℕ;
  zero_double = 0;
  one_double = 4;
  less = ltb;
  plus = λ a b. a + b;
  times = λ a b. a * b;
  divide = λ a b. a;
  of_count = λ n. n;
}

abbrev whole_ops : SoftOps whole
whole_ops = record { half = 2; quarter = 1; negate = λ a. a; sqrt = λ a. a }

abbrev doubles : DoubleJson store whole
doubles = record { of_double = amount; as_double = doc_amount }

members-object_of : (ms : Map Doc) → doc_members (object_of ms) ≡ some ms
members-object_of [] = refl
members-object_of ((k, v) ∷ ms) = rw (members-object_of ms) refl

elements-array_of : (vs : List Doc) → doc_elements (array_of vs) ≡ some vs
elements-array_of [] = refl
elements-array_of (v ∷ vs) = rw (elements-array_of vs) refl

doubles-IsFaithful : IsFaithful doubles
doubles-IsFaithful = record {
  object = λ ms h. members-object_of ms;
  array = elements-array_of;
  text = λ s. refl;
  number = λ d. refl;
}

from_json-to_json_example :
    from_json doubles (to_json doubles (build store whole_ops (txt "config") (txt "{}")))
    ≡ some (build store whole_ops (txt "config") (txt "{}"))
from_json-to_json_example =
    from_json-to_json doubles doubles-IsFaithful whole_ops (txt "config") (txt "{}")
