-- ===== src/Json.antt =====
-- The JSON library, as the engine uses it: values are opaque, and each accessor is `none` where the
-- value is of another kind. Only Digest/Storing assumes laws of it.
use g.Base.{ℕ, Bool, List, Option, Str}

pub record JsonLib : Type 1 where
  pub Json : Type 0
  pub null : Json
  pub is_null : Json → Bool
  -- `none` is the exception, or the discarded value, of malformed text
  pub parse : Str → Option Json
  -- of a value whose text is UTF-8; where it is not, `dump` throws, which `run_tools` of the
  -- orchestrator and `run_local` of the panel look at
  pub dump : Json → Str
  -- `is_object()` with the members in key order, `is_array()` with the elements
  pub members : Json → Option (List (Str × Json))
  pub elements : Json → Option (List Json)
  pub as_string : Json → Option Str
  pub as_boolean : Json → Option Bool
  pub as_unsigned : Json → Option ℕ
  -- `std::to_string` of an integer, and of a floating-point number
  pub integer_text : Json → Option Str
  pub float_text : Json → Option Str
  -- the values that the engine builds
  pub of_string : Str → Json
  pub of_number : ℕ → Json
  pub of_boolean : Bool → Json
  pub of_members : List (Str × Json) → Json
  pub of_elements : List Json → Json
