-- ===== src/Types.antt =====
-- core/types.hpp and core/error.hpp: the values that the components exchange.
use g.Base.{ℕ, Str, Bool, true, false}

-- `ToolCall`; the ordinal is a `uint64_t` that numbers the calls of one response.
pub record ToolCall : Type 0 where
  pub name : Str
  pub arguments : Str
  pub ordinal : ℕ

pub data ErrorKind : Type 0 where
  none_kind provider_failure tool_failed timeout validation budget_exhausted cancelled : ErrorKind
  internal : ErrorKind

pub record Error : Type 0 where
  pub kind : ErrorKind
  pub message : Str

-- `Result<T>`: an `Error` or a value.
pub data Result {ℓ} (A : Type ℓ) : Type ℓ where
  ok : A → Result A
  fail : Error → Result A

-- `Result::ok()`
abbrev pub is_ok {ℓ} : {A : Type ℓ} → Result A → Bool
is_ok (ok a) = true
is_ok (fail e) = false

-- `TurnOutcome`
pub record TurnOutcome : Type 0 where
  pub plan : Str
  pub has_tool_use : Bool
  pub tool_count : ℕ
  pub completed : Bool
