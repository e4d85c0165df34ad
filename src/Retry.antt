-- ===== src/Retry.antt =====
-- llm/retrying_provider: a provider that asks another one again after a failure. The inner provider
-- is code behind a virtual call, over the state `World` of what it talks to. The growth of the
-- waiting time is a `double` product cut to whole milliseconds: `grow` is that function.
pub mod Attempts
use mathlib.Core.Option
use g.Base.{
  ℕ, zero, suc, ◌+◌, Bool, true, false, List, [], ◌∷◌, ◌++◌, Option, none, some, txt, leb, min,
  if◌then◌else◌, succ32,
}
use g.Types.{Error, ErrorKind, validation, cancelled, internal, Result, ok, fail}

pub record RetryPolicy : Type 0 where
  pub max_attempts : ℕ
  pub initial_backoff : ℕ
  pub max_backoff : ℕ

-- `attempts_` and `retries_`
pub record Counters : Type 0 where
  pub attempts : ℕ
  pub retries : ℕ

-- What `complete` returns and does: the result, the world, the counters and the waits, in order.
pub record Completed (R World : Type 0) : Type 0 where
  pub result : Result R
  pub world : World
  pub counters : Counters
  pub sleeps : List ℕ

-- Validation and cancellation errors are not retried.
unfoldable pub is_final : ErrorKind → Bool
is_final validation = true
is_final cancelled = true
is_final _ = false

module _ {R World : Type 0} (grow : ℕ → ℕ) (policy : RetryPolicy) where
  -- the loop from `attempt` on, with `left` attempts to go and `last` the latest result
  unfoldable pub attempts_from :
      (World → Result R × World) → ℕ → ℕ → ℕ → Result R → Counters → World → Completed R World
  attempts_from inner zero attempt backoff last k w = record {
    result = last;
    world = w;
    counters = k;
    sleeps = [];
  }
  attempts_from inner (suc left) attempt backoff last k w =
      let (r, w1) = inner w in
      let k1 = record k { attempts = succ32 k.attempts } in
      let stop : Completed R World = record {
        result = r;
        world = w1;
        counters = k1;
        sleeps = [];
      } in
      let again =
        attempts_from inner left (attempt + 1) (min (grow backoff) policy.max_backoff) r
          (record k1 { retries = succ32 k1.retries }) w1 in
      elim r [
        | ok value ↦ stop
        | fail e ↦
            if is_final e.kind
            then stop
            else if leb policy.max_attempts (attempt + 1)
            then stop
            else record again { sleeps = backoff ∷ again.sleeps }
      ]

  -- `complete`; a null inner provider is `none`
  unfoldable pub complete : Option (World → Result R × World) → Counters → World → Completed R World
  complete none k w = record {
    result = fail (record { kind = internal; message = txt "retrying provider has no inner" });
    world = w;
    counters = k;
    sleeps = [];
  }
  complete (some inner) k w =
      attempts_from inner policy.max_attempts 0 policy.initial_backoff
        (fail (record { kind = internal; message = txt "default-constructed Result" })) k w
