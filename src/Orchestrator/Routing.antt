-- ===== src/Orchestrator/Routing.antt =====
-- llm/provider_router, and how the orchestrator asks a tier and learns from the answer. A provider
-- is a function on the world that it talks to, already wrapped for retries.
pub mod Tiers
use g.Base.{
  ◌++◌, ℕ, suc, ◌+◌, Bool, true, false, ◌&&◌, not, List, ◌∷◌, [], Option, none, some, Str, txt,
  if◌then◌else◌, is_empty,
}
use g.Floats.{Floats}
use g.Types.{Result, ok, fail, Error, internal, TurnOutcome}
use g.Cascade.{Tier, small, large, Role, ModelCascade, route_for, record_outcome, record_failure}

-- `Budget`
pub record Budget (f : Floats) : Type 0 where
  pub max_turns : ℕ
  pub max_cost : f.Double
  pub active : Bool

-- `ModelResponse`
pub record ModelResponse (Json : Type 0) : Type 0 where
  pub outcome : TurnOutcome
  pub raw : Json

-- `budget_exhausted`: the reason, if there is one; `at_least` is `>=` on doubles
unfoldable pub budget_exhausted :
    (f : Floats) → (f.Double → f.Double → Bool) → Budget f → f.Double → Option Str
budget_exhausted f at_least budget cost =
    if not budget.active
    then none
    else if f.less f.zero_double budget.max_cost && at_least cost budget.max_cost
    then some (txt "max_cost")
    else none

-- `providers_`, a map of two tiers at most
pub record ProviderRouter (P : Type 0) : Type 0 where
  pub small_provider : Option P
  pub large_provider : Option P

module _ {P : Type 0} where
  unfoldable pub empty_router : ProviderRouter P
  empty_router = record { small_provider = none; large_provider = none }

  -- `set`; a null provider is an exception, `none`
  unfoldable pub set_tier : Tier → Option P → ProviderRouter P → Option (ProviderRouter P)
  set_tier tier none r = none
  set_tier small (some p) r = some (record r { small_provider = some p })
  set_tier large (some p) r = some (record r { large_provider = some p })

  -- `for_tier`; `none` is the exception
  unfoldable pub for_tier : Tier → ProviderRouter P → Option P
  for_tier small r = r.small_provider
  for_tier large r = r.large_provider

  is_some : Option P → Bool
  is_some none = false
  is_some (some p) = true

  unfoldable pub has_tier : Tier → ProviderRouter P → Bool
  unfolding is_some for_tier
  has_tier tier r = is_some (for_tier tier r)

  unfoldable pub provider_count : ProviderRouter P → ℕ
  unfolding is_some
  provider_count r =
      (if is_some r.small_provider then 1 else 0) + (if is_some r.large_provider then 1 else 0)

  -- `Orchestrator::set_provider`: a null provider changes nothing, another is wrapped
  unfoldable pub set_provider : (P → P) → Tier → Option P → ProviderRouter P → ProviderRouter P
  set_provider retrying tier none r = r
  set_provider retrying tier (some p) r = elim (set_tier tier (some (retrying p)) r) [
    | none ↦ r
    | some r' ↦ r'
  ]

module _ (f : Floats) {Json Messages World : Type 0} where
  -- `complete_for`; `tier_text` is the number of a tier as text
  unfoldable pub complete_for :
      (Tier → Str)
      → ModelCascade f
      → ProviderRouter (Messages → World → Result (ModelResponse Json) × World)
      → Role
      → Messages
      → World
      → Result (ModelResponse Json) × World
  complete_for tier_text c r role messages w = elim (for_tier (route_for f c role) r) [
    | none ↦ (
      fail (record {
        kind = internal;
        message = txt "no provider for tier " ++ tier_text (route_for f c role);
      }),
      w,
    )
    | some p ↦ p messages w
  ]

module _ (f : Floats) {Json : Type 0} where
  -- `observe_outcome`: an empty plan that uses tools counts as a divergence
  unfoldable pub observe_outcome :
      Tier → Role → Result (ModelResponse Json) → ModelCascade f → ModelCascade f
  observe_outcome tier role (fail e) c = record_failure f tier role c
  observe_outcome tier role (ok r) c =
      record_outcome f tier role (is_empty r.outcome.plan && r.outcome.has_tool_use) c
