-- ===== src/Orchestrator/Routing/Tiers.antt =====
-- What a tier answers with.
use g.Base.{◌≡◌, refl, Bool, true, false, some, Str, Bool-cases, if◌then◌else◌, inl, inr}
use g.Floats.{Floats}
use g.Types.{Result}
use g.Cascade.{Tier, small, large, Role, ModelCascade, route_for}
use g.Orchestrator.Routing.{
  ProviderRouter, ModelResponse, set_provider, set_tier, for_tier, complete_for,
}

-- is one tier the other?
pub same_tier : Tier → Tier → Bool
same_tier small small = true
same_tier large large = true
same_tier small large = false
same_tier large small = false

for_tier-set_provider :
    {P : Type 0} (wrap : P → P) (p : P) (t u : Tier) (r : ProviderRouter P)
    → for_tier u (set_provider wrap t (some p) r)
      ≡ (if same_tier t u then some (wrap p) else for_tier u r)
unfolding for_tier set_provider set_tier same_tier
for_tier-set_provider wrap p small small r = refl
for_tier-set_provider wrap p small large r = refl
for_tier-set_provider wrap p large small r = refl
for_tier-set_provider wrap p large large r = refl

module _ (f : Floats) {Json Messages World : Type 0} where
  -- After a tier is given a provider, a role that is routed to this tier is answered by the
  -- provider as it is wrapped, and a role that is routed to the other is answered as before.
  pub complete_for-set_provider :
      (text : Tier → Str) (c : ModelCascade f)
      (wrap : (Messages → World → Result (ModelResponse Json) × World)
        → Messages
        → World
        → Result (ModelResponse Json) × World)
      (p : Messages → World → Result (ModelResponse Json) × World) (tier : Tier)
      (r : ProviderRouter (Messages → World → Result (ModelResponse Json) × World)) (role : Role)
      (messages : Messages) (w : World)
      → complete_for f text c (set_provider wrap tier (some p) r) role messages w ≡ (
          if same_tier tier (route_for f c role)
          then wrap p messages w
          else complete_for f text c r role messages w)
  unfolding complete_for
  complete_for-set_provider text c wrap p tier r role messages w =
      let found = for_tier-set_provider wrap p tier (route_for f c role) r in
      elim (Bool-cases (same_tier tier (route_for f c role))) [
        | inl e ↦ rw (complete_for, found, e) refl
        | inr e ↦ rw (complete_for, found, e) refl
      ]
