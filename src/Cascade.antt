-- ===== src/Cascade.antt =====
-- core/model_cascade: which of two models answers, by the record of the small one. The map of tier
-- states is one optional state for each of the two tiers.
pub mod Pinning
use g.Base.{
  ℕ, zero, Bool, true, false, ◌&&◌, ◌||◌, Option, none, some, leb, ltb, ◌==◌, if◌then◌else◌, succ32,
  succ64,
}
use g.Floats.{Floats}

pub data Tier : Type 0 where
  small large : Tier

pub data Role : Type 0 where
  chore decision : Role

pub record TierState : Type 0 where
  pub attempts : ℕ
  pub divergences : ℕ
  pub failures : ℕ

abbrev pub fresh_tier : TierState
fresh_tier = record { attempts = 0; divergences = 0; failures = 0 }

-- `tiers_[tier]` of a state that may not be there yet
abbrev pub or_fresh : Option TierState → TierState
or_fresh none = fresh_tier
or_fresh (some s) = s

module _ (f : Floats) where
  open f use {Double, zero_double, one_double, less, divide, of_count}

  pub record ModelCascade : Type 0 where
    pub chore_pinned : Bool
    pub max_failures_before_pin : ℕ
    pub missing_upgrade_threshold : Double
    pub small_state : Option TierState
    pub large_state : Option TierState

  unfoldable pub state_of : ModelCascade → Tier → Option TierState
  state_of c small = c.small_state
  state_of c large = c.large_state

  unfoldable pub with_state : ModelCascade → Tier → TierState → ModelCascade
  with_state c small s = record c { small_state = some s }
  with_state c large s = record c { large_state = some s }

  rate : Option TierState → Double
  rate none = zero_double
  rate (some s) =
      if s.attempts == 0 then zero_double else divide (of_count s.divergences) (of_count s.attempts)

  unfoldable pub divergence_rate : ModelCascade → Tier → Double
  unfolding rate state_of
  divergence_rate c tier = rate (state_of c tier)

  route_chore : ModelCascade → Option TierState → Tier
  route_chore c none = small
  route_chore c (some s) =
      if ltb 0 s.attempts && less c.missing_upgrade_threshold (divergence_rate c small)
      then large
      else small

  unfoldable pub route_for : ModelCascade → Role → Tier
  unfolding route_chore
  route_for c decision = large
  route_for c chore = if c.chore_pinned then large else route_chore c c.small_state

  unfoldable pub record_outcome : Tier → Role → Bool → ModelCascade → ModelCascade
  unfolding state_of with_state
  record_outcome tier role diverged c =
      let s = or_fresh (state_of c tier) in
      with_state c tier (record s {
        attempts = succ64 s.attempts;
        divergences = if diverged then succ64 s.divergences else s.divergences;
      })

  -- the pin that `record_failure` may set, given the failures of the tier after it
  pin_after : Tier → ℕ → ModelCascade → ModelCascade
  pin_after small failures c =
      if leb c.max_failures_before_pin failures then record c { chore_pinned = true } else c
  pin_after large failures c = c

  unfoldable pub record_failure : Tier → Role → ModelCascade → ModelCascade
  unfolding state_of with_state pin_after
  record_failure tier role c =
      let s = or_fresh (state_of c tier) in
      let failures = succ32 s.failures in
      pin_after tier failures (with_state c tier (record s { failures = failures }))

  unfoldable pub set_max_failures_before_pin : ℕ → ModelCascade → ModelCascade
  set_max_failures_before_pin n c = record c { max_failures_before_pin = n }

  -- `none` is the thrown `out_of_range`
  unfoldable pub set_missing_upgrade_threshold : Double → ModelCascade → Option ModelCascade
  set_missing_upgrade_threshold t c =
      if less t zero_double || less one_double t
      then none
      else some (record c { missing_upgrade_threshold = t })

  unfoldable pub clear_pin : ModelCascade → ModelCascade
  clear_pin c = record c { chore_pinned = false; small_state = none; large_state = none }

  large_pinned : ModelCascade → Option TierState → Bool
  large_pinned c none = false
  large_pinned c (some s) =
      if s.attempts == 0 then false else less c.missing_upgrade_threshold (divergence_rate c small)

  unfoldable pub is_pinned : ModelCascade → Tier → Bool
  unfolding large_pinned
  is_pinned c small = c.chore_pinned
  is_pinned c large = if c.chore_pinned then large_pinned c c.small_state else false
