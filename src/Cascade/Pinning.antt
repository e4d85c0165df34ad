-- ===== src/Cascade/Pinning.antt =====
-- Histories of the cascade.
use g.Base.{
  ℕ, ◌+◌, ◌^◌, ◌<◌, ◌≡◌, refl, ◌∙◌, Bool, true, ◌&&◌, List, [], ◌∷◌, leb, ltb, arith, succ32-eq,
}
use g.Floats.{Floats}
use g.Cascade.{
  Tier, small, large, Role, chore, or_fresh, ModelCascade, route_for, record_outcome,
  record_failure, is_pinned, clear_pin,
}

-- what the orchestrator reports
pub data Report : Type 0 where
  outcome : Tier → Role → Bool → Report
  failure : Tier → Role → Report

-- the failures of the small tier in a history
unfoldable pub small_failures : List Report → ℕ
small_failures [] = 0
small_failures (failure small role ∷ rs) = 1 + small_failures rs
small_failures (_ ∷ rs) = small_failures rs

module _ (f : Floats) where
  pub report : Report → ModelCascade f → ModelCascade f
  report (outcome tier role diverged) c = record_outcome f tier role diverged c
  report (failure tier role) c = record_failure f tier role c

  pub reports : List Report → ModelCascade f → ModelCascade f
  reports [] c = c
  reports (r ∷ rs) c = reports rs (report r c)

  abbrev pub failures_of : ModelCascade f → ℕ
  failures_of c = (or_fresh c.small_state).failures

  -- The pin shows that the limit was reached.
  pub record IsPinnedRight (c : ModelCascade f) : Type 0 where
    pub right :
        c.chore_pinned ≡ (leb c.max_failures_before_pin (failures_of c) && ltb 0 (failures_of c))

  report-failures :
      (r : Report) (c : ModelCascade f)
      → failures_of c + 1 < 2 ^ 32
      → (failures_of (report r c) ≡ failures_of c + small_failures (r ∷ []))
        × ((report r c).max_failures_before_pin ≡ c.max_failures_before_pin)
  unfolding report record_outcome record_failure small_failures
  report-failures (outcome small role diverged) c lt = (ground arith, refl)
  report-failures (outcome large role diverged) c lt = (ground arith, refl)
  report-failures (failure small role) c lt = ground (arith, succ32-eq (failures_of c) lt)
  report-failures (failure large role) c lt = ground arith

  report-IsPinnedRight :
      (r : Report) (c : ModelCascade f)
      → failures_of c + 1 < 2 ^ 32
      → IsPinnedRight c
      → IsPinnedRight (report r c)
  unfolding report record_outcome record_failure
  report-IsPinnedRight (outcome small role diverged) c lt v = record {
    right = ground (arith, v.right);
  }
  report-IsPinnedRight (outcome large role diverged) c lt v = record {
    right = ground (arith, v.right);
  }
  report-IsPinnedRight (failure small role) c lt v = record {
    right = ground (arith, v.right, succ32-eq (failures_of c) lt);
  }
  report-IsPinnedRight (failure large role) c lt v = record { right = ground (arith, v.right) }

  report-pinned :
      (r : Report) (c : ModelCascade f) → c.chore_pinned ≡ true → (report r c).chore_pinned ≡ true
  unfolding report record_outcome record_failure
  report-pinned (outcome small role diverged) c h = h
  report-pinned (outcome large role diverged) c h = h
  report-pinned (failure small role) c h = ground (arith, h)
  report-pinned (failure large role) c h = h

  small_failures-cons :
      (r : Report) (rs : List Report)
      → small_failures (r ∷ rs) ≡ small_failures (r ∷ []) + small_failures rs
  unfolding small_failures
  small_failures-cons (outcome tier role diverged) rs = omega arith
  small_failures-cons (failure small role) rs = omega arith
  small_failures-cons (failure large role) rs = omega arith

  reports-IsPinnedRight :
      (rs : List Report) (c : ModelCascade f)
      → failures_of c + small_failures rs + 1 < 2 ^ 32
      → IsPinnedRight c
      → IsPinnedRight (reports rs c)
        × (failures_of (reports rs c) ≡ failures_of c + small_failures rs)
        × ((reports rs c).max_failures_before_pin ≡ c.max_failures_before_pin)
  unfolding reports
  reports-IsPinnedRight [] c lt v = (v, unfold small_failures in omega arith, refl)
  reports-IsPinnedRight (r ∷ rs) c lt v =
      let split = small_failures-cons r rs in
      let (one, kept) = report-failures r c (omega arith) in
      let (pinned, all, kept') =
        reports-IsPinnedRight rs (report r c) (omega (arith, one, split))
          (report-IsPinnedRight r c (omega arith) v) in
      (pinned, omega (arith, all, one, split), kept' ∙ kept)

  -- After any history of outcomes and failures since a reset, chores are pinned to the large tier
  -- exactly when the small tier has failed, and at least as often as the limit says.
  pub reports-pinned :
      (rs : List Report) (c : ModelCascade f)
      → small_failures rs + 1 < 2 ^ 32
      → is_pinned f (reports rs (clear_pin f c)) small
        ≡ (leb c.max_failures_before_pin (small_failures rs) && ltb 0 (small_failures rs))
  unfolding is_pinned
  reports-pinned rs c lt =
      let fresh : IsPinnedRight (clear_pin f c) = record {
        right = unfold clear_pin in ground arith;
      } in
      let none_yet : failures_of (clear_pin f c) ≡ 0 = unfold clear_pin in refl in
      let limit : (clear_pin f c).max_failures_before_pin ≡ c.max_failures_before_pin =
        unfold clear_pin in refl in
      let (pinned, all, kept) =
        reports-IsPinnedRight rs (clear_pin f c) (omega (arith, none_yet)) fresh in
      let count : failures_of (reports rs (clear_pin f c)) ≡ small_failures rs =
        omega (arith, all, none_yet) in
      ground (arith, pinned.right, count, kept, limit)

  -- Once the pin is set, nothing that is reported takes it back, and chores go to the large tier.
  pub reports-route_for :
      (rs : List Report) (c : ModelCascade f)
      → c.chore_pinned ≡ true
      → route_for f (reports rs c) chore ≡ large
  unfolding reports route_for
  reports-route_for [] c h = ground (arith, h)
  reports-route_for (r ∷ rs) c h = reports-route_for rs (report r c) (report-pinned r c h)
