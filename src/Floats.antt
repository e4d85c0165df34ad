-- ===== src/Floats.antt =====
-- `double`. The proofs need no law of the floating-point operations: they are parameters.
use g.Base.{ℕ, Bool}

pub record Floats : Type 1 where
  pub Double : Type 0
  pub zero_double : Double
  pub one_double : Double
  pub less : Double → Double → Bool
  pub plus : Double → Double → Double
  pub times : Double → Double → Double
  pub divide : Double → Double → Double
  pub of_count : ℕ → Double
