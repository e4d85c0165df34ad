-- ===== src/Telemetry/Modules.antt =====
-- The times of a module are those recorded under its name.
use g.Base.{
  ◌≡◌, refl, List, [], ◌∷◌, Option, none, some, Str, str_eq, str_eq_iff, str_eq_refl, if◌then◌else◌,
  succ64, arith, Bool-cases, inl, inr,
}
use g.Floats.{Floats}
use g.Telemetry.{ModuleMetrics, Telemetry, add_time, record_module}

module _ (f : Floats) where
  open f use {Double, plus}

  -- the first metrics under a name
  pub metrics_of : Str → List (ModuleMetrics f) → Option (ModuleMetrics f)
  metrics_of name [] = none
  metrics_of name (m ∷ ms) = if str_eq m.name name then some m else metrics_of name ms

  -- one more time under a name
  pub timed : Str → Double → Option (ModuleMetrics f) → ModuleMetrics f
  timed name ms none = record { name = name; invocations = 1; total_ms = ms; last_ms = ms }
  timed name ms (some m) = record m {
    invocations = succ64 m.invocations;
    total_ms = plus m.total_ms ms;
    last_ms = ms;
  }

  metrics_of-add_time :
      (name other : Str) (ms : Double) (xs : List (ModuleMetrics f))
      → metrics_of other (add_time f name ms xs) ≡ (
          if str_eq name other
          then some (timed name ms (metrics_of name xs))
          else metrics_of other xs)
  unfolding add_time metrics_of timed
  metrics_of-add_time name other ms [] = refl
  metrics_of-add_time name other ms (m ∷ xs) = elim (Bool-cases (str_eq m.name name)) [
    | inl e ↦ let same = (str_eq_iff m.name name).0 e in ground (arith, e, same)
    | inr e ↦ elim (Bool-cases (str_eq m.name other)) [
      | inl g ↦
          ground (arith, e, g, str_eq_iff m.name other, str_eq_iff name other, str_eq_refl name)
      | inr g ↦ ground (arith, e, g, metrics_of-add_time name other ms xs)
    ]
  ]

  -- A time goes to the metrics of its module, new or old, and to no other.
  pub metrics_of-record_module :
      (name other : Str) (ms : Double) (t : Telemetry f)
      → metrics_of other (record_module f name ms t).modules ≡ (
          if str_eq name other
          then some (timed name ms (metrics_of name t.modules))
          else metrics_of other t.modules)
  unfolding record_module
  metrics_of-record_module name other ms t = metrics_of-add_time name other ms t.modules
