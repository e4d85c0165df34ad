-- ===== src/Telemetry.antt =====
-- core/telemetry: counters and times of a run. Doubles are a parameter.
pub mod Modules
use g.Base.{
  ℕ, ◌+◌, ◌%◌, ◌^◌, Bool, true, false, not, List, [], ◌∷◌, ◌++◌, Str, str_eq, if◌then◌else◌, succ64,
}
use g.Floats.{Floats}

module _ (f : Floats) where
  open f use {Double, zero_double, one_double, less, plus, divide}

  pub record ModuleMetrics : Type 0 where
    pub name : Str
    pub invocations : ℕ
    pub total_ms : Double
    pub last_ms : Double

  pub record Telemetry : Type 0 where
    pub modules : List ModuleMetrics
    pub prompt_tokens : ℕ
    pub completion_tokens : ℕ
    pub cache_hits : ℕ
    pub cache_misses : ℕ
    pub tool_success : ℕ
    pub tool_failures : ℕ
    pub baseline_ms : Double
    pub wall_ms : Double

  unfoldable pub empty_telemetry : Telemetry
  empty_telemetry = record {
    modules = [];
    prompt_tokens = 0;
    completion_tokens = 0;
    cache_hits = 0;
    cache_misses = 0;
    tool_success = 0;
    tool_failures = 0;
    baseline_ms = zero_double;
    wall_ms = zero_double;
  }

  -- `find_if` by name and the update of what it finds; a module that is not found is appended
  unfoldable pub add_time : Str → Double → List ModuleMetrics → List ModuleMetrics
  add_time name ms [] = (record { name = name; invocations = 1; total_ms = ms; last_ms = ms }) ∷ []
  add_time name ms (m ∷ ms') =
      let rest = add_time name ms ms' in
      if str_eq m.name name
      then (record m {
        invocations = succ64 m.invocations;
        total_ms = plus m.total_ms ms;
        last_ms = ms;
      })
        ∷ ms'
      else m ∷ rest

  unfoldable pub record_module : Str → Double → Telemetry → Telemetry
  unfolding add_time
  record_module name ms t = record t { modules = add_time name ms t.modules }

  unfoldable pub record_token : ℕ → ℕ → Telemetry → Telemetry
  record_token prompt completion t = record t {
    prompt_tokens = (t.prompt_tokens + prompt) % 2 ^ 64;
    completion_tokens = (t.completion_tokens + completion) % 2 ^ 64;
  }

  unfoldable pub record_cache_hit : Bool → Telemetry → Telemetry
  record_cache_hit true t = record t { cache_hits = succ64 t.cache_hits }
  record_cache_hit false t = record t { cache_misses = succ64 t.cache_misses }

  unfoldable pub record_tool_call : Bool → Telemetry → Telemetry
  record_tool_call true t = record t { tool_success = succ64 t.tool_success }
  record_tool_call false t = record t { tool_failures = succ64 t.tool_failures }

  unfoldable pub set_baseline_ms : Double → Telemetry → Telemetry
  set_baseline_ms ms t = record t { baseline_ms = ms }

  unfoldable pub set_wall_clock_ms : Double → Telemetry → Telemetry
  set_wall_clock_ms ms t = record t { wall_ms = ms }

  -- `at_most` is `<=` on doubles
  unfoldable pub speedup_x : (Double → Double → Bool) → Telemetry → Double
  speedup_x at_most t =
      if at_most t.wall_ms zero_double then one_double else divide t.baseline_ms t.wall_ms

  -- the loop, from `total` on
  unfoldable pub sum_ms : Double → List ModuleMetrics → Double
  sum_ms total [] = total
  sum_ms total (m ∷ ms) = sum_ms (plus total m.total_ms) ms

  unfoldable pub total_module_ms : Telemetry → Double
  total_module_ms t = sum_ms zero_double t.modules
