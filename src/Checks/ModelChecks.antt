-- ===== src/Checks/ModelChecks.antt =====
-- Cascades and retries.
use g.Base.{ℕ, zero, suc, ◌+◌, ◌*◌, ◌≤◌, ◌≡◌, true, List, [], ◌∷◌, none, some, txt, arith, ltb}
use g.Types.{provider_failure, internal, Result, ok, fail}
use g.Floats.{Floats}
use g.Cascade.{small, large, chore, decision, ModelCascade, is_pinned, clear_pin}
use g.Cascade.Pinning.{Report, outcome, failure, reports, reports-pinned, small_failures}
use g.Retry.{RetryPolicy, Counters, complete}
use g.Retry.Attempts.{answers, decisive, asked, complete-decisive}

-- Whole numbers stand for doubles.
abbrev whole : Floats
whole = record {
  Double = ℕ;
  zero_double = 0;
  one_double = 1;
  less = ltb;
  plus = λ a b. a + b;
  times = λ a b. a * b;
  divide = λ a b. a;
  of_count = λ n. n;
}

abbrev cascade : ModelCascade whole
cascade = record {
  chore_pinned = true;
  max_failures_before_pin = 2;
  missing_upgrade_threshold = 1;
  small_state = none;
  large_state = none;
}

abbrev history : List Report
history =
    failure small chore
    ∷ outcome small chore true
    ∷ failure large decision
    ∷ failure small chore
    ∷ []

reports-pinned_example :
    is_pinned whole (reports whole history (clear_pin whole cascade)) small ≡ true
unfolding small_failures
reports-pinned_example = reports-pinned whole history cascade (omega arith)

abbrev policy : RetryPolicy
policy = record { max_attempts = 3; initial_backoff = 200; max_backoff = 300 }

-- It fails while its counter is positive.
abbrev flaky : ℕ → Result ℕ × ℕ
flaky zero = (ok 7, 0)
flaky (suc n) = (fail (record { kind = provider_failure; message = [] }), n)

abbrev none_yet : Counters
none_yet = record { attempts = 0; retries = 0 }

complete-decisive_example :
    let x = complete (λ b. 2 * b) policy (some flaky) none_yet 2 in
    let got = answers flaky 3 2 in
    (x.result
      ≡ decisive
          (fail (record { kind = internal; message = txt "default-constructed Result" }))
          got)
    × (x.counters.attempts ≡ 0 + asked got)
    × (asked got ≤ 3)
complete-decisive_example = complete-decisive (λ b. 2 * b) policy flaky none_yet 2 (omega arith)
