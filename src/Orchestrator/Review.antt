-- ===== src/Orchestrator/Review.antt =====
-- core/orchestrator: the review of a plan by the decision model, and the cost of a response.
use g.Base.{
  ℕ, ◌%◌, ◌^◌, Bool, true, ◌&&◌, not, List, [], ◌∷◌, ◌++◌, Option, none, some, Str, txt, drop,
  length, lookup, if◌then◌else◌, str_eq, is_empty, starts_with, decimal, ◌==◌, ◌||◌,
}
use g.Json.{JsonLib}
use g.Floats.{Floats}
use g.Types.{Result, ok, fail, ToolCall}
use g.Cascade.{Tier, ModelCascade, decision, route_for, record_outcome, record_failure}
use g.Replay.{Replay, record_kind, degraded}
use g.Orchestrator.{trim_for_log}
use g.Orchestrator.Settle.{Message}
use g.Orchestrator.Routing.{ModelResponse, ProviderRouter, complete_for, observe_outcome}

-- the message that asks for the review of a plan with `count` calls
unfoldable pub review_text : Str → ℕ → Str
review_text plan count =
    txt "Decision review: the chore-tier model proposed the plan '"
    ++ trim_for_log 80 plan
    ++ txt "' with "
    ++ decimal count
    ++ txt " tool calls. Reply with either 'CONFIRM' to keep the "
    ++ txt "plan, or 'OVERRIDE: <new plan>' to change it. Empty plan "
    ++ txt "is treated as an override to halt tool use."

-- Does the reviewer's plan reject the proposed one?
unfoldable pub is_override : Str → Bool
is_override dplan =
    not (is_empty dplan)
    && (not (str_eq dplan (txt "CONFIRM")) && starts_with (txt "OVERRIDE:") dplan)

-- the loop that erases blanks and tabs at the front
unfoldable pub skip_blanks : Str → Str
skip_blanks [] = []
skip_blanks (c ∷ s) = let rest = skip_blanks s in if c == 32 || c == 9 then rest else c ∷ s

-- the plan after the word
unfoldable pub override_plan : Str → Str
override_plan dplan = skip_blanks (drop 9 dplan)

-- What the review comes to: the calls stay, or they are dropped, or the run ends with a plan.
pub data Verdict : Type 0 where
  kept dropped : Verdict
  ended : Str → Verdict

-- What the review leaves behind.
pub record Reviewed (f : Floats) (Json World : Type 0) : Type 0 where
  pub verdict : Verdict
  pub cascade : ModelCascade f
  pub replay : Replay Json
  pub world : World

module _ (f : Floats) (j : JsonLib) {World : Type 0} where
  open j use {Json, of_members, of_string}

  -- the branches on the answer; the failure is recorded here and by `observe_outcome`
  unfoldable pub judge :
      Tier
      → List ToolCall
      → Result (ModelResponse Json)
      → ModelCascade f
      → Replay Json
      → World
      → Reviewed f Json World
  judge tier calls (fail e) c r w = record {
    verdict = kept;
    cascade = record_failure f tier decision c;
    replay = r;
    world = w;
  }
  judge tier calls (ok answer) c r w =
      if is_override answer.outcome.plan
      then (record {
        verdict = if is_empty calls then ended (override_plan answer.outcome.plan) else dropped;
        cascade = record_outcome f tier decision true c;
        replay =
            (record_kind degraded
              (of_members
                ((txt "decision_override", of_string (override_plan answer.outcome.plan)) ∷ []))
              r).0;
        world = w;
      })
      else record { verdict = kept; cascade = c; replay = r; world = w }

  unfoldable pub review :
      (Tier → Str)
      → ProviderRouter (List (Message Json) → World → Result (ModelResponse Json) × World)
      → List (Message Json)
      → Str
      → List ToolCall
      → ModelCascade f
      → Replay Json
      → World
      → Reviewed f Json World
  review tier_text router messages plan calls c r w =
      let tier = route_for f c decision in
      let question : Message Json = record {
        role = txt "user";
        content = review_text plan (length calls);
        tool_calls = none;
      } in
      let (answer, w1) = complete_for f tier_text c router decision (messages ++ question ∷ []) w in
      judge tier calls answer (observe_outcome f tier decision answer c) r w1

-- The tokens that a response reports: `none` is the exception on a `usage` of another form, and
-- a response without `usage` is `some none`.
module _ (j : JsonLib) where
  open j use {Json, members, as_unsigned}

  -- `value(key, 0u)`
  count_of : Str → List (Str × Json) → Option ℕ
  count_of key ms = elim (lookup key ms) [
    | none ↦ some 0
    | some v ↦ elim (as_unsigned v) [ none ↦ none | some n ↦ some (n % 2 ^ 32) ]
  ]

  unfoldable pub usage_of : Json → Option (Option (ℕ × ℕ))
  unfolding count_of
  usage_of raw = elim (members raw) [
    | none ↦ some none
    | some ms ↦ elim (lookup (txt "usage") ms) [
      | none ↦ some none
      | some usage ↦ elim (members usage) [
        | none ↦ none
        | some us ↦ elim (count_of (txt "prompt_tokens") us) [
          | none ↦ none
          | some p ↦ elim (count_of (txt "completion_tokens") us) [
            | none ↦ none
            | some c ↦ some (some (p, c))
          ]
        ]
      ]
    ]
  ]

-- `turn_cost`
unfoldable pub turn_cost : (f : Floats) → f.Double → f.Double → ℕ → ℕ → f.Double
turn_cost f prompt_per_1k completion_per_1k prompt completion =
    f.plus (f.times (f.divide (f.of_count prompt) (f.of_count 1000)) prompt_per_1k)
      (f.times (f.divide (f.of_count completion) (f.of_count 1000)) completion_per_1k)
