-- ===== src/Orchestrator/Run/Turns.antt =====
-- What one turn of a run logs.
use g.Base.{
  ◌||◌, not, ℕ, suc, ◌≤◌, ◌≡◌, refl, Bool, true, false, List, [], ◌∷◌, none, some, Str, txt, arith,
  Option-cases, inl, inr, if◌then◌else◌, length, subst,
}
use g.Json.{JsonLib}
use g.Floats.{Floats}
use g.Types.{Result, ok, fail, ToolCall}
use g.Cascade.{Tier}
use g.Replay.{Replay, model_requested, tool_called, model_responded, degraded, working_set_rendered}
use g.Context.{render_working_set}
use g.Executor.{execute}
use mathlib.Core.Option.{some-injective}
use g.Orchestrator.{extract_tool_calls, build_call_views, look_up_from, splice, trim_for_log}
use g.Orchestrator.Settle.{all_written, settle, apply_side_effects}
use g.Orchestrator.Routing.{Budget, ModelResponse, budget_exhausted}
use g.Orchestrator.Review.{Verdict, kept, dropped, ended, review, usage_of}
use g.Orchestrator.Run.{
  Setup, Engine, threw, Turned, stops, log_event, finish, complete_run, run_tools, propose, decide,
  charge, answered, one_turn,
}
use g.Orchestrator.Run.Log.{
  Logs, Logs-quiet, Logs-trans, weight, events-record_kind, record_kind-Logs, look_up_from-Logs,
  settle-Logs, apply_side_effects-Logs, judge-Logs,
}
use g.Orchestrator.Run.Account.{
  closing, IsAccount, TurnsIn, log_event-Logs, complete_run-EndsIn, bound_run-EndsIn,
}

module _ {f : Floats} {j : JsonLib} {Ctx World : Type 0} (s : Setup f j Ctx World) where
  pub if-TurnsIn :
      (limit n : ℕ) (before : Replay j.Json) (b : Bool) (x y : Turned f j World)
      → TurnsIn limit n before x
      → TurnsIn limit n before y
      → TurnsIn limit n before (if b then x else y)
  if-TurnsIn limit n before true x y hx hy = hx
  if-TurnsIn limit n before false x y hx hy = hy

  pub run_tools-TurnsIn :
      (limit n : ℕ) (before : Replay j.Json) (task : Str) (tier : Tier) (calls : List ToolCall)
      (e : Engine f j World)
      → Logs n before e.turn.replay
      → TurnsIn limit n before (run_tools s task tier calls e)
  unfolding run_tools weight
  run_tools-TurnsIn limit n before task tier calls e l =
      let shown =
        render_working_set (record { goal = task; recent_tool_results = [] }) e.turn.context in
      let e1 =
        log_event working_set_rendered ((txt "tokens", j.of_number shown.token_count) ∷ []) e in
      let views = build_call_views s.registry calls in
      let found = look_up_from f j s.cache_tools 0 calls views (record {
        cache = e1.turn.cache;
        telemetry = e1.turn.telemetry;
        replay = e1.turn.replay;
      }) in
      let x =
        execute j.null s.fork s.registry s.order e1.executor found.pending s.tool_ctx e1.world in
      let records = splice j.null calls found.pending found.hits x.out in
      let start = record (e1.turn) {
        cache = found.shared.cache;
        telemetry = found.shared.telemetry;
        replay = found.shared.replay;
        recent_tool_results = [];
      } in
      let t = settle f j s.cache_tools views tier records start in
      let tree = s.walk x.world in
      let rendered = log_event-Logs s n before working_set_rendered _ e refl l in
      let looked =
        Logs-quiet n before e1.turn.replay found.shared.replay rendered
          (look_up_from-Logs f j s.cache_tools 0 calls views _) in
      let settled =
        Logs-quiet n before found.shared.replay t.replay looked
          (settle-Logs f j s.cache_tools views tier records start) in
      if-TurnsIn limit n before
        (s.has_thrown x.world || not (all_written f j s.cache_tools s.is_written records))
        (stops threw) _ tt
        (Logs-quiet n before t.replay
          (apply_side_effects j s.tracked e1.side_effects tree t.cache t.replay).1 settled
          (apply_side_effects-Logs f j s.tracked e1.side_effects tree t.cache t.replay))

  pub review-Logs :
      (n : ℕ) (before : Replay j.Json) (plan : Str) (calls : List ToolCall) (e : Engine f j World)
      → Logs n before e.turn.replay
      → Logs n before
          (review f j s.tier_text s.router e.turn.messages plan calls e.turn.cascade e.turn.replay
            e.world).replay
  unfolding review
  review-Logs n before plan calls e l =
      Logs-quiet n before e.turn.replay _ l (judge-Logs f j _ calls _ _ e.turn.replay _)

  pub verdict-TurnsIn :
      (limit n : ℕ) (before : Replay j.Json) (v : Verdict) (with_calls without : Turned f j World)
      (e : Engine f j World)
      → suc n ≤ limit
      → TurnsIn limit (suc n) before with_calls
      → TurnsIn limit (suc n) before without
      → Logs (suc n) before e.turn.replay
      → TurnsIn limit (suc n) before (elim v as (λ _. Turned f j World) [
        | kept ↦ with_calls
        | dropped ↦ without
        | ended output ↦ stops (complete_run s n output e)
      ])
  verdict-TurnsIn limit n before kept a b e le la lb l = la
  verdict-TurnsIn limit n before dropped a b e le la lb l = lb
  verdict-TurnsIn limit n before (ended output) a b e le la lb l =
      complete_run-EndsIn s limit n before output e le l

  pub propose-TurnsIn :
      (limit n : ℕ) (before : Replay j.Json) (task : Str) (tier : Tier)
      (resp : ModelResponse j.Json) (e : Engine f j World)
      → suc n ≤ limit
      → Logs (suc n) before e.turn.replay
      → TurnsIn limit (suc n) before (propose s task n tier resp e)
  unfolding propose weight
  propose-TurnsIn limit n before task tier resp e le l =
      elim (Option-cases (extract_tool_calls j resp.raw)) [
        | inl x ↦ rw (propose, x) tt
        | inr (calls, x) ↦
            let e1 = log_event tool_called ((txt "count", j.of_number (length calls)) ∷ []) e in
            let l1 = log_event-Logs s (suc n) before tool_called _ e refl l in
            let l2 = review-Logs (suc n) before resp.outcome.plan calls e1 l1 in
            let v =
              review f j s.tier_text s.router e1.turn.messages resp.outcome.plan calls
                e1.turn.cascade e1.turn.replay e1.world in
            let e2 = record e1 {
              turn = record (e1.turn) { cascade = v.cascade; replay = v.replay };
              world = v.world;
            } in
            rw (propose, x)
              (verdict-TurnsIn limit n before v.verdict (run_tools s task tier calls e2)
                (run_tools s task tier [] e2) e2 le
                (run_tools-TurnsIn limit (suc n) before task tier calls e2 l2)
                (run_tools-TurnsIn limit (suc n) before task tier [] e2 l2) l2)
      ]

  -- The only reason is the cost.
  pub budget_exhausted-reason :
      (at_least : f.Double → f.Double → Bool) (budget : Budget f) (cost : f.Double) (reason : Str)
      → budget_exhausted f at_least budget cost ≡ some reason
      → reason ≡ txt "max_cost"
  unfolding budget_exhausted
  budget_exhausted-reason at_least budget cost reason e = ground (arith, e)

  pub decide-TurnsIn :
      (limit n : ℕ) (before : Replay j.Json) (task : Str) (budget : Budget f) (tier : Tier)
      (resp : ModelResponse j.Json) (e : Engine f j World)
      → suc n ≤ limit
      → Logs (suc n) before e.turn.replay
      → TurnsIn limit (suc n) before (decide s task budget n tier resp e)
  unfolding decide
  decide-TurnsIn limit n before task budget tier resp e le l =
      elim (Option-cases (budget_exhausted f s.at_least budget e.cost)) [
        | inl x ↦
            rw (decide, x)
              (if-TurnsIn limit (suc n) before resp.outcome.has_tool_use
                (propose s task n tier resp e) (stops (complete_run s n resp.outcome.plan e))
                (propose-TurnsIn limit n before task tier resp e le l)
                (complete_run-EndsIn s limit n before resp.outcome.plan e le l))
        | inr (reason, x) ↦
            let why = budget_exhausted-reason s.at_least budget e.cost reason x in
            rw (decide, x) (bound_run-EndsIn s limit (suc n) before reason _ e le (inl why) l)
      ]

  pub charge-Logs :
      (n : ℕ) (before : Replay j.Json) (raw : j.Json) (e e' : Engine f j World)
      → charge s raw e ≡ some e'
      → Logs n before e.turn.replay
      → Logs n before e'.turn.replay
  unfolding charge
  charge-Logs n before raw e e' h l = elim (Option-cases (usage_of j raw)) [
    | inl x ↦ cc (h, x)
    | inr (none, x) ↦
        subst (λ d. Logs n before d.turn.replay) (some-injective e e' (rw (charge, x) at h)) l
    | inr (some (p, c), x) ↦
        subst (λ d. Logs n before d.turn.replay) (some-injective _ e' (rw (charge, x) at h)) l
  ]

  pub answered-TurnsIn :
      (limit n : ℕ) (before : Replay j.Json) (task : Str) (budget : Budget f) (tier : Tier)
      (a : Result (ModelResponse j.Json)) (e : Engine f j World)
      → suc n ≤ limit
      → Logs (suc n) before e.turn.replay
      → TurnsIn limit (suc n) before (answered s task budget n tier a e)
  unfolding answered finish log_event weight closing IsAccount
  answered-TurnsIn limit n before task budget tier (fail err) e le l = record {
    turns = suc n;
    within = le;
    logged = log_event-Logs s (suc n) before degraded _ e refl l;
    front = e.turn.replay.events;
    last = _;
    closed = events-record_kind degraded _ e.turn.replay;
    closing_kind = refl;
    account = omega arith;
  }
  answered-TurnsIn limit n before task budget tier (ok resp) e le l =
      let e1 =
        log_event model_responded
          ((txt "plan", j.of_string (trim_for_log 80 resp.outcome.plan)) ∷ []) e in
      let l1 = log_event-Logs s (suc n) before model_responded _ e refl l in
      elim (Option-cases (charge s resp.raw e1)) [
        | inl x ↦ rw (answered, x) tt
        | inr (e2, x) ↦
            rw (answered, x)
              (decide-TurnsIn limit n before task budget tier resp e2 le
                (charge-Logs (suc n) before resp.raw e1 e2 x l1))
      ]

  pub one_turn-TurnsIn :
      (limit n : ℕ) (before : Replay j.Json) (task : Str) (budget : Budget f) (e : Engine f j World)
      → suc n ≤ limit
      → Logs n before e.turn.replay
      → TurnsIn limit (suc n) before (one_turn s task budget n e)
  unfolding one_turn log_event weight
  one_turn-TurnsIn limit n before task budget e le l =
      let e1 = log_event model_requested ((txt "turn", j.of_number n) ∷ []) e in
      let step =
        record_kind-Logs model_requested (j.of_members ((txt "turn", j.of_number n) ∷ []))
          e.turn.replay in
      let both = Logs-trans n 1 before e.turn.replay e1.turn.replay l step in
      answered-TurnsIn limit n before task budget _ _ _ le
        (record { added = both.added; events = both.events; counted = omega (arith, both.counted) })
