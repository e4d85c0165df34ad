-- ===== src/Orchestrator/Run.antt =====
-- core/orchestrator: `run`, turn by turn. The world is all that is outside the engine: what the
-- providers and tools talk to, the tree that `walk` finds, and the clock of `elapsed`.
pub mod Log
pub mod Account
pub mod Turns
pub mod Ends
use g.Base.{
  ◌||◌, not, ℕ, zero, suc, Bool, true, false, List, [], ◌∷◌, ◌++◌, Option, none, some, Str, txt,
  length, if◌then◌else◌, is_empty,
}
use g.Json.{JsonLib}
use g.Floats.{Floats}
use g.Types.{Result, ok, fail, Error, ToolCall}
use g.Tools.{Registry}
use g.Cascade.{Tier, chore, route_for}
use g.Replay.{
  Replay, EventKind, record_kind, turn_started, model_requested, model_responded, tool_called,
  working_set_rendered, degraded, budget_hit, task_ended,
}
use g.Telemetry.{Telemetry, record_token, set_wall_clock_ms}
use g.Executor.{ToolExecutor, Executed, execute}
use g.Context.{TurnContext, WorkingSet, render_working_set}
use g.SideEffects.{File, Snapshots, snapshot}
use g.Orchestrator.{
  CallView, LookedUp, Shared, extract_tool_calls, build_call_views, look_up_from, splice,
  trim_for_log,
}
use g.Orchestrator.Settle.{all_written, Message, Turn, settle, apply_side_effects}
use g.Orchestrator.Routing.{
  Budget, ModelResponse, ProviderRouter, budget_exhausted, complete_for, observe_outcome,
}
use g.Orchestrator.Review.{Reviewed, Verdict, kept, dropped, ended, review, usage_of, turn_cost}

pub record RunResult (f : Floats) : Type 0 where
  pub completed : Bool
  pub bounded : Bool
  pub bounded_reason : Str
  pub turns : ℕ
  pub cost : f.Double
  pub final_output : Str

-- What a run reads and never changes: the options, the collaborators that are fixed, and the
-- system. `at_least` is `>=` on doubles, `of_double` the JSON value of one.
pub record Setup (f : Floats) (j : JsonLib) (Ctx World : Type 0) : Type 0 where
  pub router :
      ProviderRouter (List (Message j.Json) → World → Result (ModelResponse j.Json) × World)
  pub registry : Registry j.Json Ctx World
  pub fork : Ctx → Ctx
  pub tool_ctx : Option Ctx
  pub order : List ℕ → List ℕ
  pub tier_text : Tier → Str
  pub tracked : Bool
  pub walk : World → List File
  pub cache_tools : Bool
  pub prompt_per_1k : f.Double
  pub completion_per_1k : f.Double
  pub at_least : f.Double → f.Double → Bool
  pub of_double : f.Double → j.Json
  pub elapsed : World → f.Double
  -- Has a tool thrown? The executor takes its exception from the future and throws it on.
  pub has_thrown : World → Bool
  -- Is the text of a value UTF-8? Its dump throws if it is not.
  pub is_written : j.Json → Bool

-- What a run changes.
pub record Engine (f : Floats) (j : JsonLib) (World : Type 0) : Type 0 where
  pub turn : Turn f j.Json
  pub executor : ToolExecutor
  pub side_effects : Snapshots
  pub world : World
  pub cost : f.Double

-- How a run ends: an uncaught exception, or a result and the engine it leaves.
pub data Ending (f : Floats) (j : JsonLib) (World : Type 0) : Type 0 where
  threw : Ending f j World
  returned : Result (RunResult f) → Engine f j World → Ending f j World

-- How a turn ends: another follows, or the run does.
pub data Turned (f : Floats) (j : JsonLib) (World : Type 0) : Type 0 where
  goes_on : Engine f j World → Turned f j World
  stops : Ending f j World → Turned f j World

-- `max_turns`
unfoldable pub turn_limit : {f : Floats} → Budget f → ℕ
turn_limit budget = if budget.active then budget.max_turns else 64

module _ {f : Floats} {j : JsonLib} {World : Type 0} where
  -- an event is recorded
  unfoldable pub log_event : EventKind → List (Str × j.Json) → Engine f j World → Engine f j World
  log_event kind payload e = record e {
    turn = record (e.turn) { replay = (record_kind kind (j.of_members payload) e.turn.replay).0 };
  }

module _ {f : Floats} {j : JsonLib} {Ctx World : Type 0} (s : Setup f j Ctx World) where
  -- the wall clock is read, and the run returns
  unfoldable pub finish : Result (RunResult f) → Engine f j World → Ending f j World
  finish r e = returned r (record e {
    turn = record (e.turn) { telemetry = set_wall_clock_ms f (s.elapsed e.world) e.turn.telemetry };
  })

  -- the completed run, after the event
  unfoldable pub complete_run : ℕ → Str → Engine f j World → Ending f j World
  complete_run turn output e =
      finish
        (ok (record {
          completed = true;
          bounded = false;
          bounded_reason = [];
          turns = suc turn;
          cost = e.cost;
          final_output = output;
        }))
        (log_event task_ended ((txt "turn", j.of_number turn) ∷ []) e)

  -- the bounded run, after the event
  unfoldable pub bound_run : ℕ → Str → List (Str × j.Json) → Engine f j World → Ending f j World
  bound_run turns reason payload e =
      finish
        (ok (record {
          completed = false;
          bounded = true;
          bounded_reason = reason;
          turns = turns;
          cost = e.cost;
          final_output = [];
        }))
        (log_event budget_hit payload e)

  -- `feed_working_set`: the messages, with the working set of the turn
  unfoldable pub feed_working_set : Str → Turn f j.Json → List (Message j.Json)
  feed_working_set task t =
      let ws =
        render_working_set (record { goal = task; recent_tool_results = t.recent_tool_results })
          t.context in
      if is_empty ws.render
      then t.messages
      else t.messages ++ record { role = txt "system"; content = ws.render; tool_calls = none } ∷ []

  -- the rest of a turn, from the rendering before the cache lookup on
  unfoldable pub run_tools : Str → Tier → List ToolCall → Engine f j World → Turned f j World
  run_tools task tier calls e =
      let before =
        render_working_set (record { goal = task; recent_tool_results = [] }) e.turn.context in
      let e1 =
        log_event working_set_rendered ((txt "tokens", j.of_number before.token_count) ∷ []) e in
      let views = build_call_views s.registry calls in
      let l = look_up_from f j s.cache_tools 0 calls views (record {
        cache = e1.turn.cache;
        telemetry = e1.turn.telemetry;
        replay = e1.turn.replay;
      }) in
      let x = execute j.null s.fork s.registry s.order e1.executor l.pending s.tool_ctx e1.world in
      let records = splice j.null calls l.pending l.hits x.out in
      let t = settle f j s.cache_tools views tier records (record (e1.turn) {
        cache = l.shared.cache;
        telemetry = l.shared.telemetry;
        replay = l.shared.replay;
        recent_tool_results = [];
      }) in
      let (cache, replay) =
        apply_side_effects j s.tracked e1.side_effects (s.walk x.world) t.cache t.replay in
      if s.has_thrown x.world || not (all_written f j s.cache_tools s.is_written records)
      then stops threw
      else goes_on (record e1 {
        turn = record t { cache = cache; replay = replay; messages = feed_working_set task t };
        executor = x.executor;
        world = x.world;
      })

  -- a turn whose response uses tools
  unfoldable pub propose :
      Str → ℕ → Tier → ModelResponse j.Json → Engine f j World → Turned f j World
  unfolding run_tools
  propose task turn tier resp e = elim (extract_tool_calls j resp.raw) [
    | none ↦ stops threw
    | some calls ↦
        let e1 = log_event tool_called ((txt "count", j.of_number (length calls)) ∷ []) e in
        let v =
          review f j s.tier_text s.router e1.turn.messages resp.outcome.plan calls e1.turn.cascade
            e1.turn.replay e1.world in
        let e2 = record e1 {
          turn = record (e1.turn) { cascade = v.cascade; replay = v.replay };
          world = v.world;
        } in
        elim (v.verdict) [
          | kept ↦ run_tools task tier calls e2
          | dropped ↦ run_tools task tier [] e2
          | ended output ↦ stops (complete_run turn output e2)
        ]
  ]

  -- a turn whose response is there and paid for
  unfoldable pub decide :
      Str → Budget f → ℕ → Tier → ModelResponse j.Json → Engine f j World → Turned f j World
  decide task budget turn tier resp e = elim (budget_exhausted f s.at_least budget e.cost) [
    | some reason ↦ stops (
        bound_run (suc turn) reason
          ((txt "reason", j.of_string reason) ∷ (txt "cost", s.of_double e.cost) ∷ []) e)
    | none ↦
        if resp.outcome.has_tool_use
        then propose task turn tier resp e
        else stops (complete_run turn resp.outcome.plan e)
  ]

  -- the usage of a response is counted and priced
  unfoldable pub charge : j.Json → Engine f j World → Option (Engine f j World)
  charge raw e = elim (usage_of j raw) [
    | none ↦ none
    | some none ↦ some e
    | some (some (prompt, completion)) ↦ some (record e {
      turn = record (e.turn) { telemetry = record_token f prompt completion e.turn.telemetry };
      cost = f.plus e.cost (turn_cost f s.prompt_per_1k s.completion_per_1k prompt completion);
    })
  ]

  -- a turn that has an answer
  unfoldable pub answered :
      Str
      → Budget f
      → ℕ
      → Tier
      → Result (ModelResponse j.Json)
      → Engine f j World
      → Turned f j World
  answered task budget turn tier (fail err) e =
      stops (finish (fail err) (log_event degraded ((txt "error", j.of_string err.message) ∷ []) e))
  answered task budget turn tier (ok resp) e =
      let e1 =
        log_event model_responded
          ((txt "plan", j.of_string (trim_for_log 80 resp.outcome.plan)) ∷ []) e in
      elim (charge resp.raw e1) [
        | none ↦ stops threw
        | some e2 ↦ decide task budget turn tier resp e2
      ]

  -- the body of the loop over the turns
  unfoldable pub one_turn : Str → Budget f → ℕ → Engine f j World → Turned f j World
  one_turn task budget turn e =
      let e1 = log_event model_requested ((txt "turn", j.of_number turn) ∷ []) e in
      let tier = route_for f e1.turn.cascade chore in
      let (answer, w) =
        complete_for f s.tier_text e1.turn.cascade s.router chore e1.turn.messages e1.world in
      answered task budget turn tier answer (record e1 {
        turn = record (e1.turn) { cascade = observe_outcome f tier chore answer e1.turn.cascade };
        world = w;
      })

  -- the loop, with `left` turns to go from `turn` on
  unfoldable pub run_turns : ℕ → Str → Budget f → ℕ → Engine f j World → Ending f j World
  run_turns zero task budget turn e =
      bound_run turn (txt "max_turns") ((txt "turns", j.of_number turn) ∷ []) e
  run_turns (suc left) task budget turn e = elim (one_turn task budget turn e) [
    | stops ending ↦ ending
    | goes_on e' ↦ run_turns left task budget (suc turn) e'
  ]

  -- `run`, on the engine as the runs before it left it
  unfoldable pub run : Str → Budget f → Engine f j World → Ending f j World
  run task budget e =
      let e1 = log_event turn_started ((txt "task", j.of_string task) ∷ []) e in
      let question : Message j.Json = record {
        role = txt "user";
        content = task;
        tool_calls = none;
      } in
      run_turns (turn_limit budget) task budget 0 (record e1 {
        turn = record (e1.turn) { messages = question ∷ [] };
        side_effects =
            if s.tracked then snapshot (s.walk e1.world) e1.side_effects else e1.side_effects;
        cost = f.zero_double;
      })
