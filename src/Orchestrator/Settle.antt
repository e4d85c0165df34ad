-- ===== src/Orchestrator/Settle.antt =====
-- core/orchestrator: after the executor, the records are counted, cached, filed and told to the
-- model; then the files that changed are reported.
pub mod Filing
pub mod Changes
use g.Base.{
  ℕ, zero, suc, Bool, true, false, ◌&&◌, ◌||◌, List, [], ◌∷◌, ◌++◌, map, Option, none, some, Str,
  txt, if◌then◌else◌, str_eq, is_empty, ltb, leb,
}
use g.Json.{JsonLib}
use g.Floats.{Floats}
use g.Cache.{Cache, put, invalidate_dependency}
use g.Cascade.{ModelCascade, Tier, record_failure, chore}
use g.Telemetry.{Telemetry, record_tool_call}
use g.Replay.{Replay, record_kind, tool_finished, working_set_rendered}
use g.Executor.{ToolExecutionRecord}
use g.Context.{ContextManager, TurnContext, append_fact, record_tool_result}
use g.Facts.{digest_hex}
use g.SideEffects.{Snapshots, File, diff}
use g.Orchestrator.{CallView, cache_key}

-- `Message`; `tool_calls` is the optional JSON that comes with it
pub record Message (Json : Type 0) : Type 0 where
  pub role : Str
  pub content : Str
  pub tool_calls : Option Json

-- The parts of the orchestrator that a record changes, and the messages of the run.
pub record Turn (f : Floats) (Json : Type 0) : Type 0 where
  pub cache : Cache Json
  pub cascade : ModelCascade f
  pub telemetry : Telemetry f
  pub replay : Replay Json
  pub context : ContextManager
  pub recent_tool_results : List Str
  pub messages : List (Message Json)

-- `find_if` over the views
unfoldable pub find_view : Str → Str → List CallView → Option CallView
find_view name args [] = none
find_view name args (v ∷ vs) =
    if str_eq v.name name && str_eq v.args args then some v else find_view name args vs

module _ (f : Floats) (j : JsonLib) (cache_tools : Bool) where
  open j use {Json, null, is_null, dump, of_members, of_string, of_boolean, of_elements}

  -- Can the text of each record be filed? The run ends with an exception if one cannot.
  unfoldable pub all_written : (Json → Bool) → List (ToolExecutionRecord Json) → Bool
  all_written is_written [] = true
  all_written is_written (r ∷ rs) =
      (is_null r.result.output || is_written r.result.output) && all_written is_written rs

  -- the text that is filed and sent, where it can be
  unfoldable pub body_of : ToolExecutionRecord Json → Str
  body_of r = if is_null r.result.output then r.result.error_message else dump r.result.output

  -- the cache after a record
  unfoldable pub fill_cache : List CallView → ToolExecutionRecord Json → Cache Json → Cache Json
  fill_cache views r c =
      if r.result.ok && cache_tools
      then elim (find_view r.tool_name r.arguments views) [
        | none ↦ c
        | some v ↦ put (cache_key v) r.result.output v.dependencies cache_tools c
      ]
      else c

  -- the message that tells the model of a record
  unfoldable pub message_of : ToolExecutionRecord Json → Message Json
  message_of r = record {
    role = txt "tool";
    content = body_of r;
    tool_calls = some (
        of_members (
          (txt "name", of_string r.tool_name)
          ∷ (txt "ok", of_boolean r.result.ok)
          ∷ (txt "from_cache", of_boolean r.from_cache)
          ∷ []));
  }

  -- the event that a record leaves in the log
  unfoldable pub finished_payload : ToolExecutionRecord Json → Json
  finished_payload r =
      of_members ((txt "tool", of_string r.tool_name) ∷ (txt "ok", of_boolean r.result.ok) ∷ [])

  -- `append("tool_result", body)`: its identifier
  unfoldable pub fact_id : ToolExecutionRecord Json → Str
  fact_id r = digest_hex (txt "tool_result") (body_of r)

  -- the body of the loop over the records, for a run whose chore tier is `tier`
  unfoldable pub settle_record :
      List CallView → Tier → ToolExecutionRecord Json → Turn f Json → Turn f Json
  settle_record views tier r t = record {
    cache = fill_cache views r t.cache;
    cascade = if r.result.ok then t.cascade else record_failure f tier chore t.cascade;
    telemetry = record_tool_call f r.result.ok t.telemetry;
    replay = (record_kind tool_finished (finished_payload r) t.replay).0;
    context =
        record_tool_result j (fact_id r) (append_fact (txt "tool_result") (body_of r) t.context);
    recent_tool_results = t.recent_tool_results ++ fact_id r ∷ [];
    messages = t.messages ++ message_of r ∷ [];
  }

  unfoldable pub settle :
      List CallView → Tier → List (ToolExecutionRecord Json) → Turn f Json → Turn f Json
  settle views tier [] t = t
  settle views tier (r ∷ rs) t = settle views tier rs (settle_record views tier r t)

-- `invalidate_dependency("file:" + p)` for each path
unfoldable pub invalidate_paths : {V : Type 0} → List Str → Cache V → Cache V
invalidate_paths [] c = c
invalidate_paths (p ∷ ps) c = invalidate_paths ps (invalidate_dependency (txt "file:" ++ p) c)

-- `apply_side_effects`, on the tree that the walk finds now; `tracked` is whether a root is set
module _ (j : JsonLib) where
  open j use {Json, of_members, of_string, of_elements}

  unfoldable pub apply_side_effects :
      Bool → Snapshots → List File → Cache Json → Replay Json → Cache Json × Replay Json
  apply_side_effects false before tree c r = (c, r)
  apply_side_effects true before tree c r = elim (diff before tree) [
    | [] ↦ (c, r)
    | p ∷ ps ↦ (
      invalidate_paths (p ∷ ps) c,
      (record_kind working_set_rendered
          (of_members ((txt "side_effects", of_elements (map of_string (p ∷ ps))) ∷ [])) r).0,
    )
  ]
