-- ===== src/Executor.antt =====
-- core/tool_executor: the calls of one turn, run group by group. The workers of a group run at
-- once; each invocation is one step, and `order` is the interleaving that the system chooses.
pub mod Records
use mathlib.Core.Option
use g.Base.{
  ℕ, zero, suc, Bool, true, false, List, [], ◌∷◌, ◌++◌, map, Option, none, some, Str, txt, Map,
  length, get_elem?, range_from, ◌==◌, if◌then◌else◌, succ64, is_empty,
}
use g.Types.{ToolCall}
use g.Tools.{Registry, ToolResult, find}
use g.Graph.{DependencyGraph, empty_graph, add_call, schedule}

pub record ToolExecutionRecord (Json : Type 0) : Type 0 where
  pub ordinal : ℕ
  pub tool_name : Str
  pub arguments : Str
  pub result : ToolResult Json
  pub observed_resources : List Str
  pub from_cache : Bool

-- The executor's own fields.
pub record ToolExecutor : Type 0 where
  pub parallel_safe : Bool
  pub invocations : ℕ
  pub failures : ℕ

-- the record of a call that ran
unfoldable pub finished : {Json : Type 0} → ToolCall → ToolResult Json → ToolExecutionRecord Json
finished call r = record {
  ordinal = call.ordinal;
  tool_name = call.name;
  arguments = call.arguments;
  result = r;
  observed_resources = r.observed_resources;
  from_cache = false;
}

-- `null` is the JSON value of that name.
module _ {Json : Type 0} (null : Json) where
  -- `ToolExecutionRecord{}`
  unfoldable pub blank_record : ToolExecutionRecord Json
  blank_record = record {
    ordinal = 0;
    tool_name = [];
    arguments = [];
    result = record { ok = true; output = null; error_message = []; observed_resources = [] };
    observed_resources = [];
    from_cache = false;
  }

  -- a record with the error message, and no output
  unfoldable pub failed : ToolCall → Str → ToolExecutionRecord Json
  failed call message = record {
    ordinal = call.ordinal;
    tool_name = call.name;
    arguments = call.arguments;
    result = record { ok = false; output = null; error_message = message; observed_resources = [] };
    observed_resources = [];
    from_cache = false;
  }

module _ {Json Ctx World : Type 0} (null : Json) (registry : Registry Json Ctx World) where
  -- `invoke_one`: an unknown tool or a missing context is a failed record, and nothing runs.
  unfoldable pub invoke_one : ToolCall → Option Ctx → World → ToolExecutionRecord Json × World
  unfolding failed finished
  invoke_one call ctx w = elim (find call.name registry) [
    | none ↦ (failed null call (txt "tool not found: " ++ call.name), w)
    | some tool ↦ elim ctx [
      | none ↦ (failed null call (txt "no tool context available for: " ++ call.name), w)
      | some c ↦ (let (r, w') = tool.invoke call c w in (finished call r, w'))
    ]
  ]

module _ {Json Ctx World : Type 0} (registry : Registry Json Ctx World) where
  -- the keys of a call: those its tool names, or none for an unknown tool
  unfoldable pub resources_of : ToolCall → List Str
  resources_of call = elim (find call.name registry) [
    | none ↦ []
    | some tool ↦ tool.resources_for call
  ]

  -- the graph of the calls, in order
  unfoldable pub build_graph : List ToolCall → DependencyGraph → DependencyGraph
  build_graph [] d = d
  build_graph (c ∷ cs) d = build_graph cs (add_call d c (resources_of c))

  -- `groups`: by the graph, or one group of everything; an empty list of groups becomes the latter
  unfoldable pub groups_of : Bool → List ToolCall → List (List ℕ)
  groups_of parallel calls =
      let all : List (List ℕ) = range_from 0 (length calls) ∷ [] in
      let groups = if parallel then schedule (build_graph calls empty_graph) else all in
      if is_empty groups then all else groups

-- The workers of one group: `work` is what worker `i` does to the world, in the chosen order.
module _ {Rec World : Type 0} (work : ℕ → World → Rec × World) where
  unfoldable pub run_workers : List ℕ → World → List (ℕ × Rec) × World
  run_workers [] w = ([], w)
  run_workers (i ∷ is) w =
      let (r, w1) = work i w in let (rest, w2) = run_workers is w1 in ((i, r) ∷ rest, w2)

module _ {Rec : Type 0} where
  -- `futures[k].get()`: what the worker of index `i` left
  unfoldable pub result_of : ℕ → List (ℕ × Rec) → Option Rec
  result_of i [] = none
  result_of i ((j, r) ∷ done) = if j == i then some r else result_of i done

  -- the records of a group, in the order of its futures
  unfoldable pub collect : List (ℕ × Rec) → List ℕ → List Rec
  collect done [] = []
  collect done (i ∷ is) =
      let rest = collect done is in elim (result_of i done) [ none ↦ rest | some r ↦ r ∷ rest ]

module _ {Json : Type 0} where
  -- the counters after the records of a group
  unfoldable pub count_records : List (ToolExecutionRecord Json) → ToolExecutor → ToolExecutor
  count_records [] e = e
  count_records (r ∷ rs) e = count_records rs (record e {
    invocations = succ64 e.invocations;
    failures = if r.result.ok then e.failures else succ64 e.failures;
  })

-- What `execute` returns and leaves behind.
pub record Executed (Json World : Type 0) : Type 0 where
  pub out : List (ToolExecutionRecord Json)
  pub executor : ToolExecutor
  pub world : World

module _ {Json World : Type 0} where
  -- the loop over `groups`
  unfoldable pub run_groups :
      (List ℕ → List ℕ)
      → (ℕ → World → ToolExecutionRecord Json × World)
      → List (List ℕ)
      → ToolExecutor
      → World
      → Executed Json World
  run_groups order task [] e w = record { out = []; executor = e; world = w }
  run_groups order task (group ∷ groups) e w =
      let (done, w1) = run_workers task (order group) w in
      let records = collect done group in
      let rest = run_groups order task groups (count_records records e) w1 in
      record rest { out = records ++ rest.out }

module _ {Json Ctx World : Type 0} (null : Json) (fork : Ctx → Ctx)
    (registry : Registry Json Ctx World) where
  -- the task of worker `i`: call `i` in a forked context; `i` is always in range
  unfoldable pub work : List ToolCall → Option Ctx → ℕ → World → ToolExecutionRecord Json × World
  work calls ctx i w = elim (get_elem? calls i) [
    | none ↦ (blank_record null, w)
    | some call ↦ invoke_one null registry call (Option.map fork ctx) w
  ]

  -- `execute`. Where a tool throws, the source throws its exception on from the future and gives no
  -- records; the world says so then, and the caller looks there.
  unfoldable pub execute :
      (List ℕ → List ℕ) → ToolExecutor → List ToolCall → Option Ctx → World → Executed Json World
  execute order e [] ctx w = record { out = []; executor = e; world = w }
  execute order e (c ∷ cs) ctx w =
      run_groups order (work (c ∷ cs) ctx) (groups_of registry e.parallel_safe (c ∷ cs)) e w
