-- ===== src/Orchestrator.antt =====
-- core/orchestrator: what a turn does with the calls that a model proposes, before and after the
-- executor: reading them, the cache lookup, and the splicing of results.
pub mod Calls
pub mod Splicing
pub mod Settle
pub mod Routing
pub mod Review
pub mod Run
use g.Base.{
  ℕ, zero, suc, ◌+◌, Bool, true, false, ◌&&◌, List, [], ◌∷◌, ◌++◌, Option, none, some, Str, txt,
  Map, lookup, length, set, get_elem?, replicate, leb, ltb, ◌==◌, if◌then◌else◌, succ64, take,
  is_empty,
}
use g.Json.{JsonLib}
use g.Floats.{Floats}
use g.Types.{ToolCall}
use g.Tools.{Registry, find}
use g.Cache.{Cache}
use g.Cache
use g.Telemetry.{Telemetry, record_cache_hit}
use g.Replay.{Replay, EventKind, Event, record_kind, cache_hit}
use g.Executor.{ToolExecutionRecord, blank_record}

-- `trim_for_log`; the cap is 80 by default
unfoldable pub trim_for_log : ℕ → Str → Str
trim_for_log cap s = if leb (length s) cap then s else take cap s ++ txt "..."

module _ (j : JsonLib) where
  open j use {Json, dump, members, elements, as_string, of_members, of_string}

  unfoldable pub canonicalize_arguments : Json → Str
  canonicalize_arguments v = elim (as_string v) [
    | some s ↦ s
    | none ↦ elim (members v) [
      | some ms ↦ dump v
      | none ↦ elim (elements v) [ some es ↦ dump v | none ↦ txt "{}" ]
    ]
  ]

  -- `tc.value("name", "")`; `none` is the exception on a value that is no object, or no string
  unfoldable pub name_of : Json → Option Str
  name_of tc = elim (members tc) [
    | none ↦ none
    | some ms ↦ elim (lookup (txt "name") ms) [ none ↦ some [] | some v ↦ as_string v ]
  ]

  -- `tc.value("arguments", object())`, read only where `name_of` has not thrown
  unfoldable pub arguments_of : Json → Json
  arguments_of tc = elim (members tc) [
    | none ↦ of_members []
    | some ms ↦ elim (lookup (txt "arguments") ms) [ none ↦ of_members [] | some v ↦ v ]
  ]

  -- the loop over the proposed calls; the ordinal counts those without a name, too
  unfoldable pub extract_from : ℕ → List Json → Option (List ToolCall)
  extract_from ordinal [] = some []
  extract_from ordinal (tc ∷ tcs) =
      let rest = extract_from (succ64 ordinal) tcs in
      let arguments = canonicalize_arguments (arguments_of tc) in
      elim (name_of tc) [
        | none ↦ none
        | some name ↦ elim rest [
          | none ↦ none
          | some calls ↦
              if is_empty name
              then some calls
              else some (record { name = name; arguments = arguments; ordinal = ordinal } ∷ calls)
        ]
      ]

  unfoldable pub extract_tool_calls : Json → Option (List ToolCall)
  extract_tool_calls raw = elim (members raw) [
    | none ↦ some []
    | some ms ↦ elim (lookup (txt "tool_calls") ms) [
      | none ↦ some []
      | some v ↦ elim (elements v) [ none ↦ some [] | some es ↦ extract_from 0 es ]
    ]
  ]

pub record CallView : Type 0 where
  pub name : Str
  pub args : Str
  pub dependencies : List Str

unfoldable pub cache_key : CallView → Str
cache_key v = v.name ++ 124 ∷ v.args

module _ {Json Ctx World : Type 0} (registry : Registry Json Ctx World) where
  unfoldable pub view_of : ToolCall → CallView
  view_of c = record {
    name = c.name;
    args = c.arguments;
    dependencies = elim (find c.name registry) [ none ↦ [] | some tool ↦ tool.declared_resources ];
  }

  unfoldable pub build_call_views : List ToolCall → List CallView
  unfolding view_of
  build_call_views [] = []
  build_call_views (c ∷ cs) = view_of c ∷ build_call_views cs

-- The parts of the orchestrator that the cache lookup changes.
pub record Shared (f : Floats) (Json : Type 0) : Type 0 where
  pub cache : Cache Json
  pub telemetry : Telemetry f
  pub replay : Replay Json

-- What the lookup finds: the calls to run and the hits with their indices.
pub record LookedUp (f : Floats) (Json : Type 0) : Type 0 where
  pub pending : List ToolCall
  pub hits : List (ℕ × Json)
  pub shared : Shared f Json

-- a hit is counted and recorded
module _ (f : Floats) (j : JsonLib) where
  open j use {Json, of_members, of_string}

  unfoldable pub note_hit : CallView → Shared f Json → Shared f Json
  note_hit v s = record s {
    telemetry = record_cache_hit f true s.telemetry;
    replay =
        (record_kind cache_hit
          (of_members ((txt "tool", of_string v.name) ∷ (txt "key", of_string (cache_key v)) ∷ []))
          s.replay).0;
  }

module _ (f : Floats) {Json : Type 0} where
  unfoldable pub note_miss : Shared f Json → Shared f Json
  note_miss s = record s { telemetry = record_cache_hit f false s.telemetry }

module _ (cache_tools : Bool) {Json : Type 0} where
  -- what the cache gives to a call that may use it
  unfoldable pub usable : Option Json → Option Json
  usable cached = if cache_tools then cached else none

module _ (f : Floats) (j : JsonLib) (cache_tools : Bool) where
  open j use {Json}

  -- the loop over the views from index `i` on, with the calls they are of
  unfoldable pub look_up_from : ℕ → List ToolCall → List CallView → Shared f Json → LookedUp f Json
  unfolding note_hit note_miss
  look_up_from i [] views s = record { pending = []; hits = []; shared = s }
  look_up_from i (c ∷ cs) [] s = record { pending = []; hits = []; shared = s }
  look_up_from i (c ∷ cs) (v ∷ vs) s =
      let (cached, cache) = g.Cache.get (cache_key v) v.dependencies s.cache in
      let read = record s { cache = cache } in
      let found = look_up_from (suc i) cs vs (note_hit f j v read) in
      let missed = look_up_from (suc i) cs vs (note_miss f read) in
      elim (usable cache_tools cached) [
        | some value ↦ record found { hits = (i, value) ∷ found.hits }
        | none ↦ record missed { pending = c ∷ missed.pending }
      ]

-- the loop over `calls` for the index of an ordinal
find_ordinal : ℕ → List ToolCall → Option ℕ
find_ordinal o [] = none
find_ordinal o (c ∷ cs) =
    let rest = find_ordinal o cs in
    if c.ordinal == o then some 0 else elim rest [ none ↦ none | some i ↦ some (suc i) ]

-- `original_index`, 0 where none is found
unfoldable pub original_index : ℕ → List ToolCall → ℕ
unfolding find_ordinal
original_index o calls = elim (find_ordinal o calls) [ none ↦ 0 | some i ↦ i ]

module _ {Json : Type 0} where
  -- the loop over `pending`; `executed` is as long
  unfoldable pub splice_executed :
      List ToolCall
      → List ToolCall
      → List (ToolExecutionRecord Json)
      → List (ToolExecutionRecord Json)
      → List (ToolExecutionRecord Json)
  unfolding original_index
  splice_executed calls [] executed records = records
  splice_executed calls (p ∷ ps) [] records = records
  splice_executed calls (p ∷ ps) (e ∷ es) records =
      splice_executed calls ps es (set records (original_index p.ordinal calls) e)

  unfoldable pub cached_record : ToolCall → Json → ToolExecutionRecord Json
  cached_record c value = record {
    ordinal = c.ordinal;
    tool_name = c.name;
    arguments = c.arguments;
    result = record { ok = true; output = value; error_message = []; observed_resources = [] };
    observed_resources = [];
    from_cache = true;
  }

  -- the loop over `hits`; `i` is always in range
  unfoldable pub splice_hits :
      List ToolCall
      → List (ℕ × Json)
      → List (ToolExecutionRecord Json)
      → List (ToolExecutionRecord Json)
  splice_hits calls [] records = records
  splice_hits calls ((i, value) ∷ hits) records = elim (get_elem? calls i) [
    | none ↦ splice_hits calls hits records
    | some c ↦ splice_hits calls hits (set records i (cached_record c value))
  ]

module _ {Json : Type 0} (null : Json) where
  -- `records`: blank ones, overwritten by the executed and by the cached
  unfoldable pub splice :
      List ToolCall
      → List ToolCall
      → List (ℕ × Json)
      → List (ToolExecutionRecord Json)
      → List (ToolExecutionRecord Json)
  splice calls pending hits executed =
      splice_hits calls hits
        (splice_executed calls pending executed (replicate (length calls) (blank_record null)))
