-- ===== src/Checks/OrchestratorChecks.antt =====
-- A response that proposes three calls, one of them without a name, and the turn that follows.
use g.Base.{
  ℕ, ◌+◌, ◌*◌, ◌≡◌, ◌<◌, refl, true, false, List, [], ◌∷◌, Option, none, some, Str, txt, ltb,
  str_eq, lookup, arith, length, succ64,
}
use g.Json.{JsonLib}
use g.Floats.{Floats}
use g.Types.{ToolCall, Result, ok}
use g.Cascade.{Tier, small}
use g.Cache.{empty_cache, put}
use g.Replay.{empty_replay}
use g.Telemetry.{empty_telemetry}
use g.Executor.{ToolExecutionRecord}
use g.Context.{context_manager}
use g.Orchestrator.{
  CallView, Shared, extract_tool_calls, extract_from, name_of, arguments_of, canonicalize_arguments,
  look_up_from, splice,
}
use g.Orchestrator.Splicing.{weave, decisions, splice-look_up}
use g.Orchestrator.Routing.{ModelResponse}
use g.SideEffects.{File}
use g.Orchestrator.Settle.{Turn, settle}
use g.Orchestrator.Settle.Filing.{IsSettled, settle-IsSettled}

-- Whole numbers stand for doubles.
abbrev pub numbers : Floats
numbers = record {
  Double = ℕ;
  zero_double = 0;
  one_double = 1;
  less = ltb;
  plus = λ a b. a + b;
  times = λ a b. a * b;
  divide = λ a b. a;
  of_count = λ n. n;
}

-- The response, its array of calls, the three calls, and their names.
pub data Doc : Type 0 where
  response call_list first_call second_call third_call read_text empty_text write_text : Doc
  nothing : Doc
  made : ℕ → Doc

abbrev doc_members : Doc → Option (List (Str × Doc))
doc_members response = some ((txt "tool_calls", call_list) ∷ [])
doc_members first_call = some ((txt "name", read_text) ∷ [])
doc_members second_call = some ((txt "name", empty_text) ∷ [])
doc_members third_call = some ((txt "name", write_text) ∷ [])
doc_members _ = none

abbrev doc_elements : Doc → Option (List Doc)
doc_elements call_list = some (first_call ∷ second_call ∷ third_call ∷ [])
doc_elements _ = none

abbrev doc_string : Doc → Option Str
doc_string read_text = some (txt "read")
doc_string empty_text = some []
doc_string write_text = some (txt "write")
doc_string _ = none

abbrev pub docs : JsonLib
docs = record {
  Json = Doc;
  null = nothing;
  is_null = λ n. false;
  parse = λ s. none;
  dump = λ n. txt "{}";
  members = doc_members;
  elements = doc_elements;
  as_string = doc_string;
  as_boolean = λ n. none;
  as_unsigned = λ n. none;
  integer_text = λ n. none;
  float_text = λ n. none;
  of_string = λ s. made 0;
  of_number = made;
  of_boolean = λ b. made 0;
  of_members = λ ms. made 0;
  of_elements = λ es. made 0;
}

abbrev proposed : List ToolCall
proposed =
    record { name = txt "read"; arguments = txt "{}"; ordinal = 0 }
    ∷ record { name = txt "write"; arguments = txt "{}"; ordinal = 2 }
    ∷ []

extract_tool_calls-proposed : extract_tool_calls docs response ≡ some proposed
unfolding extract_tool_calls extract_from name_of arguments_of canonicalize_arguments lookup str_eq
    succ64
extract_tool_calls-proposed = refl

doc_elements-small :
    (v : Doc) (es : List Doc) → doc_elements v ≡ some es → length es < 18446744073709551616
doc_elements-small call_list es e = ground (arith, e)
doc_elements-small response es e = cc e
doc_elements-small first_call es e = cc e
doc_elements-small second_call es e = cc e
doc_elements-small third_call es e = cc e
doc_elements-small read_text es e = cc e
doc_elements-small empty_text es e = cc e
doc_elements-small write_text es e = cc e
doc_elements-small nothing es e = cc e
doc_elements-small (made n) es e = cc e

abbrev views : List CallView
views =
    record { name = txt "read"; args = txt "{}"; dependencies = txt "file:read" ∷ [] }
    ∷ record { name = txt "write"; args = txt "{}"; dependencies = txt "file:write" ∷ [] }
    ∷ []

-- The first call is in the cache.
abbrev shared : Shared numbers Doc
shared = record {
  cache = put (txt "read|{}") (made 9) (txt "file:read" ∷ []) true empty_cache;
  telemetry = empty_telemetry numbers;
  replay = empty_replay;
}

abbrev executed : List (ToolExecutionRecord Doc)
executed =
    (record {
      ordinal = 2;
      tool_name = txt "write";
      arguments = txt "{}";
      result = record { ok = true; output = made 10; error_message = []; observed_resources = [] };
      observed_resources = [];
      from_cache = false;
    })
    ∷ []

splice-look_up_example :
    let l = look_up_from numbers docs true 0 proposed views shared in
    splice nothing proposed l.pending l.hits executed
    ≡ weave nothing proposed (decisions true views shared.cache) executed
splice-look_up_example =
    splice-look_up numbers docs true nothing proposed views shared executed (ground arith)

abbrev pub turn : Turn numbers Doc
turn = record {
  cache = shared.cache;
  cascade = record {
    chore_pinned = false;
    max_failures_before_pin = 2;
    missing_upgrade_threshold = 1;
    small_state = none;
    large_state = none;
  };
  telemetry = shared.telemetry;
  replay = empty_replay;
  context = context_manager 100;
  recent_tool_results = [];
  messages = [];
}

settle-IsSettled_example :
    IsSettled numbers docs true executed turn (settle numbers docs true views small executed turn)
settle-IsSettled_example = settle-IsSettled numbers docs true views small executed turn

-- A provider that answers with its plan and counts the requests.
pub answer : Str → Str → ℕ → Result (ModelResponse Doc) × ℕ
answer plan messages w = (
  ok (record {
    outcome = record { plan = plan; has_tool_use = false; tool_count = 0; completed = true };
    raw = nothing;
  }),
  w + 1,
)

abbrev pub tier_name : Tier → Str
tier_name t = txt "0"

abbrev new_file : List File
new_file = record { path = txt "/f"; stamp = some (1, 1); content = some (txt "x") } ∷ []
