-- ===== src/Web.antt =====
-- ui/web: the panel's credentials and its two handlers. The HTTP library is a parameter: a request
-- is its headers and its body. What a task does is the world's, through `Panel`.
pub mod Base64
pub mod Access
use g.Base.{
  ℕ, zero, suc, ◌+◌, ◌-◌, ◌*◌, ◌/◌, ◌%◌, ◌^◌, Bool, true, false, ◌&&◌, ◌||◌, not, List, [], ◌∷◌,
  ◌++◌, Option, none, some, Str, txt, Map, lookup, length, drop, if◌then◌else◌, is_empty, str_eq,
  starts_with, leb, ◌==◌, decimal,
}
use g.Json.{JsonLib}
use g.Floats.{Floats}
use g.Types.{Result, ok, fail}
use g.Replay.{Event, EventKind}
use g.Orchestrator.Run.{RunResult}
use g.Cli.{CliOptions, Parsed, parsed, helped, failed, parse_cli}
use g.Mcp.Url.{find_char}

-- a character's six bits, 255 for another character
unfoldable pub b64_value : ℕ → ℕ
b64_value c =
    if leb 65 c && leb c 90
    then c - 65
    else if leb 97 c && leb c 122
    then 26 + c - 97
    else if leb 48 c && leb c 57
    then 52 + c - 48
    else if c == 43
    then 62
    else if c == 47
    then 63
    else 255

-- the characters that are passed over
unfoldable pub is_padding : ℕ → Bool
is_padding c = c == 61 || (c == 13 || (c == 10 || c == 32))

-- `(buf << 6) | v` on an `unsigned int`
unfoldable pub shift_in : ℕ → ℕ → ℕ
shift_in buf v = buf * 64 % 2 ^ 32 + v

-- `out.push_back`
unfoldable pub push_byte : ℕ → Option Str → Option Str
push_byte b none = none
push_byte b (some out) = some (b ∷ out)

-- the loop, with the bits that wait in the buffer; `none` is the return at an invalid character
unfoldable pub decode_bits : ℕ → ℕ → Str → Option Str
unfolding is_padding
decode_bits bits buf [] = some []
decode_bits bits buf (c ∷ s) =
    let next = shift_in buf (b64_value c) in
    let skip = decode_bits bits buf s in
    let full = decode_bits (bits + 6 - 8) next s in
    let more = decode_bits (bits + 6) next s in
    if is_padding c
    then skip
    else if b64_value c == 255
    then none
    else if leb 8 (bits + 6)
    then push_byte (next / 2 ^ (bits + 6 - 8) % 256) full
    else more

unfoldable pub b64_decode : Str → Str
b64_decode s = elim (decode_bits 0 0 s) [ none ↦ [] | some out ↦ out ]

pub record Request : Type 0 where
  pub header : Str → Option Str
  pub body : Str

unfoldable pub require_auth : CliOptions → Bool
require_auth opts = not (is_empty opts.web_user) && not (is_empty opts.web_pass)

-- the user and the password in the value of the header
unfoldable pub credentials : Str → Option (Str × Str)
credentials value =
    if leb (length value) 6 || not (starts_with (txt "Basic ") value)
    then none
    else elim (find_char 58 (b64_decode (drop 6 value))) [
      | none ↦ none
      | some (user, colon_pass) ↦ some (user, drop 1 colon_pass)
    ]

unfoldable pub check_auth : CliOptions → Request → Bool
unfolding credentials
check_auth opts req =
    if not (require_auth opts) then true else elim (req.header (txt "Authorization")) [
      | none ↦ false
      | some value ↦ elim (credentials value) [
        | none ↦ false
        | some (user, pass) ↦ str_eq user opts.web_user && str_eq pass opts.web_pass
      ]
    ]

pub record Response : Type 0 where
  pub status : ℕ
  pub headers : Map Str
  pub content : Str
  pub content_type : Str

unfoldable pub unauthorized : Response
unauthorized = record {
  status = 401;
  headers = (txt "WWW-Authenticate", txt "Basic realm=\"praxis\"") ∷ [];
  content = txt "authentication required";
  content_type = txt "text/plain";
}

unfoldable pub bad_request : Str → Response
bad_request message = record {
  status = 400;
  headers = [];
  content = message;
  content_type = txt "text/plain";
}

-- a response with the status that the library gives where none is set
unfoldable pub content : Str → Str → Response
content text type = record { status = 200; headers = []; content = text; content_type = type }

-- the handler of `/`; `index_html` is a constant
unfoldable pub get_index : Str → CliOptions → Request → Response
get_index index_html opts req =
    if not (check_auth opts req) then unauthorized else content index_html (txt "text/html")

-- The number of a kind of event, `static_cast<int>`.
unfoldable pub kind_number : EventKind → ℕ
kind_number EventKind.turn_started = 0
kind_number EventKind.model_requested = 1
kind_number EventKind.model_responded = 2
kind_number EventKind.tool_called = 3
kind_number EventKind.tool_finished = 4
kind_number EventKind.working_set_rendered = 5
kind_number EventKind.fact_recalled = 6
kind_number EventKind.cache_hit = 7
kind_number EventKind.cache_invalidated = 8
kind_number EventKind.progress_scored = 9
kind_number EventKind.strategy_switched = 10
kind_number EventKind.degraded = 11
kind_number EventKind.budget_hit = 12
kind_number EventKind.task_ended = 13

module _ (j : JsonLib) where
  open j use {
    Json, parse, dump, members, as_string, as_unsigned, of_string, of_number, of_boolean,
    of_members,
  }

  -- `ConsoleSink::on_event`: the line that is appended
  unfoldable pub event_line : Event Json → Str
  event_line e =
      txt "{\"seq\":"
      ++ decimal e.sequence
      ++ txt ",\"kind\":"
      ++ decimal (kind_number e.kind)
      ++ txt ",\"payload\":"
      ++ dump e.payload
      ++ txt "}\n"

  -- `value(key, fallback)` of a text and of an unsigned number; `none` is the exception
  unfoldable pub text_value : Str → Str → List (Str × Json) → Option Str
  text_value key fallback ms = elim (lookup key ms) [ none ↦ some fallback | some v ↦ as_string v ]

  unfoldable pub count_value : Str → ℕ → List (Str × Json) → Option ℕ
  count_value key fallback ms = elim (lookup key ms) [
    | none ↦ some fallback
    | some v ↦ elim (as_unsigned v) [ none ↦ none | some n ↦ some (n % 2 ^ 32) ]
  ]

  -- the options of one request
  unfoldable pub local_options : CliOptions → List (Str × Json) → Option CliOptions
  local_options opts ms = elim (text_value (txt "task") [] ms) [
    | none ↦ none
    | some task ↦ elim (text_value (txt "provider") (txt "fake") ms) [
      | none ↦ none
      | some provider ↦ elim (count_value (txt "budget_turns") 8 ms) [
        | none ↦ none
        | some turns ↦
            some (record opts { task = task; provider_name = provider; budget_turns = turns })
      ]
    ]
  ]

  -- What a new orchestrator does with the task of these options, for at most `budget_turns` turns.
  pub record Performed (f : Floats) : Type 0 where
    pub result : Result (RunResult f)
    pub telemetry : Json
    pub events : Str

  unfoldable pub run_json : {f : Floats} → Performed f → Json
  run_json p = of_members (
      (elim (p.result) as (λ _. List (Str × Json)) [
        | ok r ↦
            (txt "final_output", of_string r.final_output)
            ∷ (txt "turns", of_number r.turns)
            ∷ (txt "completed", of_boolean r.completed)
            ∷ []
        | fail e ↦ (txt "error", of_string e.message) ∷ []
      ])
      ++ (txt "telemetry", p.telemetry) ∷ (txt "events", of_string p.events) ∷ [])

  -- `perform` is `none` where the run throws, and `dump_text` where the text of a value is not UTF-8.
  module _ {f : Floats} {World : Type 0}
      (perform : CliOptions → World → Option (Performed f) × World)
      (dump_text : Json → Option Str) where
    -- a request whose options are read; `none` is an exception
    unfoldable pub run_local : CliOptions → World → Option Response × World
    run_local local w =
        let (done, w1) = perform local w in
        if is_empty local.task then (some (bad_request (txt "missing task")), w) else elim done [
          | none ↦ (none, w1)
          | some p ↦ elim (dump_text (run_json p)) [
            | none ↦ (none, w1)
            | some text ↦ (some (content text (txt "application/json")), w1)
          ]
        ]

    -- the handler of `/run`; `none` is an exception, which the library answers
    unfoldable pub post_run : CliOptions → Request → World → Option Response × World
    unfolding run_local local_options
    post_run opts req w =
        if not (check_auth opts req) then (some unauthorized, w) else elim (parse req.body) [
          | none ↦ (some (bad_request (txt "invalid json")), w)
          | some body ↦ elim (members body) [
            | none ↦ (some (bad_request (txt "invalid json")), w)
            | some ms ↦ elim (local_options opts ms) [
              | none ↦ (none, w)
              | some local ↦ run_local local w
            ]
          ]
        ]

-- `main`: what the command line starts. `broken` is the exit with code 2, after an exception.
pub data Started : Type 0 where
  panel command : CliOptions → Started
  hint usage broken : Started

unfoldable pub start_from : Parsed → Started
start_from helped = usage
start_from failed = broken
start_from (parsed opts) =
    if opts.use_web then panel opts else if is_empty opts.task then hint else command opts

unfoldable pub main : List Str → Started
main args = start_from (parse_cli args)

-- Is the panel bound to an address that others reach? It prints a warning then.
unfoldable pub is_exposed : Str → Bool
is_exposed host = str_eq host (txt "0.0.0.0") || (is_empty host || str_eq host (txt "::"))
