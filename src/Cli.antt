-- ===== src/Cli.antt =====
-- ui/cli: the command line, the provider that it names, and what a run prints.
pub mod Options
use g.Base.{
  ℕ, ◌-◌, ◌^◌, Bool, true, false, List, [], ◌∷◌, ◌++◌, Option, none, some, Str, txt, if◌then◌else◌,
  is_empty, str_eq, ◌==◌, ℤ, pos, negsuc, stoi, decimal,
}
use g.Json.{JsonLib}
use g.Floats.{Floats}
use g.Types.{Result, ok, fail}
use g.Orchestrator.Run.{RunResult}
use g.Providers.{FakeProvider, OpenAiProvider, openai_provider, script}

pub record CliOptions : Type 0 where
  pub task : Str
  pub provider_name : Str
  pub model : Str
  pub api_key : Str
  pub api_base : Str
  pub budget_turns : ℕ
  pub use_web : Bool
  pub web_port : ℤ
  pub web_host : Str
  pub web_user : Str
  pub web_pass : Str
  pub verbose : Bool

unfoldable pub default_options : CliOptions
default_options = record {
  task = [];
  provider_name = txt "fake";
  model = txt "gpt-4o-mini";
  api_key = [];
  api_base = [];
  budget_turns = 32;
  use_web = false;
  web_port = pos 8080;
  web_host = txt "127.0.0.1";
  web_user = [];
  web_pass = [];
  verbose = false;
}

-- `static_cast<std::uint32_t>` of an `int`
unfoldable pub to_uint32 : ℤ → ℕ
to_uint32 (pos n) = n
to_uint32 (negsuc n) = 2 ^ 32 - 1 - n

-- What an argument does to the options: nothing is taken, the options change, or `std::stoi` throws.
pub data Taken : Type 0 where
  other threw : Taken
  taken : CliOptions → Taken

-- an option that has a value
unfoldable pub take_value : Str → Str → CliOptions → Taken
unfolding to_uint32
take_value arg v o =
    if str_eq arg (txt "--provider")
    then taken (record o { provider_name = v })
    else if str_eq arg (txt "--model")
    then taken (record o { model = v })
    else if str_eq arg (txt "--api-key")
    then taken (record o { api_key = v })
    else if str_eq arg (txt "--api-base")
    then taken (record o { api_base = v })
    else if str_eq arg (txt "--budget")
    then (elim (stoi v) [ none ↦ threw | some n ↦ taken (record o { budget_turns = to_uint32 n }) ])
    else if str_eq arg (txt "--port")
    then (elim (stoi v) [ none ↦ threw | some n ↦ taken (record o { web_port = n }) ])
    else if str_eq arg (txt "--web-host")
    then taken (record o { web_host = v })
    else if str_eq arg (txt "--web-user")
    then taken (record o { web_user = v })
    else if str_eq arg (txt "--web-pass")
    then taken (record o { web_pass = v })
    else other

-- How reading the arguments ends: with options, with the help text, or with an exception.
pub data Parsed : Type 0 where
  parsed : CliOptions → Parsed
  helped failed : Parsed

-- Does the argument start with a dash? The first character of an empty one is a zero.
unfoldable pub has_dash : Str → Bool
has_dash [] = false
has_dash (c ∷ s) = c == 45

unfoldable pub add_word : Str → CliOptions → CliOptions
add_word arg o = record o { task = if is_empty o.task then arg else o.task ++ 32 ∷ arg }

-- an argument that takes no value
unfoldable pub take_flag : Str → CliOptions → Parsed
unfolding has_dash add_word
take_flag arg o =
    if str_eq arg (txt "--web")
    then parsed (record o { use_web = true })
    else if str_eq arg (txt "--verbose")
    then parsed (record o { verbose = true })
    else if str_eq arg (txt "-v")
    then parsed (record o { verbose = true })
    else if str_eq arg (txt "--help")
    then helped
    else if str_eq arg (txt "-h")
    then helped
    else if has_dash arg
    then parsed o
    else parsed (add_word arg o)

-- the loop over the arguments after the program's name; the last one has no value
unfoldable pub parse_args : List Str → CliOptions → Parsed
parse_args [] o = parsed o
parse_args (arg ∷ []) o = take_flag arg o
parse_args (arg ∷ v ∷ rest) o = elim (take_value arg v o) [
  | taken o' ↦ parse_args rest o'
  | threw ↦ failed
  | other ↦ elim (take_flag arg o) [
    | parsed o' ↦ parse_args (v ∷ rest) o'
    | helped ↦ helped
    | failed ↦ failed
  ]
]

-- `parse_cli`, on `argv` without the program's name
unfoldable pub parse_cli : List Str → Parsed
parse_cli args = parse_args args default_options

-- The providers that the command line can name.
pub data NamedProvider (j : JsonLib) : Type 0 where
  openai : OpenAiProvider → NamedProvider j
  fake : FakeProvider j → NamedProvider j

module _ (j : JsonLib) where
  open j use {of_string, of_members, of_elements}

  -- `make_provider_from_cli`
  unfoldable pub make_provider_from_cli : CliOptions → NamedProvider j
  make_provider_from_cli o =
      let base = if is_empty o.api_base then txt "https://api.openai.com/v1" else o.api_base in
      let step =
        of_members
          ((txt "plan", of_string (txt "DONE")) ∷ (txt "tool_calls", of_elements []) ∷ []) in
      if str_eq o.provider_name (txt "openai")
      then openai (openai_provider base o.api_key o.model (txt "/chat/completions"))
      else fake (script j (step ∷ []) (record { steps = []; call_count = 0; context_sizes = [] }))

-- What `run_cli` prints to each stream, and its exit code.
pub record Report : Type 0 where
  pub out : Str
  pub err : Str
  pub code : ℕ

-- the end of `run_cli`; `telemetry` is the text of the report
unfoldable pub report_run : {f : Floats} → Str → Bool → Result (RunResult f) → Report
report_run telemetry verbose (fail e) = record {
  out = [];
  err = txt "error: " ++ e.message ++ 10 ∷ [];
  code = 1;
}
report_run telemetry verbose (ok r) = record {
  out =
      txt "turns: "
      ++ decimal r.turns
      ++ txt " completed: "
      ++ (if r.completed then txt "yes" else txt "no")
      ++ (if r.bounded then txt " bounded: yes" else [])
      ++ 10 ∷ []
      ++ (if is_empty r.final_output then [] else txt "output: " ++ r.final_output ++ 10 ∷ [])
      ++ (if verbose then telemetry ++ 10 ∷ [] else []);
  err = [];
  code = 0;
}
