-- ===== src/Providers.antt =====
-- llm/fake_provider and llm/openai_provider. In both, `none` is an exception of the JSON library
-- that nothing in the provider catches.
pub mod Urls
pub mod Answers
use g.Base.{
  ℕ, zero, suc, ◌%◌, ◌^◌, Bool, true, false, ◌&&◌, not, List, [], ◌∷◌, ◌++◌, map, Option, none,
  some, Str, txt, length, drop, take, lookup, if◌then◌else◌, str_eq, is_empty, starts_with, decimal,
  ◌==◌, succ64,
}
use g.Json.{JsonLib}
use g.Types.{Result, ok, fail, provider_failure, TurnOutcome}
use g.Orchestrator.Settle.{Message}
use g.Orchestrator.Routing.{ModelResponse}

-- `context.back()`
unfoldable pub last_message : {Json : Type 0} → List (Message Json) → Option (Message Json)
last_message [] = none
last_message (m ∷ []) = some m
last_message (m ∷ n ∷ ms) = last_message (n ∷ ms)

unfoldable pub is_decision_review : {Json : Type 0} → List (Message Json) → Bool
unfolding last_message
is_decision_review context = elim (last_message context) [
  | none ↦ false
  | some m ↦
      if not (str_eq m.role (txt "user"))
      then false
      else starts_with (txt "Decision review:") m.content
]

module _ (j : JsonLib) where
  open j use {
    Json, null, is_null, parse, dump, members, elements, as_string, of_string, of_members,
    of_elements,
  }

  -- `value(key, fallback)` of a string
  unfoldable pub string_value : Str → Str → Json → Option Str
  string_value key fallback v = elim (members v) [
    | none ↦ none
    | some ms ↦ elim (lookup key ms) [ none ↦ some fallback | some x ↦ as_string x ]
  ]

  -- `value("tool_calls", array())`, of an object
  unfoldable pub tool_calls_of : List (Str × Json) → Json
  tool_calls_of ms = elim (lookup (txt "tool_calls") ms) [ none ↦ of_elements [] | some v ↦ v ]

  -- `size()`
  unfoldable pub size_of : Json → ℕ
  size_of v = elim (elements v) [
    | some es ↦ length es
    | none ↦ elim (members v) [ some ms ↦ length ms | none ↦ if is_null v then 0 else 1 ]
  ]

  -- `is_array() && !empty()`
  unfoldable pub has_elements : Json → Bool
  has_elements v = elim (elements v) [ none ↦ false | some es ↦ not (is_empty es) ]

  pub record FakeProvider : Type 0 where
    pub steps : List Json
    pub call_count : ℕ
    pub context_sizes : List ℕ

  unfoldable pub script : List Json → FakeProvider → FakeProvider
  script steps p = record p { steps = steps }

  -- the answer to a review
  unfoldable pub confirm : ModelResponse Json
  confirm = record {
    outcome = record {
      plan = txt "CONFIRM";
      has_tool_use = false;
      tool_count = 0;
      completed = false;
    };
    raw =
        of_members
          ((txt "plan", of_string (txt "CONFIRM")) ∷ (txt "tool_calls", of_elements []) ∷ []);
  }

  -- the answer that a step of the script describes
  unfoldable pub play : Json → Option (ModelResponse Json)
  play step = elim (members step) [
    | none ↦ none
    | some ms ↦ elim (string_value (txt "plan") (txt "no plan stated") step) [
      | none ↦ none
      | some plan ↦ some (record {
        outcome = record {
          plan = plan;
          has_tool_use = elim (lookup (txt "tool_calls") ms) [
            | none ↦ false
            | some v ↦ has_elements v
          ];
          tool_count = size_of (tool_calls_of ms) % 2 ^ 32;
          completed = false;
        };
        raw = step;
      })
    ]
  ]

  unfoldable pub fake_complete :
      List (Message Json) → FakeProvider → Option (Result (ModelResponse Json)) × FakeProvider
  unfolding play
  fake_complete context p =
      let counted = record p {
        call_count = succ64 p.call_count;
        context_sizes = p.context_sizes ++ length context ∷ [];
      } in
      if is_decision_review context then (some (ok confirm), counted) else elim (p.steps) [
        | [] ↦ (
          some (
              fail (record {
                kind = provider_failure;
                message = txt "fake provider script exhausted";
              })),
          counted,
        )
        | step ∷ steps ↦ (
          elim (play step) [ none ↦ none | some r ↦ some (ok r) ],
          record counted { steps = steps },
        )
      ]

-- `rtrim_slashes`
unfoldable pub rtrim_slashes : Str → Str
rtrim_slashes [] = []
rtrim_slashes (c ∷ s) =
    let rest = rtrim_slashes s in if is_empty rest && c == 47 then [] else c ∷ rest

-- the last three bytes, compared with "/v1", and what stands before them
unfoldable pub before_v1 : Str → Option Str
before_v1 [] = none
before_v1 (c ∷ s) =
    let rest = before_v1 s in
    if str_eq (c ∷ s) (txt "/v1")
    then some []
    else elim rest [ none ↦ none | some b ↦ some (c ∷ b) ]

unfoldable pub strip_trailing_v1 : Str → Str
strip_trailing_v1 url = elim (before_v1 (rtrim_slashes url)) [
  | none ↦ url
  | some base ↦ rtrim_slashes base
]

-- What the provider is made of; the key is kept, and nothing else reads it.
pub record OpenAiProvider : Type 0 where
  pub base_url : Str
  pub api_key : Str
  pub model : Str
  pub path : Str

unfoldable pub openai_provider : Str → Str → Str → Str → OpenAiProvider
openai_provider base_url api_key model path = record {
  base_url = strip_trailing_v1 base_url;
  api_key = api_key;
  model = model;
  path = path;
}

module _ (j : JsonLib) where
  open j use {Json, parse, dump, members, elements, of_string, of_members, of_elements}

  unfoldable pub message_json : Message Json → Json
  message_json m = of_members (
      (txt "role", of_string m.role)
      ∷ (txt "content", of_string m.content)
      ∷ (elim (m.tool_calls) [ none ↦ [] | some v ↦ (txt "tool_calls", v) ∷ [] ]))

  -- the body of the request
  unfoldable pub request_body : OpenAiProvider → List (Message Json) → Str
  request_body p context = dump (
      of_members (
        (txt "model", of_string p.model)
        ∷ (txt "messages", of_elements (map message_json context))
        ∷ []))

  provider_error : Str → Option (Result (ModelResponse Json))
  provider_error message = some (fail (record { kind = provider_failure; message = message }))

  -- the answer in `message`; one that is missing or null, or whose `content` is no text, throws
  unfoldable pub read_message : Json → Json → Option (ModelResponse Json)
  read_message raw message = elim (members message) [
    | none ↦ none
    | some ms ↦ elim (string_value j (txt "content") [] message) [
      | none ↦ none
      | some plan ↦
          let calls : List Json = elim (elements (tool_calls_of j ms)) [
            | none ↦ []
            | some es ↦ es
          ] in
          some (record {
            outcome = record {
              plan = plan;
              has_tool_use = not (is_empty calls);
              tool_count = length calls % 2 ^ 32;
              completed = false;
            };
            raw = raw;
          })
    ]
  ]

  -- `choices`, where it is an array that is not empty: its first element
  unfoldable pub first_choice : Json → Option Json
  first_choice parsed = elim (members parsed) [
    | none ↦ none
    | some ms ↦ elim (lookup (txt "choices") ms) [
      | none ↦ none
      | some v ↦ elim (elements v) [ none ↦ none | some [] ↦ none | some (c ∷ cs) ↦ some c ]
    ]
  ]

  -- `["message"]` of the first choice
  unfoldable pub choice_message : Json → Option Json
  choice_message choice = elim (members choice) [
    | none ↦ none
    | some ms ↦ lookup (txt "message") ms
  ]

  -- the answer to a response with this status and body
  unfoldable pub read_response : ℕ → Str → Option (Result (ModelResponse Json))
  unfolding provider_error
  read_response status body =
      if not (status == 200)
      then provider_error (txt "http status " ++ decimal status)
      else elim (parse body) [
        | none ↦ provider_error (txt "invalid json response")
        | some parsed ↦ elim (first_choice parsed) [
          | none ↦ provider_error (txt "response missing choices")
          | some choice ↦ elim (choice_message choice) [
            | none ↦ none
            | some message ↦ elim (read_message parsed message) [
              | none ↦ none
              | some r ↦ some (ok r)
            ]
          ]
        ]
      ]

  -- `complete`; `post` is the HTTP client, with no response where the request failed
  unfoldable pub openai_complete :
      {World : Type 0}
      → (Str → Str → Str → World → Option (ℕ × Str) × World)
      → OpenAiProvider
      → List (Message Json)
      → World
      → Option (Result (ModelResponse Json)) × World
  unfolding provider_error
  openai_complete post p context w =
      let (res, w1) = post p.base_url p.path (request_body p context) w in
      (
        elim res [
          | none ↦ provider_error (txt "http request failed")
          | some (status, body) ↦ read_response status body
        ],
        w1,
      )
