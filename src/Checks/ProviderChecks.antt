-- ===== src/Checks/ProviderChecks.antt =====
-- An answer of the API, with a text and with a null in its place.
use g.Base.{
  ℕ, ◌≡◌, refl, ◌++◌, false, List, [], ◌∷◌, Option, none, some, Str, txt, lookup, replicate, str_eq,
}
use g.Json.{JsonLib}
use g.Orchestrator.{extract_tool_calls}
use g.Orchestrator.Routing.{ModelResponse}
use g.Providers.{
  OpenAiProvider, openai_complete, read_response, first_choice, choice_message, read_message,
  string_value, rtrim_slashes, strip_trailing_v1, tool_calls_of,
}
use g.Providers.Urls.{strip_trailing_v1-append}
use g.Providers.Answers.{extract_tool_calls-openai_complete}

-- The response, its array of choices, the choice, its message, and the contents.
data Reply : Type 0 where
  response choices choice message hello nothing : Reply

reply_members : Reply → Reply → Option (List (Str × Reply))
reply_members content response = some ((txt "choices", choices) ∷ [])
reply_members content choice = some ((txt "message", message) ∷ [])
reply_members content message = some ((txt "content", content) ∷ [])
reply_members content _ = none

reply_elements : Reply → Option (List Reply)
reply_elements choices = some (choice ∷ [])
reply_elements _ = none

reply_text : Reply → Option Str
reply_text hello = some (txt "hello")
reply_text _ = none

-- Every text is that of the response, whose message has this content.
abbrev replies : Reply → JsonLib
replies content = record {
  Json = Reply;
  null = nothing;
  is_null = λ v. false;
  parse = λ s. some response;
  dump = λ v. txt "{}";
  members = reply_members content;
  elements = reply_elements;
  as_string = reply_text;
  as_boolean = λ v. none;
  as_unsigned = λ v. none;
  integer_text = λ v. none;
  float_text = λ v. none;
  of_string = λ s. nothing;
  of_number = λ n. nothing;
  of_boolean = λ b. nothing;
  of_members = λ ms. nothing;
  of_elements = λ vs. nothing;
}

post : Str → Str → Str → ℕ → Option (ℕ × Str) × ℕ
post base path body w = (some (200, txt "{}"), w)

abbrev api : OpenAiProvider
api = record {
  base_url = txt "https://h";
  api_key = [];
  model = txt "m";
  path = txt "/chat/completions";
}

abbrev greeting : ModelResponse Reply
greeting = record {
  outcome = record { plan = txt "hello"; has_tool_use = false; tool_count = 0; completed = false };
  raw = response;
}

extract_tool_calls-openai_complete_example : extract_tool_calls (replies hello) response ≡ some []
unfolding post openai_complete read_response first_choice choice_message read_message string_value
    lookup str_eq reply_members reply_elements reply_text tool_calls_of
extract_tool_calls-openai_complete_example =
    extract_tool_calls-openai_complete (replies hello) post api [] 0 (txt "{}") response
      ((txt "choices", choices) ∷ []) greeting refl refl refl refl refl

strip_trailing_v1-append_example :
    strip_trailing_v1 (txt "https://h/" ++ txt "/v1" ++ replicate 2 47)
    ≡ rtrim_slashes (txt "https://h/")
strip_trailing_v1-append_example = strip_trailing_v1-append (txt "https://h/") 2
