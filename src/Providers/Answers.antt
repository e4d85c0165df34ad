-- ===== src/Providers/Answers.antt =====
-- What the orchestrator makes of an answer of the OpenAI API.
use g.Base.{
  ℕ, ◌≡◌, refl, sym, ap, ◌∙◌, List, [], Option, none, some, Str, txt, lookup, Option-cases, inl,
  inr,
}
use mathlib.Core.Option.{some-injective}
use g.Json.{JsonLib}
use g.Types.{ok}
use g.Orchestrator.{extract_tool_calls}
use g.Orchestrator.Settle.{Message}
use g.Orchestrator.Routing.{ModelResponse}
use g.Providers.{
  OpenAiProvider, string_value, first_choice, choice_message, read_message, read_response,
  request_body, openai_complete,
}

module _ (j : JsonLib) where
  open j use {Json, parse, members, as_string}

  -- What `read_response` returns carries the whole response.
  read_message-raw :
      (raw message : Json) (r : ModelResponse Json)
      → read_message j raw message ≡ some r
      → r.raw ≡ raw
  unfolding read_message
  read_message-raw raw message r e = elim (Option-cases (members message)) [
    | inl x ↦ cc (e, x)
    | inr (ms, x) ↦ elim (Option-cases (string_value j (txt "content") [] message)) [
      | inl y ↦ cc (e, x, y)
      | inr (plan, y) ↦
          ap (λ (a : ModelResponse Json). a.raw)
            (sym (some-injective _ r (rw (read_message, x, y) at e)))
    ]
  ]

  read_response-raw :
      (body : Str) (parsed : Json) (r : ModelResponse Json)
      → parse body ≡ some parsed
      → read_response j 200 body ≡ some (ok r)
      → r.raw ≡ parsed
  unfolding read_response
  read_response-raw body parsed r p e = elim (Option-cases (first_choice j parsed)) [
    | inl x ↦ cc (e, p, x)
    | inr (choice, x) ↦ elim (Option-cases (choice_message j choice)) [
      | inl y ↦ cc (e, p, x, y)
      | inr (message, y) ↦ elim (Option-cases (read_message j parsed message)) [
        | inl z ↦ cc (e, p, x, y, z)
        | inr (a, z) ↦
            let same : some (ok a) ≡ some (ok r) = rw (read_response, p, x, y, z) at e in
            read_message-raw parsed message r (z ∙ cc same)
      ]
    ]
  ]

  -- No tool call is read from an answer of the API, whatever tools it uses, where the response has
  -- no member `tool_calls` beside `choices`: the calls stand in the message of the first choice,
  -- and the orchestrator looks for them in the response.
  pub extract_tool_calls-openai_complete :
      {World : Type 0} (post : Str → Str → Str → World → Option (ℕ × Str) × World)
      (p : OpenAiProvider) (context : List (Message Json)) (w : World) (body : Str) (parsed : Json)
      (ms : List (Str × Json)) (r : ModelResponse Json)
      → (post p.base_url p.path (request_body j p context) w).0 ≡ some (200, body)
      → parse body ≡ some parsed
      → members parsed ≡ some ms
      → lookup (txt "tool_calls") ms ≡ none
      → (openai_complete j post p context w).0 ≡ some (ok r)
      → extract_tool_calls j r.raw ≡ some []
  unfolding openai_complete extract_tool_calls
  extract_tool_calls-openai_complete post p context w body parsed ms r sent read m absent e =
      let answer : read_response j 200 body ≡ some (ok r) = rw (openai_complete, sent) at e in
      let whole = read_response-raw body parsed r read answer in
      rw (whole, extract_tool_calls, m, absent) refl

  -- An answer whose `content` is null, or no text for another reason, ends in an exception of the
  -- JSON library, not in an answer nor in an error.
  pub openai_complete-null :
      {World : Type 0} (post : Str → Str → Str → World → Option (ℕ × Str) × World)
      (p : OpenAiProvider) (context : List (Message Json)) (w : World) (body : Str)
      (parsed choice message v : Json) (ms : List (Str × Json))
      → (post p.base_url p.path (request_body j p context) w).0 ≡ some (200, body)
      → parse body ≡ some parsed
      → first_choice j parsed ≡ some choice
      → choice_message j choice ≡ some message
      → members message ≡ some ms
      → lookup (txt "content") ms ≡ some v
      → as_string v ≡ none
      → (openai_complete j post p context w).0 ≡ none
  unfolding openai_complete read_response read_message string_value
  openai_complete-null post p context w body parsed choice message v ms sent read c m h content
        text =
      let thrown : string_value j (txt "content") [] message ≡ none =
        rw (string_value, h, content) text in
      let unread : read_message j parsed message ≡ none = rw (read_message, h, thrown) refl in
      rw (openai_complete, sent, read_response, read, c, m, unread) refl
