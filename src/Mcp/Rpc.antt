-- ===== src/Mcp/Rpc.antt =====
-- mcp/json_rpc: the client. A transport is the system's; `raised` is an exception with its text,
-- and `library_text` the text of the JSON library's own exceptions.
use g.Base.{
  ◌≡◌, refl, ◌⊎◌, inl, inr, ℕ, ◌+◌, List, [], ◌∷◌, Option, none, some, Str, txt, Map, lookup,
  insert, if◌then◌else◌, is_empty,
}
use g.Json.{JsonLib}

pub data Outcome (A : Type 0) : Type 0 where
  value : A → Outcome A
  raised : Str → Outcome A

pub Outcome-cases :
    {A : Type 0} (o : Outcome A) → ((m : Str) × (o ≡ raised m)) ⊎ ((a : A) × (o ≡ value a))
Outcome-cases (value a) = inr (a, refl)
Outcome-cases (raised m) = inl (m, refl)

-- `JsonRpcTransport`; a send that throws gives the text
pub record Transport (World : Type 0) : Type 0 where
  pub send : Str → World → Option Str × World
  pub receive : World → Str × World

pub record JsonRpcClient (Json : Type 0) : Type 0 where
  pub next_id : ℕ
  pub handlers : Map (Json → Json)

unfoldable pub new_client : {Json : Type 0} → JsonRpcClient Json
new_client = record { next_id = 1; handlers = [] }

module _ (j : JsonLib) where
  open j use {Json, is_null, parse, dump, members, as_string, of_string, of_number, of_members}

  unfoldable pub request : ℕ → Str → Json → Json
  request id method params = of_members (
      (txt "jsonrpc", of_string (txt "2.0"))
      ∷ (txt "id", of_number id)
      ∷ (txt "method", of_string method)
      ∷ (txt "params", params)
      ∷ [])

  unfoldable pub notification : Str → Json → Json
  notification method params = of_members (
      (txt "jsonrpc", of_string (txt "2.0"))
      ∷ (txt "method", of_string method)
      ∷ (txt "params", params)
      ∷ [])

  -- `contains(key) && !is_null()`
  unfoldable pub set_member : Str → List (Str × Json) → Option Json
  set_member key ms = elim (lookup key ms) [
    | none ↦ none
    | some v ↦ if is_null v then none else some v
  ]

  -- the answer in what was received; its `id` is not looked at
  unfoldable pub read_answer : Str → Str → Outcome Json
  read_answer library_text raw =
      if is_empty raw then raised (txt "transport closed during call") else elim (parse raw) [
        | none ↦ raised library_text
        | some resp ↦ elim (members resp) [
          | none ↦ raised library_text
          | some ms ↦ elim (set_member (txt "error") ms) [
            | some e ↦ raised (dump e)
            | none ↦ elim (lookup (txt "result") ms) [
              | none ↦ value (of_members [])
              | some r ↦ value r
            ]
          ]
        ]
      ]

  module _ {World : Type 0} (t : Transport World) (library_text : Str) where
    -- `call`
    unfoldable pub call :
        Str → Json → JsonRpcClient Json → World → Outcome Json × JsonRpcClient Json × World
    call method params c w =
        let (problem, w1) = t.send (dump (request c.next_id method params)) w in
        let (raw, w2) = t.receive w1 in
        let next = record c { next_id = c.next_id + 1 } in
        elim problem [
          | some text ↦ (raised text, next, w1)
          | none ↦ (read_answer library_text raw, next, w2)
        ]

    unfoldable pub notify : Str → Json → World → Option Str × World
    notify method params w = t.send (dump (notification method params)) w

    unfoldable pub register_handler : Str → (Json → Json) → JsonRpcClient Json → JsonRpcClient Json
    register_handler method h c = record c { handlers = insert method h c.handlers }

    -- the answer that a message asks for: none where it names no handler, or has no `id`
    unfoldable pub answer_to : JsonRpcClient Json → List (Str × Json) → Str → Option Json
    answer_to c ms method = elim (lookup method c.handlers) [
      | none ↦ none
      | some h ↦ elim (set_member (txt "id") ms) [
        | none ↦ none
        | some id ↦ some (
            of_members (
              (txt "jsonrpc", of_string (txt "2.0"))
              ∷ (txt "id", id)
              ∷ (
                txt "result",
                h (elim (lookup (txt "params") ms) [ none ↦ of_members [] | some p ↦ p ]),
              )
              ∷ []))
      ]
    ]

    -- `pump_once`: the text of an exception, if there is one
    unfoldable pub pump_once : JsonRpcClient Json → World → Option Str × World
    pump_once c w =
        let (raw, w1) = t.receive w in
        if is_empty raw then (none, w1) else elim (parse raw) [
          | none ↦ (some library_text, w1)
          | some req ↦ elim (members req) [
            | none ↦ (some library_text, w1)
            | some ms ↦
                elim (elim (lookup (txt "method") ms) as (λ _. Option Str) [
                  | none ↦ some []
                  | some m ↦ as_string m
                ]) [
                  | none ↦ (some library_text, w1)
                  | some method ↦ elim (answer_to c ms method) [
                    | none ↦ (none, w1)
                    | some resp ↦ t.send (dump resp) w1
                  ]
                ]
          ]
        ]
