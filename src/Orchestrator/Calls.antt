-- ===== src/Orchestrator/Calls.antt =====
-- The calls that are read from a response.
use g.Base.{
  ℕ, suc, ◌+◌, ◌^◌, ◌≤◌, ◌<◌, ◌≡◌, ap, sym, subst, ◌∙◌, false, List, [], ◌∷◌, some, txt, length,
  is_empty, lookup, succ64, arith, Bool-cases, Option-cases, inl, inr, All, succ64-eq,
}
use mathlib.Core.Option.{some-injective}
use g.Json.{JsonLib}
use g.Types.{ToolCall}
use g.Orchestrator.{name_of, arguments_of, canonicalize_arguments, extract_from, extract_tool_calls}
use g.Orchestrator.Splicing.{Ordered}

Ordered-weaken : (m n : ℕ) (cs : List ToolCall) → m ≤ n → Ordered n cs → Ordered m cs
Ordered-weaken m n [] le o = tt
Ordered-weaken m n (c ∷ cs) le o = (omega arith, o.1)

module _ (j : JsonLib) where
  open j use {Json, members, elements}

  -- What holds of the calls read from position `n` on: increasing ordinals, and a name for each.
  pub record IsExtracted (n : ℕ) (calls : List ToolCall) : Type 0 where
    pub ordered : Ordered n calls
    pub named : All (λ c. is_empty c.name ≡ false) calls

  extract_from-IsExtracted :
      (n : ℕ) (tcs : List Json) (calls : List ToolCall)
      → n + length tcs < 2 ^ 64
      → extract_from j n tcs ≡ some calls
      → IsExtracted n calls
  unfolding extract_from
  extract_from-IsExtracted n [] calls lt e =
      subst (IsExtracted n) (some-injective [] calls e) (record { ordered = tt; named = tt })
  extract_from-IsExtracted n (tc ∷ tcs) calls lt e = elim (Option-cases (name_of j tc)) [
    | inl f ↦ cc (e, f)
    | inr (name, f) ↦ elim (Option-cases (extract_from j (succ64 n) tcs)) [
      | inl g ↦ cc (e, f, g)
      | inr (rest, g) ↦
          let next : succ64 n ≡ suc n = omega (arith, succ64-eq n (omega arith)) in
          let later =
            extract_from-IsExtracted (suc n) tcs rest (omega arith)
              (ap (λ k. extract_from j k tcs) (sym next) ∙ g) in
          elim (Bool-cases (is_empty name)) [
            | inl h ↦
                let same : some rest ≡ some calls = rw (extract_from, f, g, h) at e in
                subst (IsExtracted n) (some-injective rest calls same) (record {
                  ordered = Ordered-weaken n (suc n) rest (omega arith) later.ordered;
                  named = later.named;
                })
            | inr h ↦
                let call : ToolCall = record {
                  name = name;
                  arguments = canonicalize_arguments j (arguments_of j tc);
                  ordinal = n;
                } in
                let same : some (call ∷ rest) ≡ some calls = rw (extract_from, f, g, h) at e in
                subst (IsExtracted n) (some-injective (call ∷ rest) calls same)
                  (record { ordered = (omega arith, later.ordered); named = (h, later.named) })
          ]
    ]
  ]

  none_read : IsExtracted 0 []
  none_read = record { ordered = tt; named = tt }

  -- The calls that are read from a response have increasing ordinals and a name each, where no
  -- JSON array has 2 ^ 64 elements.
  pub extract_tool_calls-IsExtracted :
      (raw : Json) (calls : List ToolCall)
      → ((v : Json) (es : List Json) → elements v ≡ some es → length es < 2 ^ 64)
      → extract_tool_calls j raw ≡ some calls
      → IsExtracted 0 calls
  unfolding extract_tool_calls
  extract_tool_calls-IsExtracted raw calls small e = elim (Option-cases (members raw)) [
    | inl f ↦
        subst (IsExtracted 0) (some-injective [] calls (rw (extract_tool_calls, f) at e)) none_read
    | inr (ms, f) ↦ elim (Option-cases (lookup (txt "tool_calls") ms)) [
      | inl g ↦
          subst (IsExtracted 0) (some-injective [] calls (rw (extract_tool_calls, f, g) at e))
            none_read
      | inr (v, g) ↦ elim (Option-cases (elements v)) [
        | inl h ↦
            subst (IsExtracted 0) (some-injective [] calls (rw (extract_tool_calls, f, g, h) at e))
              none_read
        | inr (es, h) ↦
            extract_from-IsExtracted 0 es calls (omega (arith, small v es h))
              (rw (extract_tool_calls, f, g, h) at e)
      ]
    ]
  ]
