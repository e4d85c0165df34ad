-- ===== src/Context/Rendering.antt =====
-- The size of the working set, the blocks it lists, and what is recalled.
use g.Base.{
  ◌*◌, ◌≤◌, ◌≡◌, refl, ap, ◌∙◌, List, [], ◌∷◌, ◌++◌, none, some, Str, length, ltb, arith,
  Bool-cases, Option-cases, inl, inr,
}
use g.Digest.{estimate_tokens}
use g.Digest.Tokens.{estimate_tokens-le}
use g.Facts.{FactStore, get, append, digest_hex}
use g.Facts.Contents.{IsAddressed, get-append, append-id}
use g.Context.{
  ContextManager, TurnContext, render_head, render_facts, render_working_set, size_tokens, recall,
  append_fact, precise,
}

-- The identifiers that the store files, in their order.
pub known_ids : FactStore → List Str → List Str
known_ids s [] = []
known_ids s (id ∷ ids) =
    let rest = known_ids s ids in elim (get id s) [ none ↦ rest | some x ↦ id ∷ rest ]

render_facts-known_ids :
    (m : ContextManager) (ids : List Str) → (render_facts m ids).1 ≡ known_ids m.store ids
unfolding render_facts known_ids
render_facts-known_ids m [] = refl
render_facts-known_ids m (id ∷ ids) = elim (Option-cases (get id m.store)) [
  | inl e ↦ rw (render_facts, known_ids, e) (render_facts-known_ids m ids)
  | inr (x, e) ↦ ground (arith, e, render_facts-known_ids m ids)
]

-- The working set carries the estimate of its own text, and lists the blocks of the recent results
-- that the store files, in their order. Its text is within the limit where twice the bytes of the
-- goal and the digest are, however many results there are and however long they are.
pub render_working_set-within :
    (ctx : TurnContext) (m : ContextManager)
    → 2 * length (render_head ctx.goal m.digest) ≤ m.max_working_tokens
    → let ws = render_working_set ctx m in
      (ws.token_count ≡ size_tokens ws.render)
      × (ws.fact_blocks ≡ known_ids m.store ctx.recent_tool_results)
      × (ws.token_count ≤ m.max_working_tokens)
unfolding render_working_set size_tokens
render_working_set-within ctx m small =
    let head = render_head ctx.goal m.digest in
    let (text, blocks) = render_facts m ctx.recent_tool_results in
    let bound = estimate_tokens-le head in
    let listed = render_facts-known_ids m ctx.recent_tool_results in
    elim (Bool-cases (ltb m.max_working_tokens (estimate_tokens (head ++ text)))) [
      | inl e ↦ rw (render_working_set, e) (refl, listed, omega arith)
      | inr e ↦ rw (render_working_set, e) (refl, listed, ground arith)
    ]

-- What was filed as a new fact is recalled, precisely and with its content, where the store files
-- each fact under its own digest.
pub recall-append_fact :
    (type content : Str) (m : ContextManager)
    → IsAddressed m.store.entries
    → get (digest_hex type content) m.store ≡ none
    → let r = recall (digest_hex type content) (append_fact type content m) in
      (r.mode ≡ precise) × (r.id ≡ digest_hex type content) × (r.content ≡ content)
unfolding recall append_fact
recall-append_fact type content m v new =
    let id = append-id type content m.store in
    let (x, e, named, filed, fresh) = get-append type content m.store v in
    let known : get (digest_hex type content) (append type content m.store).1 ≡ some x =
      rw (id) at e in
    let content_of = (fresh (ap (λ i. get i m.store) id ∙ new)).1 in
    rw (recall, known) (refl, named ∙ id, content_of)
