-- ===== src/Context.antt =====
-- core/context_manager: the working digest, the rendering of the working set, and recall.
pub mod Rebuilt
pub mod Rendering
use g.Base.{
  ℕ, ◌/◌, Bool, true, false, List, [], ◌∷◌, ◌++◌, Option, none, some, Str, txt, leb, ltb,
  if◌then◌else◌, insert_sorted, take,
}
use g.Json.{JsonLib}
use g.Digest.{HardKeys, hard_keys, estimate_tokens}
use g.Facts.{Fact, FactStore, get, append, open_memory}

pub data RecallMode : Type 0 where
  precise approximate degraded : RecallMode

-- `RecallResult`; of the confidence the source uses 0 and 1 alone
pub record RecallResult : Type 0 where
  pub mode : RecallMode
  pub id : Str
  pub content : Str
  pub confidence : ℕ

pub record WorkingSet : Type 0 where
  pub render : Str
  pub fact_blocks : List Str
  pub token_count : ℕ

pub record TurnContext : Type 0 where
  pub goal : Str
  pub recent_tool_results : List Str

pub record ContextManager : Type 0 where
  pub token_budget : ℕ
  pub store : FactStore
  pub digest : HardKeys
  pub fact_order : List Str
  pub max_working_tokens : ℕ
  pub digest_dirty : Bool

-- the constructor
unfoldable pub context_manager : ℕ → ContextManager
context_manager budget = record {
  token_budget = budget;
  store = open_memory;
  digest = [];
  fact_order = [];
  max_working_tokens = if ltb 0 budget then budget else 0;
  digest_dirty = true;
}

unfoldable pub size_tokens : Str → ℕ
size_tokens s = estimate_tokens s

-- the loop `digest_[k] = v`
unfoldable pub merge_keys : HardKeys → HardKeys → HardKeys
merge_keys [] digest = digest
merge_keys ((k, v) ∷ keys) digest = merge_keys keys (insert_sorted k v digest)

module _ (j : JsonLib) where
  -- what a looked-up fact does to the digest
  unfoldable pub merge_fact : Option Fact → HardKeys → HardKeys
  merge_fact none digest = digest
  merge_fact (some x) digest = merge_keys (hard_keys j x.content) digest

  unfoldable pub record_tool_result : Str → ContextManager → ContextManager
  record_tool_result id m = record m {
    fact_order = m.fact_order ++ id ∷ [];
    digest_dirty = true;
    digest = merge_fact (get id m.store) m.digest;
  }

  -- the loop of `rebuild_digest`
  unfoldable pub merge_facts : FactStore → List Str → HardKeys → HardKeys
  merge_facts store [] digest = digest
  merge_facts store (id ∷ ids) digest = merge_facts store ids (merge_fact (get id store) digest)

  unfoldable pub rebuild_digest : ContextManager → ContextManager
  rebuild_digest m = record m { digest = merge_facts m.store m.fact_order []; digest_dirty = false }

-- `store().append(type, content)`, as the callers write through the store
unfoldable pub append_fact : Str → Str → ContextManager → ContextManager
append_fact type content m =
    let (id, store) = append type content m.store in record m { store = store }

-- the lines of the digest
unfoldable pub render_digest : HardKeys → Str
render_digest [] = []
render_digest ((k, v) ∷ keys) = txt "- " ++ k ++ txt " = " ++ v ++ 10 ∷ render_digest keys

-- the goal and the digest
unfoldable pub render_head : Str → HardKeys → Str
render_head goal digest = txt "# Goal\n" ++ goal ++ txt "\n\n# Facts\n" ++ render_digest digest

-- the block of one fact: whole, or cut to half the limit and marked
unfoldable pub render_fact : ℕ → Str → Fact → Str
render_fact limit id x =
    txt "\n## "
    ++ id
    ++ 10
      ∷ (if leb (size_tokens x.content) limit
          then x.content ++ 10 ∷ []
          else take (limit / 2) x.content ++ txt "\n...[truncated, recall by id]\n")

-- the loop over the recent results, with the blocks' identifiers
unfoldable pub render_facts : ContextManager → List Str → Str × List Str
render_facts m [] = ([], [])
render_facts m (id ∷ ids) =
    let (text, blocks) = render_facts m ids in
    elim (get id m.store) [
      | none ↦ (text, blocks)
      | some x ↦ (render_fact m.max_working_tokens id x ++ text, id ∷ blocks)
    ]

unfoldable pub render_working_set : TurnContext → ContextManager → WorkingSet
render_working_set ctx m =
    let head = render_head ctx.goal m.digest in
    let (text, blocks) = render_facts m ctx.recent_tool_results in
    let render = head ++ text in
    if ltb m.max_working_tokens (size_tokens render)
    then record { render = head; fact_blocks = blocks; token_count = size_tokens head }
    else record { render = render; fact_blocks = blocks; token_count = size_tokens render }

unfoldable pub recall : Str → ContextManager → RecallResult
recall id m = elim (get id m.store) [
  | none ↦ record { mode = degraded; id = []; content = []; confidence = 0 }
  | some x ↦ record { mode = precise; id = x.id; content = x.content; confidence = 1 }
]
