-- ===== src/Orchestrator/Run/Log.antt =====
-- What the steps of a turn add to the log: no request to the chore model but the turn's own.
use g.Base.{
  succ64, ℕ, suc, ◌+◌, ◌≡◌, refl, sym, ap, ◌∙◌, Bool, true, false, List, [], ◌∷◌, ◌++◌, append-nil,
  append_assoc, arith, Bool-cases, Option-cases, List-cases, inl, inr,
}
use g.Json.{JsonLib}
use g.Floats.{Floats}
use g.Types.{Result, ok, fail, ToolCall}
use g.Cascade.{Tier, ModelCascade}
use g.Replay.{
  Replay, Event, EventKind, record_kind, record_event, model_requested, cache_hit, tool_finished,
  working_set_rendered, degraded, numbered,
}
use g.Executor.{ToolExecutionRecord}
use g.SideEffects.{Snapshots, File, diff}
use g.Orchestrator.{CallView, Shared, look_up_from, usable, note_hit, note_miss, cache_key}
use g.Cache
use g.Cache.{Cache}
use g.Orchestrator.Settle.{Turn, settle, settle_record, apply_side_effects}
use g.Orchestrator.Routing.{ModelResponse}
use g.Orchestrator.Review.{judge, is_override}

unfoldable pub weight : EventKind → ℕ
weight model_requested = 1
weight _ = 0

module _ {Json : Type 0} where
  pub requests : List (Event Json) → ℕ
  requests [] = 0
  requests (e ∷ es) = weight e.kind + requests es

  requests-append : (es ds : List (Event Json)) → requests (es ++ ds) ≡ requests es + requests ds
  unfolding requests
  requests-append [] ds = omega arith
  requests-append (e ∷ es) ds = omega (arith, requests-append es ds)

  -- The second log is the first one and more, with `n` requests to the chore model.
  pub record Logs (n : ℕ) (r r' : Replay Json) : Type 0 where
    pub added : List (Event Json)
    pub events : r'.events ≡ r.events ++ added
    pub counted : requests added ≡ n

  pub Logs-refl : (r : Replay Json) → Logs 0 r r
  unfolding requests
  Logs-refl r = record { added = []; events = sym (append-nil r.events); counted = refl }

  pub Logs-trans : (m n : ℕ) (a b c : Replay Json) → Logs m a b → Logs n b c → Logs (m + n) a c
  Logs-trans m n a b c p q = record {
    added = p.added ++ q.added;
    events = q.events ∙ ap (λ es. es ++ q.added) p.events ∙ append_assoc a.events p.added q.added;
    counted = omega (arith, requests-append p.added q.added, p.counted, q.counted);
  }

  -- What logs no request keeps the count.
  pub Logs-quiet : (n : ℕ) (a b c : Replay Json) → Logs n a b → Logs 0 b c → Logs n a c
  Logs-quiet n a b c p q =
      let both = Logs-trans n 0 a b c p q in
      record { added = both.added; events = both.events; counted = omega (arith, both.counted) }

  pub events-record_kind :
      (kind : EventKind) (payload : Json) (r : Replay Json)
      → (record_kind kind payload r).0.events
        ≡ r.events ++ record { kind = kind; sequence = succ64 r.last_seq; payload = payload } ∷ []
  unfolding record_kind record_event numbered
  events-record_kind kind payload r = refl

  pub record_kind-Logs :
      (kind : EventKind) (payload : Json) (r : Replay Json)
      → Logs (weight kind) r (record_kind kind payload r).0
  unfolding requests
  record_kind-Logs kind payload r = record {
    added = record { kind = kind; sequence = succ64 r.last_seq; payload = payload } ∷ [];
    events = events-record_kind kind payload r;
    counted = omega arith;
  }

module _ (f : Floats) (j : JsonLib) where
  pub look_up_from-Logs :
      (cache_tools : Bool) (i : ℕ) (cs : List ToolCall) (vs : List CallView) (s : Shared f j.Json)
      → Logs 0 s.replay (look_up_from f j cache_tools i cs vs s).shared.replay
  unfolding look_up_from note_hit note_miss weight
  look_up_from-Logs cache_tools i [] vs s = Logs-refl s.replay
  look_up_from-Logs cache_tools i (c ∷ cs) [] s = Logs-refl s.replay
  look_up_from-Logs cache_tools i (c ∷ cs) (v ∷ vs) s =
      let (cached, cache) = g.Cache.get (cache_key v) v.dependencies s.cache in
      let read = record s { cache = cache } in
      elim (Option-cases (usable cache_tools cached)) [
        | inl e ↦
            rw (look_up_from, e) (look_up_from-Logs cache_tools (suc i) cs vs (note_miss f read))
        | inr (value, e) ↦
            let hit = note_hit f j v read in
            rw (look_up_from, e)
              (Logs-trans 0 0 s.replay hit.replay
                (look_up_from f j cache_tools (suc i) cs vs hit).shared.replay
                (record_kind-Logs cache_hit _ s.replay)
                (look_up_from-Logs cache_tools (suc i) cs vs hit))
      ]

  pub settle-Logs :
      (cache_tools : Bool) (views : List CallView) (tier : Tier)
      (rs : List (ToolExecutionRecord j.Json)) (t : Turn f j.Json)
      → Logs 0 t.replay (settle f j cache_tools views tier rs t).replay
  unfolding settle settle_record weight
  settle-Logs cache_tools views tier [] t = Logs-refl t.replay
  settle-Logs cache_tools views tier (r ∷ rs) t =
      let u = settle_record f j cache_tools views tier r t in
      Logs-trans 0 0 t.replay u.replay (settle f j cache_tools views tier rs u).replay
        (record_kind-Logs tool_finished _ t.replay) (settle-Logs cache_tools views tier rs u)

  pub apply_side_effects-Logs :
      (tracked : Bool) (before : Snapshots) (tree : List File) (c : Cache j.Json)
      (r : Replay j.Json)
      → Logs 0 r (apply_side_effects j tracked before tree c r).1
  unfolding apply_side_effects weight
  apply_side_effects-Logs false before tree c r = Logs-refl r
  apply_side_effects-Logs true before tree c r = elim (List-cases (diff before tree)) [
    | inl e ↦ rw (apply_side_effects, e) (Logs-refl r)
    | inr (p, ps, e) ↦ rw (apply_side_effects, e) (record_kind-Logs working_set_rendered _ r)
  ]

  pub judge-Logs :
      {World : Type 0} (tier : Tier) (calls : List ToolCall) (a : Result (ModelResponse j.Json))
      (c : ModelCascade f) (r : Replay j.Json) (w : World)
      → Logs 0 r (judge f j tier calls a c r w).replay
  unfolding judge weight
  judge-Logs tier calls (fail e) c r w = Logs-refl r
  judge-Logs tier calls (ok a) c r w = elim (Bool-cases (is_override a.outcome.plan)) [
    | inl e ↦ rw (judge, e) (record_kind-Logs degraded _ r)
    | inr e ↦ rw (judge, e) (Logs-refl r)
  ]
