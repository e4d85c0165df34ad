-- ===== src/Orchestrator/Splicing.antt =====
-- Where the records of a turn go.
use g.Base.{
  ℕ, suc, ◌≤◌, ◌≡◌, refl, sym, ap, ◌∙◌, Bool, List, [], ◌∷◌, Option, none, some, length, set,
  get_elem?, replicate, arith, Option-cases, inl, inr, All, All-map,
}
use g.Json.{JsonLib}
use g.Floats.{Floats}
use g.Types.{ToolCall}
use g.Cache
use g.Cache.{Cache}
use g.Executor.{ToolExecutionRecord, blank_record}
use g.Orchestrator.{
  CallView, Shared, cache_key, look_up_from, note_hit, note_miss, usable, original_index,
  splice_executed, splice_hits, splice, find_ordinal, cached_record,
}

-- The ordinals increase strictly, from `n` on.
abbrev pub Ordered : ℕ → List ToolCall → Type 0
Ordered n [] = Unit
Ordered n (c ∷ cs) = (n ≤ c.ordinal) × Ordered (suc c.ordinal) cs

module _ {Json : Type 0} (null : Json) where
  -- The records in the order of the calls: a call that is decided from the cache takes its cached
  -- record, any other the next one executed, or a
  -- blank one if there is none.
  unfoldable pub weave :
      List ToolCall
      → List (Option Json)
      → List (ToolExecutionRecord Json)
      → List (ToolExecutionRecord Json)
  weave [] ds es = []
  weave (c ∷ cs) [] es = replicate (suc (length cs)) (blank_record null)
  weave (c ∷ cs) (some v ∷ ds) es = cached_record c v ∷ weave cs ds es
  weave (c ∷ cs) (none ∷ ds) [] = blank_record null ∷ weave cs ds []
  weave (c ∷ cs) (none ∷ ds) (e ∷ es) = e ∷ weave cs ds es

module _ {Json : Type 0} where
  -- the calls that no decision answers, and the hits with their indices
  unfoldable pub pending_of : List ToolCall → List (Option Json) → List ToolCall
  pending_of [] ds = []
  pending_of (c ∷ cs) [] = []
  pending_of (c ∷ cs) (some v ∷ ds) = pending_of cs ds
  pending_of (c ∷ cs) (none ∷ ds) = c ∷ pending_of cs ds

  unfoldable pub hits_of : ℕ → List ToolCall → List (Option Json) → List (ℕ × Json)
  hits_of i [] ds = []
  hits_of i (c ∷ cs) [] = []
  hits_of i (c ∷ cs) (some v ∷ ds) = (i, v) ∷ hits_of (suc i) cs ds
  hits_of i (c ∷ cs) (none ∷ ds) = hits_of (suc i) cs ds

-- Each of the calls is found in `cs`, and has an ordinal of at least `n`.
Found : ℕ → List ToolCall → ToolCall → Type 0
Found n cs p = (n ≤ p.ordinal) × ((i : ℕ) × (find_ordinal p.ordinal cs ≡ some i))

find_ordinal-suc :
    (c p : ToolCall) (cs : List ToolCall)
    → Found (suc c.ordinal) cs p
    → original_index p.ordinal (c ∷ cs) ≡ suc (original_index p.ordinal cs)
unfolding original_index find_ordinal Found
find_ordinal-suc c p cs (le, (i, e)) = ground (arith, e, le)

find_ordinal_self : (c : ToolCall) (cs : List ToolCall) → find_ordinal c.ordinal (c ∷ cs) ≡ some 0
unfolding find_ordinal
find_ordinal_self c cs = ground arith

original_index_self : (c : ToolCall) (cs : List ToolCall) → original_index c.ordinal (c ∷ cs) ≡ 0
unfolding original_index find_ordinal
original_index_self c cs = ground arith

Found-weaken :
    (n : ℕ) (c p : ToolCall) (cs : List ToolCall)
    → n ≤ c.ordinal
    → Found (suc c.ordinal) cs p
    → Found n (c ∷ cs) p
unfolding find_ordinal Found
Found-weaken n c p cs le (lt, (i, e)) = (omega arith, (suc i, ground (arith, e, lt)))

module _ {Json : Type 0} where
  pending-Found :
      (n : ℕ) (cs : List ToolCall) (ds : List (Option Json))
      → Ordered n cs
      → All (Found n cs) (pending_of cs ds)
  unfolding pending_of Found
  pending-Found n [] ds o = tt
  pending-Found n (c ∷ cs) [] o = tt
  pending-Found n (c ∷ cs) (some v ∷ ds) o =
      All-map (Found (suc c.ordinal) cs) (Found n (c ∷ cs)) (pending_of cs ds)
        (λ p h. Found-weaken n c p cs o.0 h) (pending-Found (suc c.ordinal) cs ds o.1)
  pending-Found n (c ∷ cs) (none ∷ ds) o = (
    (o.0, (0, find_ordinal_self c cs)),
    All-map (Found (suc c.ordinal) cs) (Found n (c ∷ cs)) (pending_of cs ds)
        (λ p h. Found-weaken n c p cs o.0 h) (pending-Found (suc c.ordinal) cs ds o.1),
  )

  -- Calls found after the first leave the first record alone.
  splice_executed-suc :
      (c : ToolCall) (cs ps : List ToolCall) (es : List (ToolExecutionRecord Json))
      (r : ToolExecutionRecord Json) (rs : List (ToolExecutionRecord Json))
      → All (Found (suc c.ordinal) cs) ps
      → splice_executed (c ∷ cs) ps es (r ∷ rs) ≡ r ∷ splice_executed cs ps es rs
  unfolding splice_executed
  splice_executed-suc c cs [] es r rs h = refl
  splice_executed-suc c cs (p ∷ ps) [] r rs h = refl
  splice_executed-suc c cs (p ∷ ps) (e ∷ es) r rs h =
      rw (find_ordinal-suc c p cs h.0)
        (splice_executed-suc c cs ps es r (set rs (original_index p.ordinal cs) e) h.1)

  -- Without executed records, the records stay as they are.
  splice_executed-nil :
      (cs ps : List ToolCall) (rs : List (ToolExecutionRecord Json))
      → splice_executed cs ps [] rs ≡ rs
  unfolding splice_executed
  splice_executed-nil cs [] rs = refl
  splice_executed-nil cs (p ∷ ps) rs = refl

  splice_hits-suc :
      (i : ℕ) (c : ToolCall) (cs : List ToolCall) (ds : List (Option Json)) (all : List ToolCall)
      (r : ToolExecutionRecord Json) (rs : List (ToolExecutionRecord Json))
      → splice_hits (c ∷ all) (hits_of (suc i) cs ds) (r ∷ rs)
        ≡ r ∷ splice_hits all (hits_of i cs ds) rs
  unfolding splice_hits hits_of
  splice_hits-suc i c [] ds all r rs = refl
  splice_hits-suc i c (d ∷ cs) [] all r rs = refl
  splice_hits-suc i c (d ∷ cs) (some v ∷ ds) all r rs = elim (Option-cases (get_elem? all i)) [
    | inl e ↦ rw (splice_hits, e) (splice_hits-suc (suc i) c cs ds all r rs)
    | inr (x, e) ↦
        rw (splice_hits, e) (splice_hits-suc (suc i) c cs ds all r (set rs i (cached_record x v)))
  ]
  splice_hits-suc i c (d ∷ cs) (none ∷ ds) all r rs = splice_hits-suc (suc i) c cs ds all r rs

-- The records of a turn stand in the order of the calls, if the calls have increasing ordinals: a
-- call that was decided from the cache has its cached record, and the others have the executed
-- records in the order in which these come, which need not be their own.
module _ {Json : Type 0} (null : Json) where
  pub splice-weave :
      (n : ℕ) (cs : List ToolCall) (ds : List (Option Json)) (es : List (ToolExecutionRecord Json))
      → Ordered n cs
      → splice null cs (pending_of cs ds) (hits_of 0 cs ds) es ≡ weave null cs ds es
  unfolding splice weave pending_of hits_of splice_executed splice_hits
  splice-weave n [] ds es o = refl
  splice-weave n (c ∷ cs) [] es o = refl
  splice-weave n (c ∷ cs) (some v ∷ ds) es o =
      let blanks = replicate (length cs) (blank_record null) in
      let ps = pending_of cs ds in
      ap (splice_hits (c ∷ cs) ((0, v) ∷ hits_of 1 cs ds)) (
        splice_executed-suc c cs ps es (blank_record null) blanks
          (pending-Found (suc c.ordinal) cs ds o.1))
      ∙ splice_hits-suc 0 c cs ds cs (cached_record c v) (splice_executed cs ps es blanks)
      ∙ ap (◌∷◌ (cached_record c v)) (splice-weave (suc c.ordinal) cs ds es o.1)
  splice-weave n (c ∷ cs) (none ∷ ds) [] o =
      let blanks = replicate (length cs) (blank_record null) in
      splice_hits-suc 0 c cs ds cs (blank_record null) blanks
      ∙ ap (◌∷◌ (blank_record null)) (
          ap (splice_hits cs (hits_of 0 cs ds))
            (sym (splice_executed-nil cs (pending_of cs ds) blanks))
          ∙ splice-weave (suc c.ordinal) cs ds [] o.1)
  splice-weave n (c ∷ cs) (none ∷ ds) (e ∷ es) o =
      let blanks = replicate (length cs) (blank_record null) in
      let ps = pending_of cs ds in
      ap
        (λ i.
          splice_hits (c ∷ cs) (hits_of 1 cs ds)
            (splice_executed (c ∷ cs) ps es (set (blank_record null ∷ blanks) i e)))
        (original_index_self c cs)
      ∙ ap (splice_hits (c ∷ cs) (hits_of 1 cs ds))
          (splice_executed-suc c cs ps es e blanks (pending-Found (suc c.ordinal) cs ds o.1))
      ∙ splice_hits-suc 0 c cs ds cs e (splice_executed cs ps es blanks)
      ∙ ap (◌∷◌ e) (splice-weave (suc c.ordinal) cs ds es o.1)

-- What the cache decides of each call, in turn: its value, or none where it has none to use.
module _ {Json : Type 0} (cache_tools : Bool) where
  unfoldable pub decisions : List CallView → Cache Json → List (Option Json)
  decisions [] c = []
  decisions (v ∷ vs) c =
      let (cached, c') = g.Cache.get (cache_key v) v.dependencies c in
      usable cache_tools cached ∷ decisions vs c'

module _ (f : Floats) (j : JsonLib) (cache_tools : Bool) where
  open j use {Json}

  -- The lookup splits the calls by the decisions of the cache.
  look_up-decisions :
      (i : ℕ) (cs : List ToolCall) (vs : List CallView) (s : Shared f Json)
      → let l = look_up_from f j cache_tools i cs vs s in
        let ds = decisions cache_tools vs s.cache in
        (l.pending ≡ pending_of cs ds) × (l.hits ≡ hits_of i cs ds)
  unfolding look_up_from decisions pending_of hits_of note_hit note_miss
  look_up-decisions i [] vs s = (refl, refl)
  look_up-decisions i (c ∷ cs) [] s = (refl, refl)
  look_up-decisions i (c ∷ cs) (v ∷ vs) s =
      let (cached, cache) = g.Cache.get (cache_key v) v.dependencies s.cache in
      let read = record s { cache = cache } in
      elim (Option-cases (usable cache_tools cached)) [
        | inl e ↦
            let rest = look_up-decisions (suc i) cs vs (note_miss f read) in
            rw (look_up_from, decisions, e) (ap (◌∷◌ c) rest.0, rest.1)
        | inr (value, e) ↦
            let rest = look_up-decisions (suc i) cs vs (note_hit f j v read) in
            rw (look_up_from, decisions, e) (rest.0, ap (◌∷◌ (i, value)) rest.1)
      ]

-- The records of a turn, from the cache lookup of the calls' views and the executed records: they
-- stand in the order of the calls, if the calls have increasing ordinals. A call that the cache
-- decides has its cached record, and the others have the executed records in the order in which
-- these come.
pub splice-look_up :
    (f : Floats) (j : JsonLib) (cache_tools : Bool) (null : j.Json) (cs : List ToolCall)
    (vs : List CallView) (s : Shared f j.Json) (es : List (ToolExecutionRecord j.Json))
    → Ordered 0 cs
    → let l = look_up_from f j cache_tools 0 cs vs s in
      splice null cs l.pending l.hits es ≡ weave null cs (decisions cache_tools vs s.cache) es
splice-look_up f j cache_tools null cs vs s es o =
    let split = look_up-decisions f j cache_tools 0 cs vs s in
    rw (split.0, split.1) (splice-weave null 0 cs (decisions cache_tools vs s.cache) es o)
