-- ===== src/Executor/Records.antt =====
-- Which records `execute` returns, and in which order.
use mathlib.Core.Option
use g.Base.{
  ℕ, suc, ◌+◌, ◌<◌, ◌^◌, ◌≡◌, refl, sym, ap, subst, ◌∙◌, Bool, true, false, List, [], ◌∷◌, ◌++◌,
  Option, some, count, length, length-append, get_elem?, range_from, length-range_from,
  count-range_from, count-append, ltb, ◌==◌, ==_iff, if◌then◌else◌, arith, inl, inr, Bool-cases,
  Option-cases, succ64, succ64-eq,
}
use g.Types.{ToolCall}
use g.Tools.{Registry}
use g.Graph.{DependencyGraph, has_conflict, empty_graph, add_call, schedule}
use g.Graph.FirstFit.{members, length-fill}
use g.Graph.Schedule.{schedule-covers, schedule-fill}
use g.Executor.{
  ToolExecutor, ToolExecutionRecord, blank_record, invoke_one, resources_of, build_graph, groups_of,
  run_workers, result_of, collect, count_records, work, run_groups, execute,
}

-- The two lists are equally long, and `P` holds of each pair.
abbrev pub Matches : {Rec : Type 0} → (ℕ → Rec → Type 0) → List ℕ → List Rec → Type 0
Matches P [] [] = Unit
Matches P [] (r ∷ rs) = ⊥
Matches P (i ∷ is) [] = ⊥
Matches P (i ∷ is) (r ∷ rs) = P i r × Matches P is rs

collect-found :
    {Rec : Type 0} (i : ℕ) (r : Rec) (is : List ℕ) (done : List (ℕ × Rec))
    → result_of i done ≡ some r
    → collect done (i ∷ is) ≡ r ∷ collect done is
unfolding collect
collect-found i r is done e = ground (arith, e)

module _ {Rec : Type 0} (P : ℕ → Rec → Type 0) where
  pub Matches-append :
      (is js : List ℕ) (rs ss : List Rec)
      → Matches P is rs
      → Matches P js ss
      → Matches P (is ++ js) (rs ++ ss)
  Matches-append [] js [] ss p q = q
  Matches-append [] js (r ∷ rs) ss p q = absurd p
  Matches-append (i ∷ is) js [] ss p q = absurd p
  Matches-append (i ∷ is) js (r ∷ rs) ss p q = (p.0, Matches-append is js rs ss p.1 q)

  module _ {World : Type 0} (task : ℕ → World → Rec × World)
      (keeps : (i : ℕ) (w : World) → P i (task i w).0) where
    result_of-run_workers :
        (i : ℕ) (is : List ℕ) (w : World)
        → 0 < count i is
        → (r : Rec) × (result_of i (run_workers task is w).0 ≡ some r) × P i r
    unfolding run_workers result_of
    result_of-run_workers i [] w h = absurd (omega arith)
    result_of-run_workers i (j ∷ is) w h = elim (Bool-cases (j == i)) [
      | inl same ↦ (
        (task j w).0,
        rw same refl,
        subst (λ k. P k (task j w).0) ((==_iff j i).0 same) (keeps j w),
      )
      | inr other ↦
          let (r, e, p) = result_of-run_workers i is (task j w).1 (ground arith) in
          (r, rw other e, p)
    ]

    collect-Matches :
        (group : List ℕ) (done : List (ℕ × Rec))
        → ((i : ℕ) → 0 < count i group → (r : Rec) × (result_of i done ≡ some r) × P i r)
        → Matches P group (collect done group)
    unfolding collect
    collect-Matches [] done h = tt
    collect-Matches (i ∷ is) done h =
        let (r, e, p) = h i (ground arith) in
        subst (Matches P (i ∷ is)) (sym (collect-found i r is done e))
          (p, collect-Matches is done (λ j m. h j (omega (arith, m))))

-- The record of call `i`: it names that call, and did not come from the cache.
pub record IsRecordOf {Json : Type 0} (calls : List ToolCall) (i : ℕ) (r : ToolExecutionRecord Json)
    : Type 0 where
  pub names :
      (c : ToolCall)
      → get_elem? calls i ≡ some c
      → (r.ordinal ≡ c.ordinal) × (r.tool_name ≡ c.name) × (r.arguments ≡ c.arguments)
  pub fresh : r.from_cache ≡ false

-- `order` may be any interleaving: it runs the members of a group, each as often.
pub record IsInterleaving (order : List ℕ → List ℕ) : Type 0 where
  pub same : (group : List ℕ) (i : ℕ) → count i (order group) ≡ count i group

module _ {Json Ctx World : Type 0} (null : Json) (fork : Ctx → Ctx)
    (registry : Registry Json Ctx World) where
  invoke_one-names :
      (call : ToolCall) (ctx : Option Ctx) (w : World)
      → let r = (invoke_one null registry call ctx w).0 in
        (r.ordinal ≡ call.ordinal)
        × (r.tool_name ≡ call.name)
        × (r.arguments ≡ call.arguments)
        × (r.from_cache ≡ false)
  unfolding invoke_one
  invoke_one-names call ctx w = ground arith

  work-IsRecordOf :
      (calls : List ToolCall) (ctx : Option Ctx) (i : ℕ) (w : World)
      → IsRecordOf calls i (work null fork registry calls ctx i w).0
  unfolding work blank_record
  work-IsRecordOf calls ctx i w = elim (Option-cases (get_elem? calls i)) [
    | inl e ↦ record { names = λ c found. cc (e, found); fresh = ground (arith, e) }
    | inr (c, e) ↦ record {
      names = λ c' found. ground (arith, e, found, invoke_one-names c (Option.map fork ctx) w);
      fresh = ground (arith, e, invoke_one-names c (Option.map fork ctx) w);
    }
  ]

  module _ (order : List ℕ → List ℕ) (mixing : IsInterleaving order) (calls : List ToolCall)
      (ctx : Option Ctx) where
    run_groups-Matches :
        (groups : List (List ℕ)) (e : ToolExecutor) (w : World)
        → Matches
            (IsRecordOf calls)
            (members groups)
            (run_groups order (work null fork registry calls ctx) groups e w).out
    unfolding run_groups
    run_groups-Matches [] e w = tt
    run_groups-Matches (group ∷ groups) e w =
        Matches-append (IsRecordOf calls) group (members groups) _ _
          (collect-Matches (IsRecordOf calls) (work null fork registry calls ctx)
            (work-IsRecordOf calls ctx) group _
            (λ i m.
              result_of-run_workers (IsRecordOf calls) (work null fork registry calls ctx)
                (work-IsRecordOf calls ctx) i (order group) w
                (omega (arith, m, mixing.same group i))))
          (run_groups-Matches groups _ _)

module _ {Json Ctx World : Type 0} (registry : Registry Json Ctx World) where
  length-build_graph :
      (cs : List ToolCall) (d : DependencyGraph)
      → length (build_graph registry cs d).calls ≡ length d.calls + length cs
  unfolding build_graph add_call
  length-build_graph [] d = omega arith
  length-build_graph (c ∷ cs) d = omega (
    arith,
    length-build_graph cs (add_call d c (resources_of registry c)),
    length-append d.calls (c ∷ []),
  )

  length-schedule :
      (calls : List ToolCall)
      → length (members (schedule (build_graph registry calls empty_graph))) ≡ length calls
  length-schedule calls =
      let graph = build_graph registry calls empty_graph in
      omega (
        arith,
        ap (λ gs. length (members gs)) (schedule-fill graph),
        length-fill (has_conflict graph) (length graph.calls) 0 [],
        length-build_graph calls empty_graph,
      )

  -- Run in parallel or not, each call stands in the groups exactly once.
  pub count-groups_of :
      (parallel : Bool) (calls : List ToolCall) (x : ℕ)
      → count x (members (groups_of registry parallel calls))
        ≡ (if ltb x (length calls) then 1 else 0)
  unfolding groups_of
  count-groups_of parallel calls x =
      let graph = build_graph registry calls empty_graph in
      ground (
        arith,
        schedule-covers graph x,
        length-build_graph calls empty_graph,
        count-range_from x 0 (length calls),
        count-append x (range_from 0 (length calls)) [],
      )

  length-groups_of :
      (parallel : Bool) (calls : List ToolCall)
      → length (members (groups_of registry parallel calls)) ≡ length calls
  unfolding groups_of
  length-groups_of parallel calls = ground (
    arith,
    length-schedule calls,
    length-range_from 0 (length calls),
    length-append (range_from 0 (length calls)) [],
  )

  groups_of_nothing : (parallel : Bool) → members (groups_of registry parallel []) ≡ []
  unfolding groups_of build_graph schedule
  groups_of_nothing true = refl
  groups_of_nothing false = refl

module _ {Json Ctx World : Type 0} (null : Json) (fork : Ctx → Ctx)
    (registry : Registry Json Ctx World) where
  -- Under any interleaving of the workers, `execute` returns one record for each index of its
  -- groups, in the groups' order, and the record names the call of that index.
  pub execute-Matches :
      (order : List ℕ → List ℕ) (e : ToolExecutor) (calls : List ToolCall) (ctx : Option Ctx)
      (w : World)
      → IsInterleaving order
      → Matches
          (IsRecordOf calls)
          (members (groups_of registry e.parallel_safe calls))
          (execute null fork registry order e calls ctx w).out
  unfolding execute
  execute-Matches order e [] ctx w mixing =
      subst (λ is. Matches (IsRecordOf {Json = Json} []) is [])
        (sym (groups_of_nothing registry e.parallel_safe)) tt
  execute-Matches order e (c ∷ cs) ctx w mixing =
      run_groups-Matches null fork registry order mixing (c ∷ cs) ctx
        (groups_of registry e.parallel_safe (c ∷ cs)) e w

-- The number of records that are not ok.
pub failing : {Json : Type 0} → List (ToolExecutionRecord Json) → ℕ
failing [] = 0
failing (r ∷ rs) = (if r.result.ok then 0 else 1) + failing rs

count_records-append :
    {Json : Type 0} (rs ss : List (ToolExecutionRecord Json)) (e : ToolExecutor)
    → count_records (rs ++ ss) e ≡ count_records ss (count_records rs e)
unfolding count_records
count_records-append [] ss e = refl
count_records-append (r ∷ rs) ss e = count_records-append rs ss _

count_records-sum :
    {Json : Type 0} (rs : List (ToolExecutionRecord Json)) (e : ToolExecutor)
    → e.invocations + length rs < 2 ^ 64
    → e.failures + length rs < 2 ^ 64
    → ((count_records rs e).invocations ≡ e.invocations + length rs)
      × ((count_records rs e).failures ≡ e.failures + failing rs)
unfolding count_records failing
count_records-sum [] e p q = (omega arith, omega arith)
count_records-sum (r ∷ rs) e p q = ground (
  arith,
  count_records-sum rs (record e {
    invocations = succ64 e.invocations;
    failures = if r.result.ok then e.failures else succ64 e.failures;
  }),
  succ64-eq e.invocations,
  succ64-eq e.failures,
)

run_groups-counts :
    {Json World : Type 0} (order : List ℕ → List ℕ)
    (task : ℕ → World → ToolExecutionRecord Json × World) (groups : List (List ℕ))
    (e : ToolExecutor) (w : World)
    → let x = run_groups order task groups e w in x.executor ≡ count_records x.out e
unfolding run_groups
run_groups-counts order task [] e w = unfold count_records in refl
run_groups-counts order task (group ∷ groups) e w =
    let (done, w1) = run_workers task (order group) w in
    let records = collect done group in
    run_groups-counts order task groups (count_records records e) w1
    ∙ sym (count_records-append records _ e)

Matches-length :
    {Rec : Type 0} (P : ℕ → Rec → Type 0) (is : List ℕ) (rs : List Rec)
    → Matches P is rs
    → length rs ≡ length is
Matches-length P [] [] m = refl
Matches-length P [] (r ∷ rs) m = absurd m
Matches-length P (i ∷ is) [] m = absurd m
Matches-length P (i ∷ is) (r ∷ rs) m = ap suc (Matches-length P is rs m.1)

module _ {Json Ctx World : Type 0} (null : Json) (fork : Ctx → Ctx)
    (registry : Registry Json Ctx World) where
  execute-executor :
      (order : List ℕ → List ℕ) (e : ToolExecutor) (calls : List ToolCall) (ctx : Option Ctx)
      (w : World)
      → let x = execute null fork registry order e calls ctx w in x.executor ≡ count_records x.out e
  unfolding execute
  execute-executor order e [] ctx w = unfold count_records in refl
  execute-executor order e (c ∷ cs) ctx w = run_groups-counts order _ _ e w

  length-execute :
      (order : List ℕ → List ℕ) (e : ToolExecutor) (calls : List ToolCall) (ctx : Option Ctx)
      (w : World)
      → IsInterleaving order
      → length (execute null fork registry order e calls ctx w).out ≡ length calls
  length-execute order e calls ctx w mixing =
      Matches-length (IsRecordOf calls) _ _
        (execute-Matches null fork registry order e calls ctx w mixing)
      ∙ length-groups_of registry e.parallel_safe calls

  -- Without overflow, `execute` adds the number of calls to `invocations` and the number of failed
  -- records to `failures`.
  pub execute-counts :
      (order : List ℕ → List ℕ) (e : ToolExecutor) (calls : List ToolCall) (ctx : Option Ctx)
      (w : World)
      → IsInterleaving order
      → e.invocations + length calls < 2 ^ 64
      → e.failures + length calls < 2 ^ 64
      → let x = execute null fork registry order e calls ctx w in
        (x.executor.invocations ≡ e.invocations + length calls)
        × (x.executor.failures ≡ e.failures + failing x.out)
  execute-counts order e calls ctx w mixing p q =
      let x = execute null fork registry order e calls ctx w in
      let len = length-execute order e calls ctx w mixing in
      let all = execute-executor order e calls ctx w in
      let sums = count_records-sum x.out e (omega arith) (omega arith) in
      (
        ap (λ (s : ToolExecutor). s.invocations) all ∙ sums.0 ∙ omega arith,
        ap (λ (s : ToolExecutor). s.failures) all ∙ sums.1,
      )
