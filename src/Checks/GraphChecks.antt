-- ===== src/Checks/GraphChecks.antt =====
-- The groups of small sets of calls.
use g.Base.{
  ℕ, ◌<◌, ◌≡◌, ◌≢◌, refl, ap, true, false, [], ◌∷◌, txt, str_eq, lookup, insert, arith, count,
  get_or, sort,
}
use g.Types.{ToolCall}
use g.Graph.{DependencyGraph, empty_graph, add_call, fits, has_conflict, schedule}
use g.Graph.Components.{weakly_connected_components}
use g.Graph.Components.Partition.{IsPartition, weakly_connected_components-IsPartition}
use g.Graph.FirstFit.{first_fit, fill, members}
use g.Graph.Schedule.{
  schedule-fill, schedule-covers, schedule-independent, schedule-order, schedule_reorders,
}

abbrev call : ℕ → ToolCall
call n = record { name = txt "read_file"; arguments = txt "{}"; ordinal = n }

-- Call 1 touches what both its neighbours touch.
abbrev chain : DependencyGraph
chain = record {
  calls = call 0 ∷ call 1 ∷ call 2 ∷ [];
  resources = (txt "a" ∷ []) ∷ (txt "a" ∷ txt "b" ∷ []) ∷ (txt "b" ∷ []) ∷ [];
  resource_owners = (txt "a", 0 ∷ 1 ∷ []) ∷ (txt "b", 1 ∷ 2 ∷ []) ∷ [];
}

chain_built :
    add_call
      (add_call (add_call empty_graph (call 0) (txt "a" ∷ [])) (call 1) (txt "a" ∷ txt "b" ∷ []))
      (call 2)
      (txt "b" ∷ [])
    ≡ chain
unfolding add_call lookup insert str_eq
chain_built = refl

-- Two calls on one path.
abbrev pair : DependencyGraph
pair = record {
  calls = call 0 ∷ call 1 ∷ [];
  resources = (txt "a" ∷ []) ∷ (txt "a" ∷ []) ∷ [];
  resource_owners = (txt "a", 0 ∷ 1 ∷ []) ∷ [];
}

chain_groups : schedule chain ≡ (0 ∷ 2 ∷ []) ∷ (1 ∷ []) ∷ []
unfolding has_conflict str_eq
chain_groups = schedule_reorders chain refl refl refl refl

pair_groups : schedule pair ≡ (0 ∷ []) ∷ (1 ∷ []) ∷ []
unfolding fill first_fit fits has_conflict str_eq
pair_groups = schedule-fill pair

schedule-fill_example : schedule chain ≡ fill (has_conflict chain) 3 0 []
schedule-fill_example = schedule-fill chain

schedule-covers_example : count 2 (members (schedule chain)) ≡ 1
schedule-covers_example = schedule-covers chain 2

chain_group : (i : ℕ) → get_or (schedule chain) i [] ≡ get_or ((0 ∷ 2 ∷ []) ∷ (1 ∷ []) ∷ []) i []
chain_group i = ap (λ gs. get_or gs i []) chain_groups

schedule-independent_example : has_conflict chain 0 2 ≡ false
schedule-independent_example =
    schedule-independent chain 0 0 2 (omega (arith, ap (count 0) (chain_group 0)))
      (omega (arith, ap (count 2) (chain_group 0))) (omega arith)

pair-transitive :
    (x y z : ℕ)
    → x ≢ z
    → has_conflict pair x y ≡ true
    → has_conflict pair y z ≡ true
    → has_conflict pair x z ≡ true
unfolding has_conflict
pair-transitive x y z ne p q = ground arith

schedule-order_example : 0 < 1
schedule-order_example =
    schedule-order pair 0 1 0 1 pair-transitive (omega arith) (unfold has_conflict str_eq in refl)
      (omega (arith, ap (λ gs. count 0 (get_or gs 0 [])) pair_groups))
      (omega (arith, ap (λ gs. count 1 (get_or gs 1 [])) pair_groups))

-- All three calls of the chain hang together, a fourth one stands alone.
abbrev chain_and_one : DependencyGraph
chain_and_one = record {
  calls = call 0 ∷ call 1 ∷ call 2 ∷ call 3 ∷ [];
  resources = (txt "a" ∷ []) ∷ (txt "c" ∷ []) ∷ (txt "b" ∷ txt "a" ∷ []) ∷ (txt "b" ∷ []) ∷ [];
  resource_owners = (txt "a", 0 ∷ 2 ∷ []) ∷ (txt "c", 1 ∷ []) ∷ (txt "b", 2 ∷ 3 ∷ []) ∷ [];
}

chain_components : weakly_connected_components chain_and_one ≡ (0 ∷ 2 ∷ 3 ∷ []) ∷ (1 ∷ []) ∷ []
unfolding weakly_connected_components has_conflict str_eq sort
chain_components = refl

weakly_connected_components-IsPartition_example :
    IsPartition (has_conflict chain_and_one) 4 (weakly_connected_components chain_and_one)
weakly_connected_components-IsPartition_example =
    weakly_connected_components-IsPartition chain_and_one
