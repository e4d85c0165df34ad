-- ===== src/Graph.antt =====
-- core/dependency_graph: which tool calls of one turn touch a common resource, and the groups of
-- calls that may run at once. `none` in `assignment` is the source's `SIZE_MAX`, "not placed yet".
pub mod Components
pub mod FirstFit
pub mod Rounds
pub mod Schedule
use g.Base.{
  ℕ, zero, suc, ◌+◌, Bool, true, false, ◌||◌, List, [], ◌∷◌, ◌++◌, map, Option, none, some, Str,
  str_eq, Map, lookup, insert, length, get_or, set, replicate, leb, ◌==◌, if◌then◌else◌, sort,
}
use g.Types.{ToolCall}

pub record DependencyGraph : Type 0 where
  pub calls : List ToolCall
  pub resources : List (List Str)
  pub resource_owners : Map (List ℕ)

abbrev pub empty_graph : DependencyGraph
empty_graph = record { calls = []; resources = []; resource_owners = [] }

-- `resource_owners_[r].push_back(index)`
own : ℕ → Str → Map (List ℕ) → Map (List ℕ)
own index r owners = elim (lookup r owners) [
  | none ↦ insert r (index ∷ []) owners
  | some held ↦ insert r (held ++ index ∷ []) owners
]

own_all : ℕ → List Str → Map (List ℕ) → Map (List ℕ)
unfolding own
own_all index [] owners = owners
own_all index (r ∷ rs) owners = own_all index rs (own index r owners)

unfoldable pub add_call : DependencyGraph → ToolCall → List Str → DependencyGraph
unfolding own_all
add_call d call rs = record {
  calls = d.calls ++ call ∷ [];
  resources = d.resources ++ rs ∷ [];
  resource_owners = own_all (length d.calls) rs d.resource_owners;
}

-- The two nested loops of `has_conflict`.
unfoldable pub holds : Str → List Str → Bool
holds r [] = false
holds r (r2 ∷ rest) = if str_eq r r2 then true else holds r rest

unfoldable pub shares : List Str → List Str → Bool
unfolding holds
shares [] bs = false
shares (r ∷ rs) bs = if holds r bs then true else shares rs bs

unfoldable pub has_conflict : DependencyGraph → ℕ → ℕ → Bool
unfolding shares
has_conflict d a b =
    if a == b || (leb (length d.calls) a || leb (length d.calls) b)
    then false
    else shares (get_or d.resources a []) (get_or d.resources b [])

-- The variables of `schedule`.
pub record Plan : Type 0 where
  pub assignment : List (Option ℕ)
  pub groups : List (List ℕ)
  pub next_group : ℕ
  pub progress : Bool

module _ (conflict : ℕ → ℕ → Bool) where
  -- the loop over `groups[g]`: no member conflicts with `i`
  unfoldable pub fits : ℕ → List ℕ → Bool
  fits i [] = true
  fits i (j ∷ js) = if conflict i j then false else fits i js

  -- the loop over `g`, with `left` groups still to try
  find_group : ℕ → List (List ℕ) → ℕ → ℕ → Option ℕ
  find_group i groups zero g = none
  find_group i groups (suc left) g =
      if fits i (get_or groups g []) then some g else find_group i groups left (suc g)

  -- a call that is not placed yet goes to the first group that it fits, or to a new one
  place : Plan → ℕ → Plan
  place s i = elim (find_group i s.groups s.next_group 0) [
    | some g ↦ record s {
      assignment = set s.assignment i (some g);
      groups = set s.groups g (get_or s.groups g [] ++ i ∷ []);
    }
    | none ↦ record {
      assignment = set s.assignment i (some s.next_group);
      groups = s.groups ++ (i ∷ []) ∷ [];
      next_group = suc s.next_group;
      progress = true;
    }
  ]

  -- the body of the loop over `i`
  visit : Plan → ℕ → Plan
  visit s i = elim (get_or s.assignment i none) [ some g ↦ s | none ↦ place s i ]

  -- `for (i = i; i < i + left; ++i)`
  pass : ℕ → ℕ → Plan → Plan
  pass zero i s = s
  pass (suc left) i s = pass left (suc i) (visit s i)

  -- `while (progress)`, for at most `fuel` rounds over `n` calls
  pub rounds : ℕ → ℕ → Plan → Plan
  rounds zero n s = s
  rounds (suc fuel) n s = elim s.progress [
    | true ↦ rounds fuel n (pass n 0 (record s { progress = false }))
    | false ↦ s
  ]

abbrev pub blank_plan : ℕ → Plan
blank_plan n = record {
  assignment = replicate n none;
  groups = [];
  next_group = 0;
  progress = true;
}

-- The first round places every call and the second places none, so two rounds suffice.
pub plan_groups : (ℕ → ℕ → Bool) → ℕ → List (List ℕ)
unfolding rounds pass visit place find_group fits
plan_groups conflict n = map sort (rounds conflict 2 n (blank_plan n)).groups

unfoldable pub schedule : DependencyGraph → List (List ℕ)
schedule d = elim d.calls [ [] ↦ [] | _ ∷ _ ↦ plan_groups (has_conflict d) (length d.calls) ]
