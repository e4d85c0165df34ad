-- ===== src/Graph/Components.antt =====
-- core/dependency_graph: `weakly_connected_components`, a breadth-first search from every call that
-- no earlier search has visited. Each round of the inner loop takes one call off the queue, and a
-- call is queued only once, so as many rounds as there are calls suffice.
pub mod Sweep
pub mod Search
pub mod Partition
use g.Base.{
  ℕ, zero, suc, Bool, true, false, not, ◌&&◌, List, [], ◌∷◌, ◌++◌, length, get_or, set, replicate,
  ltb, ◌==◌, if◌then◌else◌, sort,
}
use g.Graph.{DependencyGraph, has_conflict}

-- The variables of one search.
pub record Walk : Type 0 where
  pub visited : List Bool
  pub queue : List ℕ
  pub comp : List ℕ

-- What the loop over `seed` keeps.
pub record Seeded : Type 0 where
  pub visited : List Bool
  pub components : List (List ℕ)

abbrev pub seen : List Bool → ℕ → Bool
seen visited i = get_or visited i false

module _ (conflict : ℕ → ℕ → Bool) where
  -- the body of the loop over `i`
  unfoldable pub meet : ℕ → Walk → ℕ → Walk
  meet v s i =
      if not (seen s.visited i) && conflict v i
      then record s { visited = set s.visited i true; queue = s.queue ++ i ∷ [] }
      else s

  -- `for (i = i; i < i + left; ++i)`
  unfoldable pub sweep : ℕ → ℕ → ℕ → Walk → Walk
  unfolding meet
  sweep v zero i s = s
  sweep v (suc left) i s = sweep v left (suc i) (meet v s i)

  -- one round of `while (!q.empty())`, with `v` popped
  unfoldable pub round : ℕ → ℕ → List ℕ → Walk → Walk
  unfolding sweep
  round n v rest s = sweep v n 0 (record s { queue = rest; comp = s.comp ++ v ∷ [] })

  unfoldable pub empty_queue : ℕ → ℕ → Walk → Walk
  unfolding round
  empty_queue n zero s = s
  empty_queue n (suc fuel) s = elim s.queue [
    | [] ↦ s
    | v ∷ rest ↦ empty_queue n fuel (round n v rest s)
  ]

  -- the body of the loop over `seed`
  unfoldable pub try_seed : ℕ → Seeded → ℕ → Seeded
  unfolding empty_queue
  try_seed n f seed =
      if seen f.visited seed
      then f
      else let s =
          empty_queue n n
            (record { visited = set f.visited seed true; queue = seed ∷ []; comp = [] }) in
        record { visited = s.visited; components = f.components ++ sort s.comp ∷ [] }

  unfoldable pub try_seeds : ℕ → ℕ → ℕ → Seeded → Seeded
  unfolding try_seed
  try_seeds n zero seed f = f
  try_seeds n (suc left) seed f = try_seeds n left (suc seed) (try_seed n f seed)

-- `operator<` of vectors
unfoldable pub list_lt : List ℕ → List ℕ → Bool
list_lt xs [] = false
list_lt [] (y ∷ ys) = true
list_lt (x ∷ xs) (y ∷ ys) = if ltb x y then true else if x == y then list_lt xs ys else false

unfoldable pub insert_list : List ℕ → List (List ℕ) → List (List ℕ)
unfolding list_lt
insert_list c [] = c ∷ []
insert_list c (d ∷ ds) = if list_lt d c then d ∷ insert_list c ds else c ∷ d ∷ ds

-- `std::sort` on vectors
unfoldable pub sort_lists : List (List ℕ) → List (List ℕ)
unfolding insert_list
sort_lists [] = []
sort_lists (c ∷ cs) = insert_list c (sort_lists cs)

unfoldable pub weakly_connected_components : DependencyGraph → List (List ℕ)
unfolding try_seeds sort_lists
weakly_connected_components d =
    let n = length d.calls in
    let nothing_found : Seeded = record { visited = replicate n false; components = [] } in
    sort_lists (try_seeds (has_conflict d) n n 0 nothing_found).components
