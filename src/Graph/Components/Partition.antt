-- ===== src/Graph/Components/Partition.antt =====
-- The components part the calls of the graph.
use g.Base.{
  ℕ, zero, suc, ◌+◌, ◌≤◌, ◌<◌, ◌≡◌, refl, ap, subst, Bool, true, false, List, [], ◌∷◌, ◌++◌, All,
  All-append, count, count-append, append-nil, length, length-replicate, replicate, ltb, ltb→lt,
  if◌then◌else◌, Bool-cases, sort, count-sort, Increasing, Increasing-sort, arith, inl, inr,
}
use g.Graph.{DependencyGraph, has_conflict}
use g.Graph.FirstFit.{members}
use g.Graph.Schedule.{has_conflict_comm}
use g.Graph.Components.{
  Seeded, seen, empty_queue, try_seed, try_seeds, list_lt, insert_list, sort_lists,
  weakly_connected_components,
}
use g.Graph.Components.Sweep.{bit}
use g.Graph.Components.Search.{IsComponent, IsClosed, start_at, search-IsComponent}

count-members :
    (w : ℕ) (cs : List (List ℕ)) (c : List ℕ)
    → count w (members (cs ++ c ∷ [])) ≡ count w (members cs) + count w c
count-members w [] c = omega (arith, ap (count w) (append-nil c))
count-members w (d ∷ cs) c = omega (
  arith,
  count-append w d (members (cs ++ c ∷ [])),
  count-append w d (members cs),
  count-members w cs c,
)

-- Sorting the components moves none and loses none.
count-insert_list :
    (w : ℕ) (c : List ℕ) (cs : List (List ℕ))
    → count w (members (insert_list c cs)) ≡ count w c + count w (members cs)
unfolding insert_list
count-insert_list w c [] = count-append w c []
count-insert_list w c (d ∷ ds) = elim (Bool-cases (list_lt d c)) [
  | inl e ↦ rw e (
      omega (
        arith,
        count-append w d (members (insert_list c ds)),
        count-append w d (members ds),
        count-insert_list w c ds,
      ))
  | inr e ↦ rw e (count-append w c (d ++ members ds))
]

count-sort_lists :
    (w : ℕ) (cs : List (List ℕ)) → count w (members (sort_lists cs)) ≡ count w (members cs)
unfolding sort_lists
count-sort_lists w [] = refl
count-sort_lists w (c ∷ cs) = omega (
  arith,
  count-insert_list w c (sort_lists cs),
  count-sort_lists w cs,
  count-append w c (members cs),
)

All-insert_list {ℓ} :
    (P : List ℕ → Type ℓ) (c : List ℕ) (cs : List (List ℕ))
    → P c
    → All P cs
    → All P (insert_list c cs)
unfolding insert_list
All-insert_list P c [] p h = (p, tt)
All-insert_list P c (d ∷ ds) p h = elim (Bool-cases (list_lt d c)) [
  | inl e ↦ rw e (h.0, All-insert_list P c ds p h.1)
  | inr e ↦ rw e (p, h)
]

All-sort_lists {ℓ} : (P : List ℕ → Type ℓ) (cs : List (List ℕ)) → All P cs → All P (sort_lists cs)
unfolding sort_lists
All-sort_lists P [] h = tt
All-sort_lists P (c ∷ cs) h = All-insert_list P c (sort_lists cs) h.0 (All-sort_lists P cs h.1)

-- A component in ascending order.
abbrev pub IsListed : (ℕ → ℕ → Bool) → List ℕ → Type 0
IsListed conflict c = IsComponent conflict c × Increasing 0 c

sort-IsListed :
    (conflict : ℕ → ℕ → Bool) (c : List ℕ) → IsComponent conflict c → IsListed conflict (sort c)
sort-IsListed conflict c h = (
  record {
    closed = λ a b m e. ground (arith, count-sort a c, count-sort b c, h.closed a b);
    linked =
        λ a b p q. h.linked a b (omega (arith, count-sort a c)) (omega (arith, count-sort b c));
    nonempty = (h.nonempty.0, omega (arith, h.nonempty.1, count-sort h.nonempty.0 c));
  },
  Increasing-sort c,
)

-- After the seeds below `k`: what is visited is what the components hold.
record IsSeeded (conflict : ℕ → ℕ → Bool) (n k : ℕ) (f : Seeded) : Type 0 where
  size : length f.visited ≡ n
  tally : (w : ℕ) → bit (seen f.visited w) ≡ count w (members f.components)
  closed : IsClosed conflict f.visited
  listed : All (IsListed conflict) f.components
  passed : (w : ℕ) → w < k → seen f.visited w ≡ true

module _ (conflict : ℕ → ℕ → Bool) (conflict_comm : (a b : ℕ) → conflict a b ≡ conflict b a) (n : ℕ)
    (bounded : (a b : ℕ) → conflict a b ≡ true → b < n) where
  try_seed-IsSeeded :
      (k : ℕ) (f : Seeded)
      → k < n
      → IsSeeded conflict n k f
      → IsSeeded conflict n (suc k) (try_seed conflict n f k)
  unfolding try_seed
  try_seed-IsSeeded k f lt h = elim (Bool-cases (seen f.visited k)) [
    | inl e ↦ rw e (record {
      size = h.size;
      tally = h.tally;
      closed = h.closed;
      listed = h.listed;
      passed = λ w l. elim (Bool-cases (ltb w k)) [
        | inl q ↦ h.passed w (ltb→lt w k q)
        | inr q ↦ subst (λ x. seen f.visited x ≡ true) (ground arith) e
      ];
    })
    | inr e ↦
        let s = empty_queue conflict n n (start_at f.visited k) in
        let done =
          search-IsComponent conflict conflict_comm n bounded k f.visited h.size lt e h.closed in
        rw e (record {
          size = done.size;
          tally = λ w. omega (
            arith,
            done.tally w,
            h.tally w,
            count-members w f.components (sort s.comp),
            count-sort w s.comp,
          );
          closed = done.closed;
          listed =
              All-append (IsListed conflict) f.components (sort s.comp ∷ []) h.listed
                (sort-IsListed conflict s.comp done.component, tt);
          passed = λ w l. elim (Bool-cases (ltb w k)) [
            | inl q ↦ ground (arith, done.tally w, h.passed w (ltb→lt w k q))
            | inr q ↦ subst (λ x. seen s.visited x ≡ true) (ground arith) done.seeded
          ];
        })
  ]

  try_seeds-IsSeeded :
      (left k : ℕ) (f : Seeded)
      → k + left ≡ n
      → IsSeeded conflict n k f
      → IsSeeded conflict n n (try_seeds conflict n left k f)
  unfolding try_seeds
  try_seeds-IsSeeded zero k f e h = subst (λ m. IsSeeded conflict n m f) (omega (arith, e)) h
  try_seeds-IsSeeded (suc left) k f e h =
      try_seeds-IsSeeded left (suc k) (try_seed conflict n f k) (omega (arith, e))
        (try_seed-IsSeeded k f (omega (arith, e)) h)

seen-replicate : (n w : ℕ) → seen (replicate n false) w ≡ false
seen-replicate zero w = refl
seen-replicate (suc n) zero = refl
seen-replicate (suc n) (suc w) = seen-replicate n w

seen-beyond : (vs : List Bool) (w : ℕ) → length vs ≤ w → seen vs w ≡ false
seen-beyond [] w h = refl
seen-beyond (b ∷ vs) zero h = absurd (omega arith)
seen-beyond (b ∷ vs) (suc w) h = seen-beyond vs w (omega arith)

-- nothing found yet
abbrev nothing_found : ℕ → Seeded
nothing_found n = record { visited = replicate n false; components = [] }

nothing_found-IsSeeded : (conflict : ℕ → ℕ → Bool) (n : ℕ) → IsSeeded conflict n 0 (nothing_found n)
nothing_found-IsSeeded conflict n = record {
  size = length-replicate n false;
  tally = λ w. ap bit (seen-replicate n w);
  closed = record { keeps = λ a b m e. cc (seen-replicate n a) };
  listed = tt;
  passed = λ w l. absurd (omega arith);
}

has_conflict-bounded :
    (d : DependencyGraph) (a b : ℕ) → has_conflict d a b ≡ true → b < length d.calls
unfolding has_conflict
has_conflict-bounded d a b h = ground arith

-- The components of the conflict graph on the calls below `n`: each call is in one of them, once;
-- each holds whatever conflicts with a member, and links each two members; each is ascending.
pub record IsPartition (conflict : ℕ → ℕ → Bool) (n : ℕ) (cs : List (List ℕ)) : Type 0 where
  pub covers : (x : ℕ) → count x (members cs) ≡ (if ltb x n then 1 else 0)
  pub listed : All (IsListed conflict) cs

-- The result is the components of the conflict graph: each call of the batch is in exactly one of
-- them and nothing else is; a component is not empty and ascends, it holds with each member every
-- call that conflicts with it, and a chain of conflicts links each two of its members.
pub weakly_connected_components-IsPartition :
    (d : DependencyGraph)
    → IsPartition (has_conflict d) (length d.calls) (weakly_connected_components d)
unfolding weakly_connected_components
weakly_connected_components-IsPartition d =
    let n = length d.calls in
    let f = try_seeds (has_conflict d) n n 0 (nothing_found n) in
    let found =
      try_seeds-IsSeeded (has_conflict d) (has_conflict_comm d) n (has_conflict-bounded d) n 0
        (nothing_found n) (omega arith) (nothing_found-IsSeeded (has_conflict d) n) in
    record {
      covers = λ x. ground (
        arith,
        count-sort_lists x f.components,
        found.tally x,
        found.passed x,
        seen-beyond f.visited x,
        found.size,
      );
      listed = All-sort_lists (IsListed (has_conflict d)) f.components found.listed;
    }
