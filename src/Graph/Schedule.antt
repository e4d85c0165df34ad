-- ===== src/Graph/Schedule.antt =====
-- What `schedule` guarantees to the executor.
use g.Base.{
  ℕ, zero, suc, ◌<◌, ◌≡◌, ◌≢◌, refl, sym, ap, ◌∙◌, Bool, true, false, List, [], ◌∷◌, map, Str,
  str_eq_iff, count, All, get_or, length, ltb, ltb→lt, ==_iff, Bool-cases, ◌==◌, if◌then◌else◌,
  arith, inl, inr, Increasing, sort, sort-Increasing, List-cases,
}
use g.Graph.{DependencyGraph, fits, holds, shares, has_conflict, plan_groups, schedule}
use g.Graph.FirstFit.{
  members, first_fit, fill, count-fill, IsIndependent, fill-IsIndependent, IsBelow, fill-IsLayered,
  fill-Increasing, blocker,
}
use g.Graph.Rounds.{rounds-fill}

shares-cons :
    (rs : List Str) (b : Str) (bs : List Str)
    → shares rs (b ∷ bs) ≡ (if holds b rs then true else shares rs bs)
unfolding shares holds
shares-cons [] b bs = refl
shares-cons (r ∷ rs) b bs = ground (arith, shares-cons rs b bs, str_eq_iff r b, str_eq_iff b r)

shares-nil : (rs : List Str) → shares rs [] ≡ false
unfolding shares holds
shares-nil [] = refl
shares-nil (r ∷ rs) = ground (arith, shares-nil rs)

shares_comm : (rs bs : List Str) → shares rs bs ≡ shares bs rs
unfolding shares
shares_comm [] bs = sym (shares-nil bs)
shares_comm (r ∷ rs) bs = ground (arith, shares-cons bs r rs, shares_comm rs bs)

pub has_conflict_comm : (d : DependencyGraph) (a b : ℕ) → has_conflict d a b ≡ has_conflict d b a
unfolding has_conflict
has_conflict_comm d a b =
    ground (arith, shares_comm (get_or d.resources a []) (get_or d.resources b []))

none-IsBelow : IsBelow 0 []
none-IsBelow = record { below = λ i h. absurd (omega arith) }

map-sort : (gs : List (List ℕ)) → All (Increasing 0) gs → map sort gs ≡ gs
map-sort [] v = refl
map-sort (h ∷ gs) v = ground (arith, sort-Increasing 0 h v.0, map-sort gs v.1)

-- The rounds compute first fit, and the sorting changes nothing.
plan_groups-fill : (conflict : ℕ → ℕ → Bool) (n : ℕ) → plan_groups conflict n ≡ fill conflict n 0 []
unfolding plan_groups
plan_groups-fill conflict n =
    ap (map sort) (rounds-fill conflict n 0).0
    ∙ map-sort (fill conflict n 0 []) (fill-Increasing conflict n 0 [] none-IsBelow tt)

fill_nothing : (conflict : ℕ → ℕ → Bool) → fill conflict 0 0 [] ≡ []
unfolding fill
fill_nothing conflict = refl

-- The groups of `schedule`, which come from index loops over `assignment` and `groups`, are those
-- of first fit: each call in turn joins the first group with no member that conflicts with it.
pub schedule-fill : (d : DependencyGraph) → schedule d ≡ fill (has_conflict d) (length d.calls) 0 []
unfolding schedule
schedule-fill d = ground (
  arith,
  plan_groups-fill (has_conflict d) (length d.calls),
  fill_nothing (has_conflict d),
  List-cases d.calls,
)

-- Every call of the graph is in the groups exactly once, and nothing else is.
pub schedule-covers :
    (d : DependencyGraph) (x : ℕ)
    → count x (members (schedule d)) ≡ (if ltb x (length d.calls) then 1 else 0)
schedule-covers d x =
    rw schedule-fill (ground (arith, count-fill (has_conflict d) x (length d.calls) 0 []))

independent_at :
    (conflict : ℕ → ℕ → Bool) (k a b : ℕ) (gs : List (List ℕ))
    → All (IsIndependent conflict) gs
    → 0 < count a (get_or gs k [])
    → 0 < count b (get_or gs k [])
    → a ≢ b
    → conflict a b ≡ false
independent_at conflict k a b [] v p q ne = absurd (omega arith)
independent_at conflict zero a b (h ∷ gs) v p q ne = v.0.apart a b p q ne
independent_at conflict (suc k) a b (h ∷ gs) v p q ne = independent_at conflict k a b gs v.1 p q ne

-- Two different calls of one group, which the executor runs at once, do not conflict.
pub schedule-independent :
    (d : DependencyGraph) (k a b : ℕ)
    → 0 < count a (get_or (schedule d) k [])
    → 0 < count b (get_or (schedule d) k [])
    → a ≢ b
    → has_conflict d a b ≡ false
schedule-independent d k a b p q ne =
    independent_at (has_conflict d) k a b (fill (has_conflict d) (length d.calls) 0 [])
      (fill-IsIndependent (has_conflict d) (has_conflict_comm d) (length d.calls) 0 [] tt)
      (rw schedule-fill at p) (rw schedule-fill at q) ne

-- A call of group `b` conflicts with an earlier call of every group `a` before it: no call could
-- have run in an earlier group.
pub schedule-eager :
    (d : DependencyGraph) (a b i : ℕ)
    → a < b
    → 0 < count i (get_or (schedule d) b [])
    → (j : ℕ) × (0 < count j (get_or (schedule d) a [])) × (j < i) × (has_conflict d i j ≡ true)
schedule-eager d a b i lt h = rw schedule-fill (
    blocker (has_conflict d) (fill (has_conflict d) (length d.calls) 0 []) a b i
      (fill-IsLayered (has_conflict d) (length d.calls) 0 [] none-IsBelow tt) lt
      (rw schedule-fill at h))

-- Where conflicts are transitive, as they are when every call has the keys of one path, two calls
-- that conflict run in the order in which the model gave them: the earlier in an earlier group.
pub schedule-order :
    (d : DependencyGraph) (i j a b : ℕ)
    → ((x y z : ℕ)
        → x ≢ z
        → has_conflict d x y ≡ true
        → has_conflict d y z ≡ true
        → has_conflict d x z ≡ true)
    → i < j
    → has_conflict d i j ≡ true
    → 0 < count i (get_or (schedule d) a [])
    → 0 < count j (get_or (schedule d) b [])
    → a < b
schedule-order d i j a b trans lt hit p q = elim (Bool-cases (ltb a b)) [
  | inl less ↦ ltb→lt a b less
  | inr more ↦ absurd (elim (Bool-cases (a == b)) [
    | inl same ↦
        let e : a ≡ b = (==_iff a b).0 same in
        cc (hit, schedule-independent d b i j (rw e at p) q (λ eq. omega arith))
    | inr other ↦
        let (m, held, less, hit') = schedule-eager d b a i (ground arith) p in
        let clash : has_conflict d m j ≡ true =
          trans m i j (λ eq. omega arith) (has_conflict_comm d m i ∙ hit') hit in
        cc (clash, schedule-independent d b m j held q (λ eq. omega arith))
  ])
]

-- Without transitivity the order is lost: if call 1 conflicts with both its neighbours and those
-- do not conflict with one another, call 2 runs with call 0 and so before call 1.
pub schedule_reorders :
    (d : DependencyGraph)
    → length d.calls ≡ 3
    → has_conflict d 0 1 ≡ true
    → has_conflict d 1 2 ≡ true
    → has_conflict d 0 2 ≡ false
    → schedule d ≡ (0 ∷ 2 ∷ []) ∷ (1 ∷ []) ∷ []
unfolding fill first_fit fits
schedule_reorders d size c01 c12 c02 =
    let c10 = has_conflict_comm d 1 0 in
    let c20 = has_conflict_comm d 2 0 in
    rw (schedule-fill, size) (ground (arith, c01, c12, c02, c10, c20))
