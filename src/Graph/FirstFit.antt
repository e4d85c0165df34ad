-- ===== src/Graph/FirstFit.antt =====
-- First fit by recursion on the groups: what the index loops of `schedule` compute.
use g.Base.{
  ℕ, zero, suc, ◌+◌, ◌≤◌, ◌<◌, ◌≡◌, ◌≢◌, ◌==◌, refl, Bool, true, false, List, [], ◌∷◌, ◌++◌, count,
  count-append, length, length-append, if◌then◌else◌, arith, ltb, leb, ◌&&◌, inl, inr, Bool-cases,
  get_or, Increasing, All,
}
use g.Graph.{fits}

-- all members, group after group
abbrev pub members : List (List ℕ) → List ℕ
members [] = []
members (g ∷ gs) = g ++ members gs

module _ (conflict : ℕ → ℕ → Bool) where
  unfoldable pub first_fit : ℕ → List (List ℕ) → List (List ℕ)
  first_fit i [] = (i ∷ []) ∷ []
  first_fit i (g ∷ gs) = if fits conflict i g then (g ++ i ∷ []) ∷ gs else g ∷ first_fit i gs

  unfoldable pub fill : ℕ → ℕ → List (List ℕ) → List (List ℕ)
  fill zero i gs = gs
  fill (suc left) i gs = fill left (suc i) (first_fit i gs)

  pub count-first_fit :
      (x i : ℕ) (gs : List (List ℕ))
      → count x (members (first_fit i gs)) ≡ count x (i ∷ []) + count x (members gs)
  unfolding first_fit
  count-first_fit x i [] = omega arith
  count-first_fit x i (g ∷ gs) = ground (
    arith,
    count-first_fit x i gs,
    count-append x (g ++ i ∷ []) (members gs),
    count-append x g (i ∷ []),
    count-append x g (members (first_fit i gs)),
    count-append x g (members gs),
  )

  -- Each number from `i` on is added once.
  pub count-fill :
      (x left i : ℕ) (gs : List (List ℕ))
      → count x (members (fill left i gs))
        ≡ (if leb i x && ltb x (i + left) then 1 else 0) + count x (members gs)
  unfolding fill
  count-fill x zero i gs = ground arith
  count-fill x (suc left) i gs =
      ground (arith, count-fill x left (suc i) (first_fit i gs), count-first_fit x i gs)

-- No two members of a group conflict.
pub record IsIndependent (conflict : ℕ → ℕ → Bool) (g : List ℕ) : Type 0 where
  pub apart : (a b : ℕ) → 0 < count a g → 0 < count b g → a ≢ b → conflict a b ≡ false

module _ (conflict : ℕ → ℕ → Bool) where
  fits-all :
      (i b : ℕ) (g : List ℕ) → fits conflict i g ≡ true → 0 < count b g → conflict i b ≡ false
  unfolding fits
  fits-all i b [] h m = absurd (omega arith)
  fits-all i b (j ∷ js) h m = ground (arith, fits-all i b js)

  fits-fails :
      (i : ℕ) (g : List ℕ)
      → fits conflict i g ≡ false
      → (j : ℕ) × (0 < count j g) × (conflict i j ≡ true)
  unfolding fits
  fits-fails i [] h = cc
  fits-fails i (j ∷ js) h = elim (Bool-cases (conflict i j)) [
    | inl hit ↦ (j, ground arith, hit)
    | inr miss ↦
        let (m, held, hit) = fits-fails i js (rw miss at h) in (m, omega (arith, held), hit)
  ]

  module _ (conflict_comm : (a b : ℕ) → conflict a b ≡ conflict b a) where
    snoc-IsIndependent :
        (i : ℕ) (g : List ℕ)
        → fits conflict i g ≡ true
        → IsIndependent conflict g
        → IsIndependent conflict (g ++ i ∷ [])
    snoc-IsIndependent i g h v = record {
      apart = λ a b p q ne. ground (
        arith,
        v.apart a b,
        count-append a g (i ∷ []),
        count-append b g (i ∷ []),
        fits-all i b g,
        fits-all i a g,
        conflict_comm a b,
      );
    }

    first_fit-IsIndependent :
        (i : ℕ) (gs : List (List ℕ))
        → All (IsIndependent conflict) gs
        → All (IsIndependent conflict) (first_fit conflict i gs)
    unfolding first_fit
    first_fit-IsIndependent i [] v = (record { apart = λ a b p q ne. ground arith }, tt)
    first_fit-IsIndependent i (g ∷ gs) v = elim (Bool-cases (fits conflict i g)) [
      | inl e ↦ rw e (snoc-IsIndependent i g e v.0, v.1)
      | inr e ↦ rw e (v.0, first_fit-IsIndependent i gs v.1)
    ]

    pub fill-IsIndependent :
        (left i : ℕ) (gs : List (List ℕ))
        → All (IsIndependent conflict) gs
        → All (IsIndependent conflict) (fill conflict left i gs)
    unfolding fill
    fill-IsIndependent zero i gs v = v
    fill-IsIndependent (suc left) i gs v =
        fill-IsIndependent left (suc i) (first_fit conflict i gs) (first_fit-IsIndependent i gs v)

-- Every member of a later group is kept out of each earlier one by a smaller member of that.
pub record IsBlocked (conflict : ℕ → ℕ → Bool) (g : List ℕ) (gs : List (List ℕ)) : Type 0 where
  pub by :
      (i : ℕ)
      → 0 < count i (members gs)
      → (j : ℕ) × (0 < count j g) × (j < i) × (conflict i j ≡ true)

abbrev pub IsLayered : (ℕ → ℕ → Bool) → List (List ℕ) → Type 0
IsLayered conflict [] = Unit
IsLayered conflict (g ∷ gs) = IsBlocked conflict g gs × IsLayered conflict gs

-- All members are below `n`.
pub record IsBelow (n : ℕ) (gs : List (List ℕ)) : Type 0 where
  pub below : (i : ℕ) → 0 < count i (members gs) → i < n

module _ (conflict : ℕ → ℕ → Bool) where
  widen :
      (i : ℕ) (g : List ℕ) (gs : List (List ℕ))
      → IsBlocked conflict g gs
      → IsBlocked conflict (g ++ i ∷ []) gs
  widen i g gs v = record {
    by = λ x h.
        let (j, held, lt, hit) = v.by x h in
        (j, omega (arith, held, count-append j g (i ∷ [])), lt, hit);
  }

  tail-IsBelow : (n : ℕ) (g : List ℕ) (gs : List (List ℕ)) → IsBelow n (g ∷ gs) → IsBelow n gs
  tail-IsBelow n g gs b = record {
    below = λ x h. b.below x (omega (arith, h, count-append x g (members gs)));
  }

  block :
      (i : ℕ) (g : List ℕ) (gs : List (List ℕ))
      → fits conflict i g ≡ false
      → IsBelow i (g ∷ gs)
      → IsBlocked conflict g gs
      → IsBlocked conflict g (first_fit conflict i gs)
  block i g gs e b v = record {
    by = λ x h. elim (Bool-cases (x == i)) [
      | inl same ↦
          let (j, held, hit) = fits-fails conflict i g e in
          let lt : j < i = b.below j (omega (arith, held, count-append j g (members gs))) in
          (j, held, ground (arith, lt), ground arith)
      | inr other ↦ v.by x (ground (arith, count-first_fit conflict x i gs))
    ];
  }

  first_fit-IsLayered :
      (i : ℕ) (gs : List (List ℕ))
      → IsBelow i gs
      → IsLayered conflict gs
      → IsLayered conflict (first_fit conflict i gs)
  unfolding first_fit
  first_fit-IsLayered i [] b v = (record { by = λ x h. absurd (omega arith) }, tt)
  first_fit-IsLayered i (g ∷ gs) b v = elim (Bool-cases (fits conflict i g)) [
    | inl e ↦ rw e (widen i g gs v.0, v.1)
    | inr e ↦ rw e (block i g gs e b v.0, first_fit-IsLayered i gs (tail-IsBelow i g gs b) v.1)
  ]

  first_fit-IsBelow :
      (i : ℕ) (gs : List (List ℕ)) → IsBelow i gs → IsBelow (suc i) (first_fit conflict i gs)
  first_fit-IsBelow i gs b = record {
    below = λ x h. ground (arith, b.below x, count-first_fit conflict x i gs);
  }

  pub fill-IsLayered :
      (left i : ℕ) (gs : List (List ℕ))
      → IsBelow i gs
      → IsLayered conflict gs
      → IsLayered conflict (fill conflict left i gs)
  unfolding fill
  fill-IsLayered zero i gs b v = v
  fill-IsLayered (suc left) i gs b v =
      fill-IsLayered left (suc i) (first_fit conflict i gs) (first_fit-IsBelow i gs b)
        (first_fit-IsLayered i gs b v)

  pub count-get_or-le :
      (x k : ℕ) (gs : List (List ℕ)) → count x (get_or gs k []) ≤ count x (members gs)
  count-get_or-le x k [] = omega arith
  count-get_or-le x zero (g ∷ gs) = omega (arith, count-append x g (members gs))
  count-get_or-le x (suc k) (g ∷ gs) =
      omega (arith, count-append x g (members gs), count-get_or-le x k gs)

  -- The blocking member by position.
  pub blocker :
      (gs : List (List ℕ)) (a b i : ℕ)
      → IsLayered conflict gs
      → a < b
      → 0 < count i (get_or gs b [])
      → (j : ℕ) × (0 < count j (get_or gs a [])) × (j < i) × (conflict i j ≡ true)
  blocker [] a b i v lt h = absurd (omega arith)
  blocker (g ∷ gs) a zero i v lt h = absurd (omega arith)
  blocker (g ∷ gs) zero (suc b) i v lt h = v.0.by i (omega (arith, h, count-get_or-le i b gs))
  blocker (g ∷ gs) (suc a) (suc b) i v lt h = blocker gs a b i v.1 (omega arith) h

snoc-Increasing :
    (n i : ℕ) (g : List ℕ)
    → n ≤ i
    → ((x : ℕ) → 0 < count x g → x < i)
    → Increasing n g
    → Increasing n (g ++ i ∷ [])
snoc-Increasing n i [] le b v = (le, tt)
snoc-Increasing n i (x ∷ g) le b v =
    (v.0, snoc-Increasing x i g (omega (arith, b x (ground arith))) (λ y h. b y (ground arith)) v.1)

module _ (conflict : ℕ → ℕ → Bool) where
  first_fit-Increasing :
      (i : ℕ) (gs : List (List ℕ))
      → IsBelow i gs
      → All (Increasing 0) gs
      → All (Increasing 0) (first_fit conflict i gs)
  unfolding first_fit
  first_fit-Increasing i [] b v = (omega arith, tt)
  first_fit-Increasing i (g ∷ gs) b v = elim (Bool-cases (fits conflict i g)) [
    | inl e ↦ rw e (
      snoc-Increasing 0 i g (omega arith)
          (λ x h. b.below x (omega (arith, h, count-append x g (members gs)))) v.0,
      v.1,
    )
    | inr e ↦ rw e (v.0, first_fit-Increasing i gs (tail-IsBelow conflict i g gs b) v.1)
  ]

  -- The calls are placed in order, so each group increases.
  pub fill-Increasing :
      (left i : ℕ) (gs : List (List ℕ))
      → IsBelow i gs
      → All (Increasing 0) gs
      → All (Increasing 0) (fill conflict left i gs)
  unfolding fill
  fill-Increasing zero i gs b v = v
  fill-Increasing (suc left) i gs b v =
      fill-Increasing left (suc i) (first_fit conflict i gs) (first_fit-IsBelow conflict i gs b)
        (first_fit-Increasing i gs b v)

  length-first_fit :
      (i : ℕ) (gs : List (List ℕ))
      → length (members (first_fit conflict i gs)) ≡ suc (length (members gs))
  unfolding first_fit
  length-first_fit i [] = refl
  length-first_fit i (g ∷ gs) = ground (
    arith,
    length-first_fit i gs,
    length-append (g ++ i ∷ []) (members gs),
    length-append g (i ∷ []),
    length-append g (members (first_fit conflict i gs)),
    length-append g (members gs),
  )

  pub length-fill :
      (left i : ℕ) (gs : List (List ℕ))
      → length (members (fill conflict left i gs)) ≡ left + length (members gs)
  unfolding fill
  length-fill zero i gs = omega arith
  length-fill (suc left) i gs =
      omega (arith, length-fill left (suc i) (first_fit conflict i gs), length-first_fit i gs)
