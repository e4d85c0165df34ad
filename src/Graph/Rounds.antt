-- ===== src/Graph/Rounds.antt =====
-- The index loops of `schedule` carry out first fit: one round places every call, the next none.
use g.Base.{
  ℕ, zero, suc, ◌+◌, ◌≤◌, ◌<◌, ◌≡◌, ◌≢◌, refl, sym, ap, subst, ◌∙◌, Bool, true, false, List, [],
  ◌∷◌, ◌++◌, append-nil, append_assoc, none, some, length, length-append, length-set, get_or, set,
  replicate, arith, ◌⊎◌, inl, inr, Bool-cases, Option-cases, ◌==◌, ==_iff, length-replicate,
}
use g.Graph.{Plan, find_group, place, visit, pass, rounds, blank_plan}
use g.Graph.FirstFit.{first_fit, fill}

module _ {ℓ} {A : Type ℓ} where
  get_or-middle :
      (xs : List A) (y : A) (ys : List A) (d : A) → get_or (xs ++ y ∷ ys) (length xs) d ≡ y
  get_or-middle [] y ys d = refl
  get_or-middle (x ∷ xs) y ys d = get_or-middle xs y ys d

  set-middle :
      (xs : List A) (y z : A) (ys : List A) → set (xs ++ y ∷ ys) (length xs) z ≡ xs ++ z ∷ ys
  set-middle [] y z ys = refl
  set-middle (x ∷ xs) y z ys = ap (◌∷◌ x) (set-middle xs y z ys)

  get_or-set_self : (xs : List A) (i : ℕ) (v d : A) → i < length xs → get_or (set xs i v) i d ≡ v
  get_or-set_self [] i v d h = elim h [ ]
  get_or-set_self (x ∷ xs) zero v d h = refl
  get_or-set_self (x ∷ xs) (suc i) v d h = get_or-set_self xs i v d (omega arith)

  get_or-set_ne :
      (xs : List A) (i j : ℕ) (v d : A) → i ≢ j → get_or (set xs i v) j d ≡ get_or xs j d
  get_or-set_ne [] i j v d h = refl
  get_or-set_ne (x ∷ xs) zero zero v d h = absurd (h refl)
  get_or-set_ne (x ∷ xs) zero (suc j) v d h = refl
  get_or-set_ne (x ∷ xs) (suc i) zero v d h = refl
  get_or-set_ne (x ∷ xs) (suc i) (suc j) v d h = get_or-set_ne xs i j v d (λ e. h (ap suc e))

get_or-replicate {ℓ} : {A : Type ℓ} (n j : ℕ) (a : A) → get_or (replicate n a) j a ≡ a
get_or-replicate zero j a = refl
get_or-replicate (suc n) zero a = refl
get_or-replicate (suc n) (suc j) a = get_or-replicate n j a

length-snoc {ℓ} : {A : Type ℓ} (xs : List A) (x : A) → length (xs ++ x ∷ []) ≡ suc (length xs)
length-snoc xs x = omega (arith, length-append xs (x ∷ []))

module _ (conflict : ℕ → ℕ → Bool) where
  -- the groups after `i` is placed, as `place` computes them
  abbrev placed : ℕ → List (List ℕ) → ℕ → ℕ → List (List ℕ)
  placed i groups left k = elim (find_group conflict i groups left k) [
    | none ↦ groups ++ (i ∷ []) ∷ []
    | some h ↦ set groups h (get_or groups h [] ++ i ∷ [])
  ]

  regroup :
      (i : ℕ) (seen : List (List ℕ)) (h : List ℕ) (rest : List (List ℕ))
      → placed i ((seen ++ h ∷ []) ++ rest) (length rest) (length (seen ++ h ∷ []))
        ≡ (seen ++ h ∷ []) ++ first_fit conflict i rest
      → placed i (seen ++ h ∷ rest) (length rest) (suc (length seen))
        ≡ seen ++ h ∷ first_fit conflict i rest
  regroup i seen h rest e =
      rw
        (
          append_assoc seen (h ∷ []) rest,
          append_assoc seen (h ∷ []) (first_fit conflict i rest),
          length-snoc seen h,
        )
        at e

  -- Trying the groups by index from the end of `seen` on is first fit on the rest.
  placed-first_fit :
      (i : ℕ) (seen rest : List (List ℕ))
      → placed i (seen ++ rest) (length rest) (length seen) ≡ seen ++ first_fit conflict i rest
  unfolding find_group first_fit
  placed-first_fit i seen [] = rw (append-nil seen)
  placed-first_fit i seen (h ∷ rest) =
      let ih = regroup i seen h rest (placed-first_fit i (seen ++ h ∷ []) rest) in
      ground (arith, ih, get_or-middle seen h rest [], set-middle seen h (h ++ i ∷ []) rest)

-- What holds of the variables before call `i` of `n` is looked at.
record IsReady (n i : ℕ) (s : Plan) : Type 0 where
  counted : s.next_group ≡ length s.groups
  sized : length s.assignment ≡ n
  before : (j : ℕ) → j < i → (h : ℕ) × (get_or s.assignment j none ≡ some h)
  after : (j : ℕ) → i ≤ j → get_or s.assignment j none ≡ none

-- The two outcomes of `place`: group `h` takes the call, or a new group does.
abbrev joined : Plan → ℕ → ℕ → Plan
joined s i h = record s {
  assignment = set s.assignment i (some h);
  groups = set s.groups h (get_or s.groups h [] ++ i ∷ []);
}

abbrev opened : Plan → ℕ → Plan
opened s i = record {
  assignment = set s.assignment i (some s.next_group);
  groups = s.groups ++ (i ∷ []) ∷ [];
  next_group = suc s.next_group;
  progress = true;
}

module _ (n : ℕ) where
  assign-before :
      (i h j : ℕ) (s : Plan)
      → IsReady n i s
      → i < n
      → j < suc i
      → (m : ℕ) × (get_or (set s.assignment i (some h)) j none ≡ some m)
  assign-before i h j s v lt le = elim (Bool-cases (i == j)) [
    | inl same ↦
        let e : i ≡ j = (==_iff i j).0 same in
        (h, rw (← e) (get_or-set_self s.assignment i (some h) none (omega (arith, v.sized))))
    | inr other ↦
        let (m, e) = v.before j (ground arith) in
        (m, get_or-set_ne s.assignment i j (some h) none (ground arith) ∙ e)
  ]

  assign-after :
      (i h j : ℕ) (s : Plan)
      → IsReady n i s
      → suc i ≤ j
      → get_or (set s.assignment i (some h)) j none ≡ none
  assign-after i h j s v le =
      get_or-set_ne s.assignment i j (some h) none (omega arith) ∙ v.after j (omega arith)

  joined-IsReady : (i h : ℕ) (s : Plan) → i < n → IsReady n i s → IsReady n (suc i) (joined s i h)
  joined-IsReady i h s lt v = record {
    counted = v.counted ∙ sym (length-set s.groups h _);
    sized = length-set s.assignment i (some h) ∙ v.sized;
    before = λ j le. assign-before i h j s v lt le;
    after = λ j le. assign-after i h j s v le;
  }

  opened-IsReady : (i : ℕ) (s : Plan) → i < n → IsReady n i s → IsReady n (suc i) (opened s i)
  opened-IsReady i s lt v = record {
    counted = ap suc v.counted ∙ sym (length-snoc s.groups (i ∷ []));
    sized = length-set s.assignment i (some s.next_group) ∙ v.sized;
    before = λ j le. assign-before i s.next_group j s v lt le;
    after = λ j le. assign-after i s.next_group j s v le;
  }

module _ (conflict : ℕ → ℕ → Bool) (n : ℕ) where
  visit-groups :
      (i : ℕ) (s : Plan)
      → IsReady n i s
      → (visit conflict s i).groups ≡ first_fit conflict i s.groups
  unfolding visit place
  visit-groups i s v = ground (arith, v.after i, v.counted, placed-first_fit conflict i [] s.groups)

  visit_cases :
      (i : ℕ) (s : Plan)
      → IsReady n i s
      → ((h : ℕ) × (visit conflict s i ≡ joined s i h)) ⊎ (visit conflict s i ≡ opened s i)
  unfolding visit place
  visit_cases i s v = elim (Option-cases (find_group conflict i s.groups s.next_group 0)) [
    | inl e ↦ inr (rw (visit, v.after i (omega arith), place, e) refl)
    | inr (h, e) ↦ inl (h, rw (visit, v.after i (omega arith), place, e) refl)
  ]

  visit-IsReady :
      (i : ℕ) (s : Plan) → i < n → IsReady n i s → IsReady n (suc i) (visit conflict s i)
  visit-IsReady i s lt v = elim (visit_cases i s v) [
    | inl (h, e) ↦ subst (IsReady n (suc i)) (sym e) (joined-IsReady n i h s lt v)
    | inr e ↦ subst (IsReady n (suc i)) (sym e) (opened-IsReady n i s lt v)
  ]

  pass-IsReady :
      (left i : ℕ) (s : Plan)
      → i + left ≤ n
      → IsReady n i s
      → IsReady n (i + left) (pass conflict left i s)
        × ((pass conflict left i s).groups ≡ fill conflict left i s.groups)
  unfolding pass fill
  pass-IsReady zero i s le v = (subst (λ k. IsReady n k s) (omega arith) v, refl)
  pass-IsReady (suc left) i s le v =
      let (ready, filled) =
        pass-IsReady left (suc i) (visit conflict s i) (omega arith)
          (visit-IsReady i s (omega arith) v) in
      (
        subst (λ k. IsReady n k (pass conflict left (suc i) (visit conflict s i))) (omega arith)
            ready,
        filled ∙ ap (fill conflict left (suc i)) (visit-groups i s v),
      )

  visit_idle : (i : ℕ) (s : Plan) → i < n → IsReady n n s → visit conflict s i ≡ s
  unfolding visit
  visit_idle i s lt v = ground (arith, v.before i lt)

  -- A round over placed calls does nothing.
  pass_idle : (left i : ℕ) (s : Plan) → i + left ≤ n → IsReady n n s → pass conflict left i s ≡ s
  unfolding pass
  pass_idle zero i s le v = refl
  pass_idle (suc left) i s le v =
      ap (pass conflict left (suc i)) (visit_idle i s (omega arith) v)
      ∙ pass_idle left (suc i) s (omega arith) v

  blank-IsReady : IsReady n 0 (record (blank_plan n) { progress = false })
  blank-IsReady = record {
    counted = refl;
    sized = length-replicate n none;
    before = λ j lt. absurd (omega arith);
    after = λ j le. get_or-replicate n j none;
  }

  -- the variables after the first round
  abbrev first : Plan
  first = pass conflict n 0 (record (blank_plan n) { progress = false })

  first-IsReady : IsReady n n first × (first.groups ≡ fill conflict n 0 [])
  first-IsReady =
      let (ready, filled) =
        pass-IsReady n 0 (record (blank_plan n) { progress = false }) (omega arith) blank-IsReady in
      (subst (λ k. IsReady n k first) (omega arith) ready, filled)

  settled-IsReady : (s : Plan) → IsReady n n s → IsReady n n (record s { progress = false })
  settled-IsReady s v = record {
    counted = v.counted;
    sized = v.sized;
    before = v.before;
    after = v.after;
  }

  -- From the second round on nothing changes, and the loop has ended by its test.
  rounds_idle :
      (fuel : ℕ) (s : Plan)
      → IsReady n n s
      → rounds conflict (suc fuel) n s ≡ record s { progress = false }
  unfolding rounds
  rounds_idle zero s v = elim (Bool-cases s.progress) [
    | inl e ↦
        rw (rounds, e)
          (pass_idle n 0 (record s { progress = false }) (omega arith) (settled-IsReady s v))
    | inr e ↦ rw (rounds, e) (ground arith)
  ]
  rounds_idle (suc fuel) s v = elim (Bool-cases s.progress) [
    | inl e ↦
        rw (rounds, e)
          (ap (rounds conflict (suc fuel) n)
              (pass_idle n 0 (record s { progress = false }) (omega arith) (settled-IsReady s v))
            ∙ rounds_idle fuel (record s { progress = false }) (settled-IsReady s v))
    | inr e ↦ rw (rounds, e) (ground arith)
  ]

  -- With fuel for two rounds or more the loop ends by its own test, `progress` being false, and its
  -- groups are those of first fit over all calls.
  pub rounds-fill :
      (fuel : ℕ)
      → ((rounds conflict (suc (suc fuel)) n (blank_plan n)).groups ≡ fill conflict n 0 [])
        × ((rounds conflict (suc (suc fuel)) n (blank_plan n)).progress ≡ false)
  unfolding rounds
  rounds-fill fuel =
      let e = rounds_idle fuel first first-IsReady.0 in
      (ap (λ (s : Plan). s.groups) e ∙ first-IsReady.1, ap (λ (s : Plan). s.progress) e)
