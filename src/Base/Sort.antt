-- ===== src/Base/Sort.antt =====
-- `std::sort` on indices: the one increasing arrangement of the numbers.
use Prim.Native.Nat.{ℕ, ◌+◌, ◌≤◌}
use mathlib.Core.Path.{◌≡◌, refl, ap, ◌∙◌}
use mathlib.Core.Logic.{inl, inr}
use mathlib.Core.List.{List, [], ◌∷◌}
use native.Mathlib.Omega.{arith}
use g.Base.Tests.{leb, leb→le, if◌then◌else◌, Bool-cases}
use g.Base.Lists.{count}

insert_nat : ℕ → List ℕ → List ℕ
insert_nat x [] = x ∷ []
insert_nat x (y ∷ ys) = if leb x y then x ∷ y ∷ ys else y ∷ insert_nat x ys

unfoldable pub sort : List ℕ → List ℕ
unfolding insert_nat
sort [] = []
sort (x ∷ xs) = insert_nat x (sort xs)

-- Every element is at least `n`, and the elements increase.
abbrev pub Increasing : ℕ → List ℕ → Type 0
Increasing n [] = Unit
Increasing n (x ∷ xs) = (n ≤ x) × Increasing x xs

insert_nat-least : (n x : ℕ) (ys : List ℕ) → n ≤ x → Increasing x ys → insert_nat x ys ≡ x ∷ ys
unfolding insert_nat
insert_nat-least n x [] h i = refl
insert_nat-least n x (y ∷ ys) h i = ground arith

pub sort-Increasing : (n : ℕ) (xs : List ℕ) → Increasing n xs → sort xs ≡ xs
unfolding sort
sort-Increasing n [] i = refl
sort-Increasing n (x ∷ xs) i =
    ap (insert_nat x) (sort-Increasing x xs i.1) ∙ insert_nat-least n x xs i.0 i.1

count-insert_nat :
    (w x : ℕ) (ys : List ℕ) → count w (insert_nat x ys) ≡ count w (x ∷ []) + count w ys
unfolding insert_nat
count-insert_nat w x [] = omega arith
count-insert_nat w x (y ∷ ys) = ground (arith, count-insert_nat w x ys)

pub count-sort : (w : ℕ) (xs : List ℕ) → count w (sort xs) ≡ count w xs
unfolding sort
count-sort w [] = refl
count-sort w (x ∷ xs) = ground (arith, count-insert_nat w x (sort xs), count-sort w xs)

insert_nat-Increasing :
    (n x : ℕ) (ys : List ℕ) → n ≤ x → Increasing n ys → Increasing n (insert_nat x ys)
unfolding insert_nat
insert_nat-Increasing n x [] h i = (h, tt)
insert_nat-Increasing n x (y ∷ ys) h i = elim (Bool-cases (leb x y)) [
  | inl e ↦ rw e (h, (leb→le x y e, i.1))
  | inr e ↦ rw e (i.0, insert_nat-Increasing y x ys (ground arith) i.1)
]

pub Increasing-sort : (xs : List ℕ) → Increasing 0 (sort xs)
unfolding sort
Increasing-sort [] = tt
Increasing-sort (x ∷ xs) = insert_nat-Increasing 0 x (sort xs) (omega arith) (Increasing-sort xs)
