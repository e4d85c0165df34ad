-- ===== src/Base/KeyOrder.antt =====
-- The order of `std::map<std::string, …>`, and maps that are kept in it.
use mathlib.Core.Path.{◌≡◌, refl, ap, subst}
use mathlib.Core.Bool.{true, false}
use mathlib.Core.Logic.{inl, inr}
use mathlib.Core.List.{[], ◌∷◌, ◌++◌}
use native.Mathlib.Omega.{arith}
use g.Base.Tests.{Bool-cases}
use g.Base.Lists.{All, All-map}
use g.Base.Text.{Str, str_eq, str_eq_iff, str_lt}
use g.Base.Maps.{Map, insert_sorted}

pub str_lt_asymm : (a b : Str) → str_lt a b ≡ true → (str_lt b a ≡ false) × (str_eq a b ≡ false)
unfolding str_lt str_eq
str_lt_asymm [] [] h = cc h
str_lt_asymm [] (y ∷ b) h = (refl, refl)
str_lt_asymm (x ∷ a) [] h = cc h
str_lt_asymm (x ∷ a) (y ∷ b) h = ground (arith, str_lt_asymm a b)

pub str_lt_trans : (a b c : Str) → str_lt a b ≡ true → str_lt b c ≡ true → str_lt a c ≡ true
unfolding str_lt
str_lt_trans a b [] h k = cc k
str_lt_trans a [] (z ∷ c) h k = cc h
str_lt_trans [] (y ∷ b) (z ∷ c) h k = refl
str_lt_trans (x ∷ a) (y ∷ b) (z ∷ c) h k = ground (arith, str_lt_trans a b c)

pub str_lt_total : (a b : Str) → str_eq a b ≡ false → str_lt b a ≡ false → str_lt a b ≡ true
unfolding str_lt str_eq
str_lt_total [] [] h k = cc h
str_lt_total [] (y ∷ b) h k = refl
str_lt_total (x ∷ a) [] h k = cc k
str_lt_total (x ∷ a) (y ∷ b) h k = ground (arith, str_lt_total a b)

module _ {ℓ} {V : Type ℓ} where
  -- the key comes before all keys of the map
  abbrev pub Before : Str → Map V → Type 0
  Before k = All (λ e. str_lt k e.0 ≡ true)

  abbrev pub After : Str → Map V → Type 0
  After k = All (λ e. str_lt e.0 k ≡ true)

  -- Each key comes before all later ones.
  abbrev pub Ascending : Map V → Type 0
  Ascending [] = Unit
  Ascending ((k, v) ∷ m) = Before k m × Ascending m

  pub insert_sorted-last :
      (k : Str) (v : V) (m : Map V) → After k m → insert_sorted k v m ≡ m ++ (k, v) ∷ []
  unfolding insert_sorted
  insert_sorted-last k v [] h = refl
  insert_sorted-last k v ((j, w) ∷ m) (h, hs) =
      let (late, other) = str_lt_asymm j k h in
      rw (other, late) (ap (◌∷◌ (j, w)) (insert_sorted-last k v m hs))

  Before-insert_sorted :
      (i k : Str) (v : V) (m : Map V)
      → str_lt i k ≡ true
      → Before i m
      → Before i (insert_sorted k v m)
  unfolding insert_sorted
  Before-insert_sorted i k v [] h b = (h, tt)
  Before-insert_sorted i k v ((j, w) ∷ m) h (b, bs) = elim (Bool-cases (str_eq j k)) [
    | inl e ↦ rw e (h, bs)
    | inr e ↦ elim (Bool-cases (str_lt k j)) [
      | inl l ↦ rw (e, l) (h, (b, bs))
      | inr l ↦ rw (e, l) (b, Before-insert_sorted i k v m h bs)
    ]
  ]

  pub insert_sorted-Ascending :
      (k : Str) (v : V) (m : Map V) → Ascending m → Ascending (insert_sorted k v m)
  unfolding insert_sorted
  insert_sorted-Ascending k v [] h = (tt, tt)
  insert_sorted-Ascending k v ((j, w) ∷ m) (h, hs) = elim (Bool-cases (str_eq j k)) [
    | inl e ↦ rw e (subst (λ x. Before x m) ((str_eq_iff j k).0 e) h, hs)
    | inr e ↦ elim (Bool-cases (str_lt k j)) [
      | inl l ↦
          rw (e, l)
            (
              (
                l,
                All-map (λ p. str_lt j p.0 ≡ true) (λ p. str_lt k p.0 ≡ true) m
                    (λ p q. str_lt_trans k j p.0 l q) h,
              ),
              (h, hs),
            )
      | inr l ↦
          rw (e, l)
            (
              Before-insert_sorted j k v m (str_lt_total j k e l) h,
              insert_sorted-Ascending k v m hs,
            )
    ]
  ]
