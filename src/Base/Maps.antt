-- ===== src/Base/Maps.antt =====
-- Maps with text keys. `insert` is `m[k] = v` of an unordered map, whose iteration order the
-- program never relies on; `insert_sorted` is that of `std::map`, which iterates in key order.
use mathlib.Core.Path.{◌≡◌, refl}
use mathlib.Core.Bool.{Bool, true, false}
use mathlib.Core.List.{List, [], ◌∷◌}
use mathlib.Core.Option.{Option, none, some}
use native.Mathlib.Omega.{arith}
use g.Base.Tests.{if◌then◌else◌}
use g.Base.Text.{Str, str_eq, str_eq_iff, str_eq_refl, str_lt}

abbrev pub Map {ℓ} : Type ℓ → Type ℓ
Map V = List (Str × V)

module _ {ℓ} {V : Type ℓ} where
  -- `m.find(k)`
  unfoldable pub lookup : Str → Map V → Option V
  lookup k [] = none
  lookup k ((j, v) ∷ m) = if str_eq j k then some v else lookup k m

  -- `m.contains(k)`
  unfoldable pub contains : Str → Map V → Bool
  contains k [] = false
  contains k ((j, v) ∷ m) = if str_eq j k then true else contains k m

  -- `m[k] = v`
  unfoldable pub insert : Str → V → Map V → Map V
  insert k v [] = (k, v) ∷ []
  insert k v ((j, w) ∷ m) = if str_eq j k then (k, v) ∷ m else (j, w) ∷ insert k v m

  -- `m[k] = v` on a map that is kept in key order
  unfoldable pub insert_sorted : Str → V → Map V → Map V
  insert_sorted k v [] = (k, v) ∷ []
  insert_sorted k v ((j, w) ∷ m) =
      if str_eq j k
      then (k, v) ∷ m
      else if str_lt k j
      then (k, v) ∷ (j, w) ∷ m
      else (j, w) ∷ insert_sorted k v m

module _ {ℓ} {V : Type ℓ} where
  pub lookup-insert :
      (j k : Str) (v : V) (m : Map V)
      → lookup j (insert k v m) ≡ (if str_eq k j then some v else lookup j m)
  unfolding lookup insert
  lookup-insert j k v [] = refl
  lookup-insert j k v ((i, w) ∷ m) =
      ground (arith, str_eq_iff k j, str_eq_iff i k, str_eq_iff i j, lookup-insert j k v m)

  pub lookup-insert_self : (k : Str) (v : V) (m : Map V) → lookup k (insert k v m) ≡ some v
  lookup-insert_self k v m = simp (lookup-insert, str_eq_refl)

  pub lookup-insert_sorted :
      (j k : Str) (v : V) (m : Map V)
      → lookup j (insert_sorted k v m) ≡ (if str_eq k j then some v else lookup j m)
  unfolding lookup insert_sorted
  lookup-insert_sorted j k v [] = refl
  lookup-insert_sorted j k v ((i, w) ∷ m) =
      ground (arith, str_eq_iff k j, str_eq_iff i k, str_eq_iff i j, lookup-insert_sorted j k v m)

  pub contains-lookup :
      (k : Str) (m : Map V)
      → contains k m ≡ elim (lookup k m) as (λ _. Bool) [ none ↦ false | some _ ↦ true ]
  unfolding lookup contains
  contains-lookup k [] = refl
  contains-lookup k ((j, v) ∷ m) = ground (arith, contains-lookup k m)

pub ruleset map_laws = (lookup-insert, lookup-insert_sorted, str_eq_refl)
