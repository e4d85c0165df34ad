-- ===== src/Cache/Stamps.antt =====
-- The versions that `put` stamps on an entry.
use g.Base.{
  ℕ, ◌≤◌, ◌≡◌, refl, ◌∙◌, Bool, true, false, List, [], ◌∷◌, none, some, Str, str_eq, str_eq_iff,
  str_eq_refl, Map, lookup, insert, lookup-insert, if◌then◌else◌, arith, inl, inr, ◌⊎◌,
  Option-cases, Bool-cases, All,
}
use g.Cache.{stamp, versions_match}

-- The version of each dependency of the entry is the present one.
abbrev pub IsCurrent : Map ℕ → Map ℕ → Type 0
IsCurrent versions own = All (λ (p : Str × ℕ). lookup p.0 versions ≡ some p.1) own

pub versions_match-IsCurrent :
    (versions own : Map ℕ) → IsCurrent versions own → versions_match versions own ≡ true
unfolding versions_match
versions_match-IsCurrent versions [] v = refl
versions_match-IsCurrent versions ((d, n) ∷ own) v =
    ground (arith, v.0, versions_match-IsCurrent versions own v.1)

pub IsCurrent-versions_match :
    (versions own : Map ℕ) → versions_match versions own ≡ true → IsCurrent versions own
unfolding versions_match
IsCurrent-versions_match versions [] h = tt
IsCurrent-versions_match versions ((d, n) ∷ own) h =
    (ground (arith, h), IsCurrent-versions_match versions own (ground (arith, h)))

insert-IsCurrent :
    (versions : Map ℕ) (d : Str) (n : ℕ) (own : Map ℕ)
    → lookup d versions ≡ some n
    → IsCurrent versions own
    → IsCurrent versions (insert d n own)
unfolding insert
insert-IsCurrent versions d n [] e v = (e, tt)
insert-IsCurrent versions d n ((j, m) ∷ own) e v = elim (Bool-cases (str_eq j d)) [
  | inl same ↦ rw same (e, v.1)
  | inr other ↦ rw other (v.0, insert-IsCurrent versions d n own e v.1)
]

-- A dependency that is new to the map is none of the stamped ones.
extend-IsCurrent :
    (versions : Map ℕ) (d : Str) (own : Map ℕ)
    → lookup d versions ≡ none
    → IsCurrent versions own
    → IsCurrent (insert d 1 versions) own
extend-IsCurrent versions d [] e v = tt
extend-IsCurrent versions d ((j, m) ∷ own) e v = (
  ground (arith, v.0, e, lookup-insert j d 1 versions, str_eq_iff d j),
  extend-IsCurrent versions d own e v.1,
)

pub stamp-IsCurrent :
    (ds : List Str) (versions own : Map ℕ)
    → IsCurrent versions own
    → IsCurrent (stamp ds versions own).0 (stamp ds versions own).1
unfolding stamp
stamp-IsCurrent [] versions own v = v
stamp-IsCurrent (d ∷ ds) versions own v = elim (Option-cases (lookup d versions)) [
  | inl e ↦
      rw (e, stamp)
        (stamp-IsCurrent ds (insert d 1 versions) (insert d 1 own) (
          insert-IsCurrent (insert d 1 versions) d 1 own
            (ground (arith, lookup-insert d d 1 versions, str_eq_refl d))
            (extend-IsCurrent versions d own e v)))
  | inr (n, e) ↦
      rw (e, stamp)
        (stamp-IsCurrent ds versions (insert d n own) (insert-IsCurrent versions d n own e v))
]

-- `put` never changes the version of a dependency that has one.
pub stamp-keeps :
    (ds : List Str) (versions own : Map ℕ) (j : Str) (n : ℕ)
    → lookup j versions ≡ some n
    → lookup j (stamp ds versions own).0 ≡ some n
unfolding stamp
stamp-keeps [] versions own j n e = e
stamp-keeps (d ∷ ds) versions own j n e = elim (Option-cases (lookup d versions)) [
  | inl new ↦
      rw (new, stamp)
        (stamp-keeps ds (insert d 1 versions) (insert d 1 own) j n
          (ground (arith, e, new, lookup-insert j d 1 versions, str_eq_iff d j)))
  | inr (m, old) ↦ rw (old, stamp) (stamp-keeps ds versions (insert d m own) j n e)
]

-- Does the text stand in the list?
unfoldable pub mentions : Str → List Str → Bool
mentions d [] = false
mentions d (x ∷ xs) = if str_eq x d then true else mentions d xs

-- `d` is still to be stamped, or is stamped.
abbrev pub Due : Str → List Str → Map ℕ → Type 0
Due d ds own = (mentions d ds ≡ true) ⊎ ((n : ℕ) × (lookup d own ≡ some n))

carry :
    (x d : Str) (v : ℕ) (ds : List Str) (own : Map ℕ)
    → Due d (x ∷ ds) own
    → Due d ds (insert x v own)
unfolding mentions
carry x d v ds own h = elim (Bool-cases (str_eq x d)) [
  | inl same ↦ inr (v, lookup-insert d x v own ∙ rw same refl)
  | inr other ↦ elim h [
    | inl m ↦ inl (rw other at m)
    | inr (n, e) ↦ inr (n, lookup-insert d x v own ∙ rw other e)
  ]
]

stamp-Due :
    (ds : List Str) (versions own : Map ℕ) (d : Str)
    → Due d ds own
    → (n : ℕ) × (lookup d (stamp ds versions own).1 ≡ some n)
unfolding stamp mentions
stamp-Due [] versions own d (inl h) = cc
stamp-Due [] versions own d (inr h) = h
stamp-Due (x ∷ ds) versions own d h = elim (Option-cases (lookup x versions)) [
  | inl e ↦
      rw (e, stamp) (stamp-Due ds (insert x 1 versions) (insert x 1 own) d (carry x d 1 ds own h))
  | inr (v, e) ↦ rw (e, stamp) (stamp-Due ds versions (insert x v own) d (carry x d v ds own h))
]

-- Every dependency is stamped.
pub stamp-mentions :
    (ds : List Str) (versions : Map ℕ) (d : Str)
    → mentions d ds ≡ true
    → (n : ℕ) × (lookup d (stamp ds versions []).1 ≡ some n)
stamp-mentions ds versions d h = stamp-Due ds versions [] d (inl h)

pub stamp-unmentioned :
    (ds : List Str) (versions own : Map ℕ) (d : Str)
    → mentions d ds ≡ false
    → lookup d own ≡ none
    → lookup d (stamp ds versions own).1 ≡ none
unfolding stamp mentions
stamp-unmentioned [] versions own d h e = e
stamp-unmentioned (x ∷ ds) versions own d h e = elim (Option-cases (lookup x versions)) [
  | inl q ↦
      rw (q, stamp)
        (stamp-unmentioned ds (insert x 1 versions) (insert x 1 own) d (ground arith)
          (ground (arith, h, e, lookup-insert d x 1 own)))
  | inr (v, q) ↦
      rw (q, stamp)
        (stamp-unmentioned ds versions (insert x v own) d (ground arith)
          (ground (arith, h, e, lookup-insert d x v own)))
]

-- All versions are at most `b`.
pub record IsBounded (b : ℕ) (versions : Map ℕ) : Type 0 where
  pub bound : (d : Str) (n : ℕ) → lookup d versions ≡ some n → n ≤ b

pub insert-IsBounded :
    (b : ℕ) (d : Str) (n : ℕ) (versions : Map ℕ)
    → n ≤ b
    → IsBounded b versions
    → IsBounded b (insert d n versions)
insert-IsBounded b d n versions le v = record {
  bound = λ j m h. ground (arith, h, v.bound j m, lookup-insert j d n versions);
}

pub stamp-IsBounded :
    (ds : List Str) (b : ℕ) (versions own : Map ℕ)
    → 1 ≤ b
    → IsBounded b versions
    → IsBounded b (stamp ds versions own).0
unfolding stamp
stamp-IsBounded [] b versions own le v = v
stamp-IsBounded (d ∷ ds) b versions own le v = elim (Option-cases (lookup d versions)) [
  | inl e ↦
      rw (e, stamp)
        (stamp-IsBounded ds b (insert d 1 versions) (insert d 1 own) le
          (insert-IsBounded b d 1 versions le v))
  | inr (n, e) ↦ rw (e, stamp) (stamp-IsBounded ds b versions (insert d n own) le v)
]

pub IsCurrent-lookup :
    (versions own : Map ℕ) (d : Str) (n : ℕ)
    → IsCurrent versions own
    → lookup d own ≡ some n
    → lookup d versions ≡ some n
unfolding lookup
IsCurrent-lookup versions [] d n v h = cc
IsCurrent-lookup versions ((j, m) ∷ own) d n v h =
    ground (arith, v.0, h, str_eq_iff j d, IsCurrent-lookup versions own d n v.1)
