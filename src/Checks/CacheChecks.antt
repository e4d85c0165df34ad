-- ===== src/Checks/CacheChecks.antt =====
-- A cached result, its invalidation, and what comes after.
use g.Base.{ℕ, ◌≡◌, ◌↔◌, refl, true, List, [], ◌∷◌, none, some, txt, arith, str_eq, lookup}
use g.Cache.{Cache, CacheEntry, empty_cache, put, get, invalidate_dependency}
use g.Cache.Stamps.{mentions, IsBounded}
use g.Cache.Validity.{Serves, get_iff}
use g.Cache.History.{Op, puts, gets, invalidates, run, get_invalidated}

abbrev blank : Cache ℕ
blank = empty_cache

blank-IsBounded : IsBounded 1 blank.dep_versions
unfolding lookup
blank-IsBounded = record { bound = λ d n h. cc }

abbrev later : List (Op ℕ)
later =
    puts (txt "b") 8 (txt "x" ∷ []) true
    ∷ gets (txt "a") (txt "x" ∷ [])
    ∷ invalidates (txt "y")
    ∷ []

get_invalidated_example :
    (get (txt "a") (txt "x" ∷ []) (
      run later (
        invalidate_dependency (txt "x") (
          run (gets (txt "a") (txt "x" ∷ []) ∷ []) (put (txt "a") 7 (txt "x" ∷ []) true blank))))).0
    ≡ none
unfolding mentions str_eq
get_invalidated_example =
    get_invalidated (txt "a") 7 (txt "x" ∷ []) (txt "x" ∷ []) true (txt "x")
      (gets (txt "a") (txt "x" ∷ []) ∷ []) later 1 blank refl (tt, tt) (refl, (tt, (tt, tt)))
      (omega arith) blank-IsBounded (omega arith)

get_iff_example :
    ((get (txt "a") [] (put (txt "a") 7 [] true blank)).0 ≡ some 7)
    ↔ ((e : CacheEntry ℕ) × Serves (put (txt "a") 7 [] true blank) (txt "a") [] 7 e)
get_iff_example = get_iff (put (txt "a") 7 [] true blank) (txt "a") [] 7
