-- ===== src/Retry/Attempts.antt =====
-- What retrying returns, and how often it asks and waits.
use g.Base.{
  ℕ, zero, suc, ◌+◌, ◌-◌, ◌≤◌, ◌<◌, ◌^◌, ◌≡◌, refl, ap, ◌∙◌, Bool, true, false, List, [], ◌∷◌, some,
  min, max, if◌then◌else◌, arith, succ32, succ32-eq, length, All, txt,
}
use g.Types.{ErrorKind, internal, validation, cancelled, Result, ok, fail}
use g.Retry.{RetryPolicy, Counters, is_final, attempts_from, complete}

-- Is it one of the two kinds of error that no retry mends?
pub is_decided : ErrorKind → Bool
is_decided k = elim k [ validation ↦ true | cancelled ↦ true | _ ↦ false ]

-- A success and such an error settle the matter.
pub settles : {R : Type 0} → Result R → Bool
unfolding is_decided
settles (ok value) = true
settles (fail e) = is_decided e.kind

is_final-is_decided : (k : ErrorKind) → is_final k ≡ is_decided k
unfolding is_final is_decided
is_final-is_decided k = ground arith

-- what ends the loop
ends_loop : {R : Type 0} → Result R → Bool
ends_loop (ok value) = true
ends_loop (fail e) = is_final e.kind

ends_loop-settles : {R : Type 0} (r : Result R) → ends_loop r ≡ settles r
unfolding ends_loop settles
ends_loop-settles (ok value) = refl
ends_loop-settles (fail e) = is_final-is_decided e.kind

module _ {R World : Type 0} (inner : World → Result R × World) where
  -- the results of asking `n` times in a row
  pub answers : ℕ → World → List (Result R)
  answers zero w = []
  answers (suc n) w = let (r, w1) = inner w in r ∷ answers n w1

-- the first result that ends the loop, or else the last one, and how many are looked at for it
last_of : {R : Type 0} → Result R → List (Result R) → Result R
last_of last [] = last
last_of last (r ∷ rs) = if ends_loop r then r else last_of r rs

tries : {R : Type 0} → List (Result R) → ℕ
tries [] = 0
tries (r ∷ rs) = 1 + (if ends_loop r then 0 else tries rs)

-- the first result that settles the matter, or else the last one
pub decisive : {R : Type 0} → Result R → List (Result R) → Result R
decisive last [] = last
decisive last (r ∷ rs) = if settles r then r else decisive r rs

-- how many results are looked at for that
pub asked : {R : Type 0} → List (Result R) → ℕ
asked [] = 0
asked (r ∷ rs) = 1 + (if settles r then 0 else asked rs)

last_of-decisive :
    {R : Type 0} (last : Result R) (rs : List (Result R)) → last_of last rs ≡ decisive last rs
unfolding last_of decisive
last_of-decisive last [] = refl
last_of-decisive last (r ∷ rs) =
    rw (last_of, decisive, ends_loop-settles r, last_of-decisive r rs) refl

tries-asked : {R : Type 0} (rs : List (Result R)) → tries rs ≡ asked rs
unfolding tries asked
tries-asked [] = refl
tries-asked (r ∷ rs) = rw (tries, asked, ends_loop-settles r, tries-asked rs) refl

module _ {R World : Type 0} (grow : ℕ → ℕ) (policy : RetryPolicy)
    (inner : World → Result R × World) where
  attempts_from-decisive :
      (left attempt backoff : ℕ) (last : Result R) (k : Counters) (w : World)
      → attempt + left ≡ policy.max_attempts
      → k.attempts + left < 2 ^ 32
      → let x = attempts_from grow policy inner left attempt backoff last k w in
        (x.result ≡ last_of last (answers inner left w))
        × (x.counters.attempts ≡ k.attempts + tries (answers inner left w))
  unfolding attempts_from last_of tries answers ends_loop
  attempts_from-decisive zero attempt backoff last k w e lt = (refl, omega arith)
  attempts_from-decisive (suc zero) attempt backoff last k w e lt =
      ground (arith, e, succ32-eq k.attempts)
  attempts_from-decisive (suc (suc left)) attempt backoff last k w e lt =
      let next = succ32-eq k.attempts (omega arith) in
      let ih =
        attempts_from-decisive (suc left) (attempt + 1) (min (grow backoff) policy.max_backoff)
          (inner w).0 (record { attempts = succ32 k.attempts; retries = succ32 k.retries })
          (inner w).1 (omega (arith, e)) (omega (arith, next)) in
      ground (arith, e, next, ih)

  -- One wait for each retry, none longer than the policy allows.
  attempts_from-sleeps :
      (left attempt backoff : ℕ) (last : Result R) (k : Counters) (w : World)
      → attempt + left ≡ policy.max_attempts
      → k.retries + left < 2 ^ 32
      → backoff ≤ max policy.initial_backoff policy.max_backoff
      → let x = attempts_from grow policy inner left attempt backoff last k w in
        All (λ s. s ≤ max policy.initial_backoff policy.max_backoff) x.sleeps
        × (x.counters.retries ≡ k.retries + length x.sleeps)
        × (length x.sleeps ≤ left - 1)
  unfolding attempts_from
  attempts_from-sleeps zero attempt backoff last k w e lt le = (tt, omega arith, omega arith)
  attempts_from-sleeps (suc left) attempt backoff last k w e lt le =
      let next = succ32-eq k.retries (omega arith) in
      let (short, counted, few) =
        attempts_from-sleeps left (attempt + 1) (min (grow backoff) policy.max_backoff) (inner w).0
          (record { attempts = succ32 k.attempts; retries = succ32 k.retries }) (inner w).1
          (omega (arith, e)) (omega (arith, next)) (omega arith) in
      ground (arith, e, next, short, counted, few)

  asked-answers : (n : ℕ) (w : World) → asked (answers inner n w) ≤ n
  unfolding asked answers
  asked-answers zero w = omega arith
  asked-answers (suc n) w = ground (arith, asked-answers n (inner w).1)

  -- `complete` returns the first answer that is a success, a validation error or a cancellation,
  -- and where none of `max_attempts` answers is, the last one. It asks no more often than that
  -- takes, and counts each time, if the 32-bit counter does not run over.
  pub complete-decisive :
      (k : Counters) (w : World)
      → k.attempts + policy.max_attempts < 2 ^ 32
      → let x = complete grow policy (some inner) k w in
        let got = answers inner policy.max_attempts w in
        (x.result
          ≡ decisive
              (fail (record { kind = internal; message = txt "default-constructed Result" }))
              got)
        × (x.counters.attempts ≡ k.attempts + asked got)
        × (asked got ≤ policy.max_attempts)
  unfolding complete
  complete-decisive k w lt =
      let (result, counted) =
        attempts_from-decisive policy.max_attempts 0 policy.initial_backoff
          (fail (record { kind = internal; message = txt "default-constructed Result" })) k w
          (omega arith) lt in
      let got = answers inner policy.max_attempts w in
      (
        result ∙ last_of-decisive _ got,
        counted ∙ ap (λ n. k.attempts + n) (tries-asked got),
        asked-answers policy.max_attempts w,
      )

  -- `complete` waits once for each retry, at most `max_attempts - 1` times, and never longer than
  -- the greater of the first and the greatest waiting time of the policy.
  pub complete-sleeps :
      (k : Counters) (w : World)
      → k.retries + policy.max_attempts < 2 ^ 32
      → let x = complete grow policy (some inner) k w in
        All (λ s. s ≤ max policy.initial_backoff policy.max_backoff) x.sleeps
        × (x.counters.retries ≡ k.retries + length x.sleeps)
        × (length x.sleeps ≤ policy.max_attempts - 1)
  unfolding complete
  complete-sleeps k w lt =
      attempts_from-sleeps policy.max_attempts 0 policy.initial_backoff
        (fail (record { kind = internal; message = txt "default-constructed Result" })) k w
        (omega arith) lt (omega arith)
