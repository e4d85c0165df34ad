-- ===== src/Cache/History.antt =====
-- Histories of cache operations: what was invalidated is not served again before it is put anew.
use g.Base.{
  ℕ, ◌+◌, ◌^◌, ◌≤◌, ◌<◌, ◌≡◌, refl, sym, ap, ◌∙◌, subst, Bool, true, false, List, [], ◌∷◌, none,
  some, Str, str_eq, str_eq_iff, str_eq_refl, lookup, insert, lookup-insert, if◌then◌else◌, arith,
  inl, inr, Option-cases, length, succ64, succ64-eq, All,
}
use g.Cache.{Cache, CacheEntry, stamp, is_valid, put, get, invalidate_dependency, clear}
use g.Cache.Stamps.{
  stamp-IsCurrent, IsCurrent-lookup, mentions, stamp-mentions, stamp-keeps, IsBounded,
  insert-IsBounded, stamp-IsBounded,
}
use g.Cache.Validity.{put-entry, put-versions, versions_match-stale}

-- the operations of other callers
pub data Op (V : Type 0) : Type 0 where
  puts : Str → V → List Str → Bool → Op V
  gets : Str → List Str → Op V
  invalidates : Str → Op V
  clears : Op V

module _ {V : Type 0} where
  pub step : Op V → Cache V → Cache V
  step (puts key v deps b) c = put key v deps b c
  step (gets key deps) c = (get key deps c).1
  step (invalidates d) c = invalidate_dependency d c
  step clears c = clear c

  pub run : List (Op V) → Cache V → Cache V
  run [] c = c
  run (o ∷ os) c = run os (step o c)

  -- The operation does not put this key.
  abbrev pub Spares : Str → Op V → Type 0
  Spares key (puts k v deps b) = str_eq k key ≡ false
  Spares key _ = Unit

  -- An entry under the key, if there is one, has the dependency, whose version has grown by `gap` since.
  pub record IsBehind (gap : ℕ) (d key : Str) (c : Cache V) : Type 0 where
    pub behind :
        (e : CacheEntry V)
        → lookup key c.entries ≡ some e
        → (n : ℕ) × (m : ℕ) × (lookup d e.dep_versions ≡ some n)
          × (lookup d c.dep_versions ≡ some m)
          × (n + gap ≤ m)

  get-IsBehind :
      (d key : Str) (current : List Str) (c : Cache V)
      → IsBehind 1 d key c
      → (get key current c).0 ≡ none
  unfolding get is_valid
  get-IsBehind d key current c s = elim (Option-cases (lookup key c.entries)) [
    | inl e ↦ rw (get, e) refl
    | inr (x, e) ↦
        let (n, m, p, q, lt) = s.behind x e in
        let off =
          versions_match-stale c.dep_versions x.dep_versions d n m p q (λ eq. omega arith) in
        rw (get, e) (ground (arith, off))
  ]

  entries-get :
      (key : Str) (current : List Str) (c : Cache V) → (get key current c).1.entries ≡ c.entries
  unfolding get
  entries-get key current c = ground arith

  versions-get :
      (key : Str) (current : List Str) (c : Cache V)
      → (get key current c).1.dep_versions ≡ c.dep_versions
  unfolding get
  versions-get key current c = ground arith

  put_other :
      (k key : Str) (v : V) (deps : List Str) (b : Bool) (c : Cache V)
      → str_eq k key ≡ false
      → lookup key (put k v deps b c).entries ≡ lookup key c.entries
  unfolding put
  put_other k key v deps b c ne = elim (Option-cases (lookup k c.entries)) [
    | inl e ↦ rw (put, e) (lookup-insert key k _ c.entries ∙ rw ne refl)
    | inr (x, e) ↦ rw (put, e) (lookup-insert key k _ c.entries ∙ rw ne refl)
  ]

  invalidate-lookup :
      (d j : Str) (m : ℕ) (c : Cache V)
      → lookup j c.dep_versions ≡ some m
      → lookup j (invalidate_dependency d c).dep_versions
        ≡ some (if str_eq d j then succ64 m else m)
  unfolding invalidate_dependency
  invalidate-lookup d j m c h = elim (Option-cases (lookup d c.dep_versions)) [
    | inl e ↦ ground (arith, h, e, str_eq_iff d j, lookup-insert j d 1 c.dep_versions)
    | inr (k, e) ↦ ground (arith, h, e, str_eq_iff d j, lookup-insert j d (succ64 k) c.dep_versions)
  ]

  pub entries-invalidate : (d : Str) (c : Cache V) → (invalidate_dependency d c).entries ≡ c.entries
  unfolding invalidate_dependency
  entries-invalidate d c = ground arith

  lookup-clear : (key : Str) (c : Cache V) → lookup key (clear c).entries ≡ none
  unfolding clear lookup
  lookup-clear key c = refl

  versions-clear : (d : Str) (c : Cache V) → lookup d (clear c).dep_versions ≡ none
  unfolding clear lookup
  versions-clear d c = refl

  step-IsBehind :
      (gap : ℕ) (d key : Str) (o : Op V) (b : ℕ) (c : Cache V)
      → Spares key o
      → IsBounded b c.dep_versions
      → b + 1 < 2 ^ 64
      → IsBehind gap d key c
      → IsBehind gap d key (step o c)
  unfolding step
  step-IsBehind gap d key (puts k v deps on) b c ne bound lt s = record {
    behind = λ e h.
        let (n, m, p, q, less) = s.behind e (sym (put_other k key v deps on c ne) ∙ h) in
        (
          n,
          m,
          p,
          ap (lookup d) (put-versions k v deps on c) ∙ stamp-keeps deps c.dep_versions [] d m q,
          less,
        );
  }
  step-IsBehind gap d key (gets k deps) b c ne bound lt s = record {
    behind = λ e h.
        let (n, m, p, q, less) = s.behind e (sym (ap (lookup key) (entries-get k deps c)) ∙ h) in
        (n, m, p, ap (lookup d) (versions-get k deps c) ∙ q, less);
  }
  step-IsBehind gap d key (invalidates j) b c ne bound lt s = record {
    behind = λ e h.
        let (n, m, p, q, less) = s.behind e (sym (ap (lookup key) (entries-invalidate j c)) ∙ h) in
        let le = bound.bound d m q in
        let grown = succ64-eq m (omega arith) in
        (n, if str_eq j d then succ64 m else m, p, invalidate-lookup j d m c q, ground arith);
  }
  step-IsBehind gap d key clears b c ne bound lt s = record {
    behind = λ e h. cc (h, lookup-clear key c);
  }

  pub invalidate-insert :
      (d : Str) (c : Cache V)
      → (k : ℕ) × ((invalidate_dependency d c).dep_versions ≡ insert d k c.dep_versions)
  unfolding invalidate_dependency
  invalidate-insert d c = elim (Option-cases (lookup d c.dep_versions)) [
    | inl e ↦ (1, rw (e, invalidate_dependency) refl)
    | inr (n, e) ↦ (succ64 n, rw (e, invalidate_dependency) refl)
  ]

  invalidate-IsBounded :
      (d : Str) (b : ℕ) (c : Cache V)
      → b + 1 < 2 ^ 64
      → IsBounded b c.dep_versions
      → IsBounded (b + 1) (invalidate_dependency d c).dep_versions
  unfolding invalidate_dependency
  invalidate-IsBounded d b c lt v =
      let wide : IsBounded (b + 1) c.dep_versions = record {
        bound = λ j n h. omega (arith, v.bound j n h);
      } in
      elim (Option-cases (lookup d c.dep_versions)) [
        | inl e ↦
            rw (e, invalidate_dependency)
              (insert-IsBounded (b + 1) d 1 c.dep_versions (omega arith) wide)
        | inr (n, e) ↦
            rw (e, invalidate_dependency)
              (insert-IsBounded (b + 1) d (succ64 n) c.dep_versions
                (omega (arith, v.bound d n e, succ64-eq n (omega (arith, v.bound d n e)))) wide)
      ]

  step-IsBounded :
      (o : Op V) (b : ℕ) (c : Cache V)
      → 1 ≤ b
      → b + 1 < 2 ^ 64
      → IsBounded b c.dep_versions
      → IsBounded (b + 1) (step o c).dep_versions
  unfolding step
  step-IsBounded (puts k v deps on) b c le lt bound = record {
    bound = λ d n h. omega (
      arith,
      (stamp-IsBounded deps b c.dep_versions [] le bound).bound d n
          (sym (ap (lookup d) (put-versions k v deps on c)) ∙ h),
    );
  }
  step-IsBounded (gets k deps) b c le lt bound = record {
    bound =
        λ d n h. omega (arith, bound.bound d n (sym (ap (lookup d) (versions-get k deps c)) ∙ h));
  }
  step-IsBounded (invalidates d) b c le lt bound = invalidate-IsBounded d b c lt bound
  step-IsBounded clears b c le lt bound = record { bound = λ d n h. cc (h, versions-clear d c) }

  run-IsBehind :
      (gap : ℕ) (d key : Str) (os : List (Op V)) (b : ℕ) (c : Cache V)
      → All (Spares key) os
      → 1 ≤ b
      → b + length os < 2 ^ 64
      → IsBounded b c.dep_versions
      → IsBehind gap d key c
      → IsBehind gap d key (run os c) × IsBounded (b + length os) (run os c).dep_versions
  unfolding run
  run-IsBehind gap d key [] b c sp le lt bound s =
      (s, subst (λ n. IsBounded n c.dep_versions) (omega arith) bound)
  run-IsBehind gap d key (o ∷ os) b c sp le lt bound s =
      let (held, kept) =
        run-IsBehind gap d key os (b + 1) (step o c) sp.1 (omega arith) (omega arith)
          (step-IsBounded o b c le (omega arith) bound)
          (step-IsBehind gap d key o b c sp.0 bound (omega arith) s) in
      (held, subst (λ n. IsBounded n (run os (step o c)).dep_versions) (omega arith) kept)

  -- An entry that was put has its dependencies at their versions.
  put-IsBehind :
      (key : Str) (v : V) (deps : List Str) (on : Bool) (d : Str) (c : Cache V)
      → mentions d deps ≡ true
      → IsBehind 0 d key (put key v deps on c)
  put-IsBehind key v deps on d c m = record {
    behind = λ e h.
        let (x, found, _, _, own, _) = put-entry key v deps on c in
        let (n, p) = stamp-mentions deps c.dep_versions d m in
        let now =
          ap (lookup d) (put-versions key v deps on c)
          ∙ IsCurrent-lookup (stamp deps c.dep_versions []).0 (stamp deps c.dep_versions []).1 d n
              (stamp-IsCurrent deps c.dep_versions [] tt) p in
        let same : e.dep_versions ≡ (stamp deps c.dep_versions []).1 = cc (found, h, own) in
        (n, n, ap (lookup d) same ∙ p, now, omega arith);
  }

  invalidate-IsBehind :
      (d key : Str) (b : ℕ) (c : Cache V)
      → b + 1 < 2 ^ 64
      → IsBounded b c.dep_versions
      → IsBehind 0 d key c
      → IsBehind 1 d key (invalidate_dependency d c)
  invalidate-IsBehind d key b c lt bound s = record {
    behind = λ e h.
        let (n, m, p, q, le) = s.behind e (sym (ap (lookup key) (entries-invalidate d c)) ∙ h) in
        let top = bound.bound d m q in
        (
          n,
          succ64 m,
          p,
          invalidate-lookup d d m c q ∙ simp str_eq_refl,
          omega (arith, le, succ64-eq m (omega arith)),
        );
  }

  -- Once a dependency of an entry is invalidated, no later `get` returns the entry, whatever other
  -- puts, gets, invalidations and clears come before and after the invalidation, as long as its own
  -- key is not put again. The condition on `b`, a bound on the versions so far, keeps the counters
  -- from wrapping around.
  pub get_invalidated :
      (key : Str) (v : V) (deps current : List Str) (on : Bool) (d : Str)
      (before after : List (Op V)) (b : ℕ) (c : Cache V)
      → mentions d deps ≡ true
      → All (Spares key) before
      → All (Spares key) after
      → 1 ≤ b
      → IsBounded b c.dep_versions
      → b + 2 + length before + length after < 2 ^ 64
      → (get key current (run after (invalidate_dependency d (run before (put key v deps on c))))).0
        ≡ none
  get_invalidated key v deps current on d before after b c m sb sa le bound lt =
      let at_put = step-IsBounded (puts key v deps on) b c le (omega arith) bound in
      let start : IsBounded (b + 1) (put key v deps on c).dep_versions = unfold step in at_put in
      let (held, top) =
        run-IsBehind 0 d key before (b + 1) (put key v deps on c) sb (omega arith) (omega arith)
          start (put-IsBehind key v deps on d c m) in
      let old = run before (put key v deps on c) in
      get-IsBehind d key current _
        (run-IsBehind 1 d key after (b + 1 + length before + 1) (invalidate_dependency d old) sa
          (omega arith) (omega arith)
          (invalidate-IsBounded d (b + 1 + length before) old (omega arith) top)
          (invalidate-IsBehind d key (b + 1 + length before) old (omega arith) top held)).0
