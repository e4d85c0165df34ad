-- ===== src/Cache/Validity.antt =====
-- When `get` returns a value, and what one invalidation does.
use g.Base.{
  ℕ, ◌≡◌, ◌≢◌, ◌↔◌, refl, sym, subst, Bool, true, false, List, [], ◌∷◌, none, some, Str, str_eq,
  str_eq_iff, str_eq_refl, Map, lookup, insert, lookup-insert, lookup-insert_self, arith, inl, inr,
  Option-cases, Bool-cases,
}
use g.Cache.{Cache, CacheEntry, stamp, same_deps, versions_match, is_valid, put, get}
use g.Cache.Stamps.{IsCurrent, versions_match-IsCurrent, IsCurrent-versions_match, stamp-IsCurrent}

same_deps→eq : (cs ds : List Str) → same_deps cs ds ≡ true → cs ≡ ds
unfolding same_deps
same_deps→eq [] [] h = refl
same_deps→eq [] (d ∷ ds) h = cc
same_deps→eq (c ∷ cs) [] h = cc
same_deps→eq (c ∷ cs) (d ∷ ds) h = ground (arith, h, str_eq_iff c d, same_deps→eq cs ds)

same_deps_refl : (ds : List Str) → same_deps ds ds ≡ true
unfolding same_deps
same_deps_refl [] = refl
same_deps_refl (d ∷ ds) = ground (arith, str_eq_refl d, same_deps_refl ds)

module _ {V : Type 0} where
  -- What `get` promises: the entry is there, cacheable, made for these dependencies, and none of
  -- them has a new version.
  pub record Serves (c : Cache V) (key : Str) (current : List Str) (v : V) (e : CacheEntry V)
      : Type 0 where
    pub found : lookup key c.entries ≡ some e
    pub value : e.value ≡ v
    pub cacheable : e.cacheable ≡ true
    pub deps : current ≡ e.dependencies
    pub versions : IsCurrent c.dep_versions e.dep_versions

  is_valid-true :
      (c : Cache V) (e : CacheEntry V) (current : List Str)
      → is_valid c e current ≡ true
      → (e.cacheable ≡ true)
        × (same_deps current e.dependencies ≡ true)
        × (versions_match c.dep_versions e.dep_versions ≡ true)
  unfolding is_valid
  is_valid-true c e current h = ground arith

  get-Serves :
      (c : Cache V) (key : Str) (current : List Str) (v : V)
      → (get key current c).0 ≡ some v
      → (e : CacheEntry V) × Serves c key current v e
  unfolding get
  get-Serves c key current v h = elim (Option-cases (lookup key c.entries)) [
    | inl e ↦ cc (rw (get, e) at h)
    | inr (x, e) ↦
        let valid : is_valid c x current ≡ true = ground (arith, h, e) in
        let (on, same, match) = is_valid-true c x current valid in
        (
          x,
          record {
            found = e;
            value = ground (arith, h, e);
            cacheable = on;
            deps = same_deps→eq current x.dependencies same;
            versions = IsCurrent-versions_match c.dep_versions x.dep_versions match;
          },
        )
  ]

  Serves-get :
      (c : Cache V) (key : Str) (current : List Str) (v : V) (e : CacheEntry V)
      → Serves c key current v e
      → (get key current c).0 ≡ some v
  unfolding get is_valid
  Serves-get c key current v e s = ground (
    arith,
    s.found,
    s.value,
    s.cacheable,
    s.deps,
    same_deps_refl current,
    versions_match-IsCurrent c.dep_versions e.dep_versions s.versions,
  )

  -- the entry that `put` leaves
  pub put-entry :
      (key : Str) (v : V) (deps : List Str) (b : Bool) (c : Cache V)
      → (e : CacheEntry V) × (lookup key (put key v deps b c).entries ≡ some e)
        × (e.value ≡ v)
        × (e.dependencies ≡ deps)
        × (e.dep_versions ≡ (stamp deps c.dep_versions []).1)
        × (e.cacheable ≡ b)
  unfolding put
  put-entry key v deps b c = elim (Option-cases (lookup key c.entries)) [
    | inl e ↦ rw (put, e) (_, lookup-insert_self key _ c.entries, refl, refl, refl, refl)
    | inr (x, e) ↦ rw (put, e) (_, lookup-insert_self key _ c.entries, refl, refl, refl, refl)
  ]

  pub put-versions :
      (key : Str) (v : V) (deps : List Str) (b : Bool) (c : Cache V)
      → (put key v deps b c).dep_versions ≡ (stamp deps c.dep_versions []).0
  unfolding put
  put-versions key v deps b c = ground arith

  -- `get` returns a value exactly when the cache holds a cacheable entry with that value, made for
  -- the same list of dependencies, each of which still has the version stamped on the entry.
  pub get_iff :
      (c : Cache V) (key : Str) (current : List Str) (v : V)
      → ((get key current c).0 ≡ some v) ↔ ((e : CacheEntry V) × Serves c key current v e)
  get_iff c key current v = (get-Serves c key current v, λ p. Serves-get c key current v p.0 p.1)

  -- A cacheable result that was put is returned for its dependencies.
  pub get-put :
      (key : Str) (v : V) (deps : List Str) (c : Cache V)
      → (get key deps (put key v deps true c)).0 ≡ some v
  get-put key v deps c =
      let (e, found, value, same, own, on) = put-entry key v deps true c in
      (get_iff (put key v deps true c) key deps v).1 (
        e,
        record {
          found = found;
          value = value;
          cacheable = on;
          deps = sym same;
          versions =
              subst (λ m. IsCurrent m e.dep_versions) (sym (put-versions key v deps true c))
                (subst (IsCurrent (stamp deps c.dep_versions []).0) (sym own)
                  (stamp-IsCurrent deps c.dep_versions [] tt));
        },
      )

-- A changed version is noticed, whichever of the stamped ones it is.
pub versions_match-stale :
    (versions own : Map ℕ) (d : Str) (n m : ℕ)
    → lookup d own ≡ some n
    → lookup d versions ≡ some m
    → n ≢ m
    → versions_match versions own ≡ false
unfolding versions_match lookup
versions_match-stale versions [] d n m p q ne = cc
versions_match-stale versions ((j, k) ∷ own) d n m p q ne = elim (Bool-cases (str_eq j d)) [
  | inl same ↦
      let e : j ≡ d = (str_eq_iff j d).0 same in
      let e' : lookup j versions ≡ some m = rw e q in
      rw (e', versions_match) (ground (arith, p, same, ne))
  | inr other ↦
      let ih = versions_match-stale versions own d n m (ground (arith, p, other)) q ne in
      ground (arith, ih)
]

-- A dependency that is not stamped does not matter.
pub versions_match-insert_other :
    (versions own : Map ℕ) (d : Str) (n : ℕ)
    → lookup d own ≡ none
    → versions_match (insert d n versions) own ≡ versions_match versions own
unfolding versions_match lookup
versions_match-insert_other versions [] d n h = refl
versions_match-insert_other versions ((j, k) ∷ own) d n h = ground (
  arith,
  h,
  lookup-insert j d n versions,
  str_eq_iff j d,
  str_eq_iff d j,
  versions_match-insert_other versions own d n,
)
