-- ===== src/Cache/Kept.antt =====
-- What survives a series of invalidations.
use g.Base.{◌≡◌, refl, ap, ◌∙◌, true, false, List, [], none, some, Str, lookup}
use g.Cache.{Cache, CacheEntry, stamp, versions_match, put, get, invalidate_dependency}
use g.Cache.Stamps.{versions_match-IsCurrent, IsCurrent-versions_match, mentions, stamp-unmentioned}
use g.Cache.Validity.{Serves, get_iff, put-entry, versions_match-insert_other, get-put}
use g.Cache.History.{entries-invalidate, invalidate-insert}

module _ {V : Type 0} where
  -- The value is served, and its entry is stamped with nothing but its dependencies.
  pub record IsKept (key : Str) (deps : List Str) (v : V) (c : Cache V) : Type 0 where
    pub entry : CacheEntry V
    pub serves : Serves c key deps v entry
    pub unstamped : (d : Str) → mentions d deps ≡ false → lookup d entry.dep_versions ≡ none

  pub IsKept-get :
      (key : Str) (deps : List Str) (v : V) (c : Cache V)
      → IsKept key deps v c
      → (get key deps c).0 ≡ some v
  IsKept-get key deps v c k = (get_iff c key deps v).1 (k.entry, k.serves)

  pub put-IsKept :
      (key : Str) (deps : List Str) (v : V) (c : Cache V)
      → IsKept key deps v (put key v deps true c)
  put-IsKept key deps v c =
      let p = put key v deps true c in
      let (e, s) = (get_iff p key deps v).0 (get-put key v deps c) in
      let (x, found, _, _, own, _) = put-entry key v deps true c in
      let same : e.dep_versions ≡ (stamp deps c.dep_versions []).1 = cc (found, s.found, own) in
      record {
        entry = e;
        serves = s;
        unstamped = λ d m.
            ap (lookup d) same
            ∙ stamp-unmentioned deps c.dep_versions [] d m (unfold lookup in refl);
      }

  pub invalidate-IsKept :
      (key : Str) (deps : List Str) (v : V) (d : Str) (c : Cache V)
      → mentions d deps ≡ false
      → IsKept key deps v c
      → IsKept key deps v (invalidate_dependency d c)
  invalidate-IsKept key deps v d c m kept =
      let e = kept.entry in
      let s = kept.serves in
      let (k, moved) = invalidate-insert d c in
      let match = versions_match-IsCurrent c.dep_versions e.dep_versions s.versions in
      record {
        entry = e;
        serves = record {
          found = ap (lookup key) (entries-invalidate d c) ∙ s.found;
          value = s.value;
          cacheable = s.cacheable;
          deps = s.deps;
          versions =
              IsCurrent-versions_match (invalidate_dependency d c).dep_versions e.dep_versions (
                ap (λ m. versions_match m e.dep_versions) moved
                ∙ versions_match-insert_other c.dep_versions e.dep_versions d k (kept.unstamped d m)
                ∙ match);
        };
        unstamped = kept.unstamped;
      }
