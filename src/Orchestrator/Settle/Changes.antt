-- ===== src/Orchestrator/Settle/Changes.antt =====
-- What a change of files does to the cache.
use g.Base.{
  ◌≡◌, Bool, true, false, List, [], ◌∷◌, ◌++◌, some, Str, txt, All, List-cases, inl, inr, subst,
}
use g.Json.{JsonLib}
use g.Cache.{Cache, put, get, invalidate_dependency}
use g.Cache.Stamps.{mentions}
use g.Cache.Kept.{IsKept, IsKept-get, put-IsKept, invalidate-IsKept}
use g.Replay.{Replay}
use g.SideEffects.{Snapshots, File, diff}
use g.Orchestrator.Settle.{invalidate_paths, apply_side_effects}

-- No path is a dependency, in the form in which it is invalidated.
abbrev pub Unnamed : List Str → List Str → Type 0
Unnamed deps ps = All (λ p. mentions (txt "file:" ++ p) deps ≡ false) ps

invalidate_paths-IsKept :
    {V : Type 0} (key : Str) (deps : List Str) (v : V) (ps : List Str) (c : Cache V)
    → Unnamed deps ps
    → IsKept key deps v c
    → IsKept key deps v (invalidate_paths ps c)
unfolding invalidate_paths
invalidate_paths-IsKept key deps v [] c m k = k
invalidate_paths-IsKept key deps v (p ∷ ps) c m k =
    invalidate_paths-IsKept key deps v ps (invalidate_dependency (txt "file:" ++ p) c) m.1
      (invalidate-IsKept key deps v (txt "file:" ++ p) c m.0 k)

-- A cached result is served as before after files have changed, whichever they are, unless one of
-- its dependencies is `file:` followed by the path of a changed file. A declared resource such as
-- `file:read` is no such dependency of a file of another name.
pub get-apply_side_effects :
    (j : JsonLib) (tracked : Bool) (before : Snapshots) (tree : List File) (r : Replay j.Json)
    (key : Str) (deps : List Str) (v : j.Json) (c : Cache j.Json)
    → Unnamed deps (diff before tree)
    → (get key deps (apply_side_effects j tracked before tree (put key v deps true c) r).0).0
      ≡ some v
unfolding apply_side_effects
get-apply_side_effects j false before tree r key deps v c m =
    IsKept-get key deps v (put key v deps true c) (put-IsKept key deps v c)
get-apply_side_effects j true before tree r key deps v c m = elim (List-cases (diff before tree)) [
  | inl e ↦
      rw (apply_side_effects, e)
        (IsKept-get key deps v (put key v deps true c) (put-IsKept key deps v c))
  | inr (p, ps, e) ↦
      rw (apply_side_effects, e)
        (IsKept-get key deps v (invalidate_paths (p ∷ ps) (put key v deps true c)) (
          invalidate_paths-IsKept key deps v (p ∷ ps) (put key v deps true c)
            (subst (Unnamed deps) e m) (put-IsKept key deps v c)))
]
