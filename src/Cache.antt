-- ===== src/Cache.antt =====
-- core/cache: results by key, each stamped with the versions of its dependencies. `V` is the type
-- of the cached JSON values. The mutex makes each operation one step.
pub mod Stamps
pub mod Validity
pub mod History
pub mod Kept
use g.Base.{
  ℕ, ◌≡◌, Bool, true, false, List, [], ◌∷◌, Option, none, some, Str, str_eq, Map, lookup, insert,
  length, ◌==◌, if◌then◌else◌, succ64, not,
}

pub record CacheEntry (V : Type 0) : Type 0 where
  pub key : Str
  pub value : V
  pub dependencies : List Str
  pub dep_versions : Map ℕ
  pub cacheable : Bool

pub record Cache (V : Type 0) : Type 0 where
  pub entries : Map (CacheEntry V)
  pub dep_versions : Map ℕ
  pub hits_per_key : Map ℕ
  pub hits : ℕ
  pub misses : ℕ

abbrev pub empty_cache : {V : Type 0} → Cache V
empty_cache = record { entries = []; dep_versions = []; hits_per_key = []; hits = 0; misses = 0 }

-- `dep_versions_` and the versions of the entry, after the loop of `put` over the dependencies: an
-- unknown dependency starts at version 1.
unfoldable pub stamp : List Str → Map ℕ → Map ℕ → Map ℕ × Map ℕ
stamp [] versions own = (versions, own)
stamp (d ∷ ds) versions own = elim (lookup d versions) [
  | none ↦ stamp ds (insert d 1 versions) (insert d 1 own)
  | some v ↦ stamp ds versions (insert d v own)
]

-- the loop over `current` and `entry.dependencies`, of one size
unfoldable pub same_deps : List Str → List Str → Bool
same_deps [] [] = true
same_deps [] (d ∷ ds) = false
same_deps (c ∷ cs) [] = false
same_deps (c ∷ cs) (d ∷ ds) = if str_eq c d then same_deps cs ds else false

-- the loop over `entry.dep_versions`
unfoldable pub versions_match : Map ℕ → Map ℕ → Bool
versions_match versions [] = true
versions_match versions ((dep, version) ∷ rest) = elim (lookup dep versions) [
  | none ↦ false
  | some now ↦ if now == version then versions_match versions rest else false
]

-- `++hits_per_key_[key]`
bump_key : Str → Map ℕ → Map ℕ
bump_key key m = elim (lookup key m) [ none ↦ insert key 1 m | some n ↦ insert key (succ64 n) m ]

module _ {V : Type 0} where
  unfoldable pub is_valid : Cache V → CacheEntry V → List Str → Bool
  is_valid c entry current =
      if not entry.cacheable
      then false
      else if not (length current == length entry.dependencies)
      then false
      else if not (same_deps current entry.dependencies)
      then false
      else versions_match c.dep_versions entry.dep_versions

  -- An entry that is there is overwritten field by field; a new one is made.
  unfoldable pub put : Str → V → List Str → Bool → Cache V → Cache V
  put key value deps cacheable c =
      let (versions, own) = stamp deps c.dep_versions [] in
      elim (lookup key c.entries) [
        | some old ↦ record c {
          entries =
              insert key
                (record old {
                  value = value;
                  dependencies = deps;
                  dep_versions = own;
                  cacheable = cacheable;
                })
                c.entries;
          dep_versions = versions;
        }
        | none ↦ record c {
          entries =
              insert key
                (record {
                  key = key;
                  value = value;
                  dependencies = deps;
                  dep_versions = own;
                  cacheable = cacheable;
                })
                c.entries;
          dep_versions = versions;
        }
      ]

  hit : Str → V → Cache V → Option V × Cache V
  unfolding bump_key
  hit key value c =
      (some value, record c { hits = succ64 c.hits; hits_per_key = bump_key key c.hits_per_key })

  miss : Cache V → Option V × Cache V
  miss c = (none, record c { misses = succ64 c.misses })

  unfoldable pub get : Str → List Str → Cache V → Option V × Cache V
  unfolding hit miss
  get key current c = elim (lookup key c.entries) [
    | none ↦ miss c
    | some entry ↦ if is_valid c entry current then hit key entry.value c else miss c
  ]

  unfoldable pub hits_for : Str → Cache V → ℕ
  hits_for key c = elim (lookup key c.hits_per_key) [ none ↦ 0 | some n ↦ n ]

  unfoldable pub invalidate_dependency : Str → Cache V → Cache V
  invalidate_dependency dep c = elim (lookup dep c.dep_versions) [
    | none ↦ record c { dep_versions = insert dep 1 c.dep_versions }
    | some n ↦ record c { dep_versions = insert dep (succ64 n) c.dep_versions }
  ]

  -- the counters stay
  unfoldable pub clear : Cache V → Cache V
  clear c = record c { entries = []; dep_versions = [] }

  -- `size()`: the number of entries; the keys of `entries` are distinct
  unfoldable pub size : Cache V → ℕ
  size c = length c.entries
