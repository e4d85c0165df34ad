-- ===== src/SideEffects.antt =====
-- core/side_effect: what a walk over the tree finds, the snapshot and the difference. The tree is
-- the list of the regular files in the order of the walk; a time is a number of ticks.
pub mod Stamps
pub mod Honest
use g.Base.{
  ℕ, Bool, true, false, ◌||◌, ◌&&◌, not, List, [], ◌∷◌, ◌++◌, Option, none, some, Str, Map, lookup,
  contains, insert, ◌==◌, if◌then◌else◌, str_eq, fnv1a, hex,
}

-- A regular file: `stamp` is its time and size, or `none` where the system refuses them, and
-- `content` is `none` where the file cannot be opened.
pub record File : Type 0 where
  pub path : Str
  pub stamp : Option (ℕ × ℕ)
  pub content : Option Str

pub record FileSnapshot : Type 0 where
  pub mtime : ℕ
  pub size : ℕ
  pub hash : Str
  pub existed : Bool

-- `SideEffectObserver`: its `before_`
abbrev pub Snapshots : Type 0
Snapshots = Map FileSnapshot

unfoldable pub hash_file : Option Str → Str
hash_file none = []
hash_file (some content) = hex 16 (fnv1a content)

-- the body of the loop of `snapshot`
unfoldable pub snapshot_file : File → Snapshots → Snapshots
snapshot_file f before = elim (f.stamp) [
  | none ↦ before
  | some (time, bytes) ↦
      insert f.path
        (record { mtime = time; size = bytes; hash = hash_file f.content; existed = true }) before
]

unfoldable pub snapshot_files : List File → Snapshots → Snapshots
snapshot_files [] before = before
snapshot_files (f ∷ fs) before = snapshot_files fs (snapshot_file f before)

-- `snapshot` clears what was held
unfoldable pub snapshot : List File → Snapshots → Snapshots
snapshot tree before = snapshot_files tree []

-- the body of the first loop of `diff`: is the file reported?
unfoldable pub is_changed : Snapshots → File → Bool
is_changed before f = elim (f.stamp) [
  | none ↦ false
  | some (time, bytes) ↦ elim (lookup f.path before) [
    | none ↦ true
    | some snap ↦
        if snap.mtime == time && snap.size == bytes
        then false
        else not (str_eq (hash_file f.content) snap.hash)
  ]
]

unfoldable pub changed_files : Snapshots → List File → List Str
changed_files before [] = []
changed_files before (f ∷ fs) =
    let rest = changed_files before fs in if is_changed before f then f.path ∷ rest else rest

-- `seen.contains(p)`
unfoldable pub is_seen : Str → List File → Bool
is_seen p [] = false
is_seen p (f ∷ fs) = str_eq f.path p || is_seen p fs

-- the second loop
unfoldable pub removed_files : Snapshots → List File → List Str
removed_files [] tree = []
removed_files ((p, snap) ∷ before) tree =
    let rest = removed_files before tree in if is_seen p tree then rest else p ∷ rest

unfoldable pub diff : Snapshots → List File → List Str
diff before tree = changed_files before tree ++ removed_files before tree

unfoldable pub clear : Snapshots → Snapshots
clear before = []

unfoldable pub has_hash : Str → Snapshots → Bool
has_hash p before = contains p before

unfoldable pub hash_of : Str → Snapshots → Option Str
hash_of p before = elim (lookup p before) [ none ↦ none | some snap ↦ some snap.hash ]
