-- ===== src/SideEffects/Stamps.antt =====
-- What the difference reports.
use g.Base.{
  ℕ, ◌≡◌, refl, ◌∙◌, Bool, true, false, not, ◌&&◌, ◌||◌, List, [], ◌∷◌, ◌++◌, Option, none, some,
  Str, lookup, contains, lookup-insert, contains-lookup, str_eq, str_eq_iff, str_eq_refl, ◌==◌,
  if◌then◌else◌, arith, Bool-cases, Option-cases, inl, inr,
}
use g.SideEffects.{
  File, FileSnapshot, Snapshots, hash_file, snapshot_file, snapshot_files, snapshot, is_changed,
  changed_files, is_seen, removed_files, diff,
}

-- Does a list of paths name `p`?
pub is_listed : Str → List Str → Bool
is_listed p [] = false
is_listed p (x ∷ xs) = str_eq x p || is_listed p xs

-- the file at a path
unfoldable pub find_file : Str → List File → Option File
find_file p [] = none
find_file p (f ∷ fs) = if str_eq f.path p then some f else find_file p fs

-- No two files have one path.
abbrev pub Distinct : List File → Type 0
Distinct [] = Unit
Distinct (f ∷ fs) = (find_file f.path fs ≡ none) × Distinct fs

unfoldable pub taken : File → (ℕ × ℕ) → FileSnapshot
taken f st = record { mtime = st.0; size = st.1; hash = hash_file f.content; existed = true }

-- What a snapshot holds of the file found at a path.
unfoldable pub held : Option File → Option FileSnapshot
held none = none
held (some f) = elim (f.stamp) [ none ↦ none | some st ↦ some (taken f st) ]

-- The difference that is reported, from what was held of a path to what is there now: a file that
-- is there is reported if nothing was held, or if both its stamp and its hash are others; a file
-- whose stamp is refused is not; a path where no file is now is reported if something was held.
unfoldable pub differs : Option FileSnapshot → Option File → Bool
differs none none = false
differs (some snap) none = true
differs before (some f) = elim (f.stamp) [
  | none ↦ false
  | some st ↦ elim before [
    | none ↦ true
    | some snap ↦
        not (snap.mtime == st.0 && snap.size == st.1)
        && not (str_eq (hash_file f.content) snap.hash)
  ]
]

or_else : Option FileSnapshot → Option FileSnapshot → Option FileSnapshot
or_else none d = d
or_else (some s) d = some s

lookup-snapshot_file :
    (p : Str) (f : File) (b : Snapshots)
    → lookup p (snapshot_file f b)
      ≡ (if str_eq f.path p then or_else (held (some f)) (lookup p b) else lookup p b)
unfolding snapshot_file or_else held taken
lookup-snapshot_file p f b = elim (Option-cases (f.stamp)) [
  | inl e ↦ ground (arith, e)
  | inr (st, e) ↦ ground (arith, e, lookup-insert p f.path (taken f st) b)
]

-- A path that is found first is not found again.
find_file-Distinct :
    (p : Str) (f : File) (fs : List File)
    → Distinct (f ∷ fs)
    → str_eq f.path p ≡ true
    → find_file p fs ≡ none
find_file-Distinct p f fs d same = ground (arith, d.0, str_eq_iff f.path p)

lookup-snapshot_files :
    (p : Str) (fs : List File) (b : Snapshots)
    → Distinct fs
    → lookup p (snapshot_files fs b) ≡ or_else (held (find_file p fs)) (lookup p b)
unfolding snapshot_files or_else held find_file
lookup-snapshot_files p [] b d = refl
lookup-snapshot_files p (f ∷ fs) b d = elim (Bool-cases (str_eq f.path p)) [
  | inl e ↦
      let later = find_file-Distinct p f fs d e in
      rw (lookup-snapshot_files p fs (snapshot_file f b) d.1, lookup-snapshot_file p f b, later, e)
  | inr e ↦ rw (lookup-snapshot_files p fs (snapshot_file f b) d.1, lookup-snapshot_file p f b, e)
]

is_listed-append :
    (p : Str) (xs ys : List Str) → is_listed p (xs ++ ys) ≡ (is_listed p xs || is_listed p ys)
unfolding is_listed
is_listed-append p [] ys = refl
is_listed-append p (x ∷ xs) ys = ground (arith, is_listed-append p xs ys)

is_listed-changed_files :
    (p : Str) (b : Snapshots) (fs : List File)
    → Distinct fs
    → is_listed p (changed_files b fs)
      ≡ elim (find_file p fs) as (λ _. Bool) [ none ↦ false | some f ↦ is_changed b f ]
unfolding is_listed changed_files find_file
is_listed-changed_files p b [] d = refl
is_listed-changed_files p b (f ∷ fs) d = elim (Bool-cases (str_eq f.path p)) [
  | inl e ↦
      let later = find_file-Distinct p f fs d e in
      ground (arith, e, later, is_listed-changed_files p b fs d.1)
  | inr e ↦ ground (arith, e, is_listed-changed_files p b fs d.1)
]

is_seen-find_file :
    (p : Str) (fs : List File)
    → is_seen p fs ≡ elim (find_file p fs) as (λ _. Bool) [ none ↦ false | some f ↦ true ]
unfolding is_seen find_file
is_seen-find_file p [] = refl
is_seen-find_file p (f ∷ fs) = ground (arith, is_seen-find_file p fs)

is_listed-removed_files :
    (p : Str) (b : Snapshots) (fs : List File)
    → is_listed p (removed_files b fs) ≡ (contains p b && not (is_seen p fs))
unfolding is_listed removed_files contains
is_listed-removed_files p [] fs = refl
is_listed-removed_files p ((q, snap) ∷ b) fs =
    ground (arith, is_listed-removed_files p b fs, str_eq_iff q p)

-- `is_changed` is that difference for a file that is there.
is_changed-differs :
    (b : Snapshots) (f : File) → is_changed b f ≡ differs (lookup f.path b) (some f)
unfolding is_changed differs
is_changed-differs b f = elim (Option-cases (f.stamp)) [
  | inl e ↦ rw (is_changed, e) refl
  | inr (st, e) ↦ elim (Option-cases (lookup f.path b)) [
    | inl g ↦ ground (arith, e, g)
    | inr (snap, g) ↦ ground (arith, e, g)
  ]
]

find_file-path :
    (p : Str) (fs : List File) (f : File) → find_file p fs ≡ some f → str_eq f.path p ≡ true
unfolding find_file
find_file-path p [] f e = cc
find_file-path p (g ∷ fs) f e = elim (Bool-cases (str_eq g.path p)) [
  | inl h ↦ ground (arith, e, h)
  | inr h ↦ find_file-path p fs f (rw (h) at e)
]

-- The first loop alone, and the second where the path is not seen.
is_listed-diff :
    (p : Str) (s : Snapshots) (new : List File)
    → Distinct new
    → is_listed p (diff s new) ≡ differs (lookup p s) (find_file p new)
unfolding diff differs
is_listed-diff p s new e =
    let split = is_listed-append p (changed_files s new) (removed_files s new) in
    let now = is_listed-changed_files p s new e in
    let gone = is_listed-removed_files p s new in
    let seen = is_seen-find_file p new in
    let was = contains-lookup p s in
    elim (Option-cases (find_file p new)) [
      | inl g ↦ elim (Option-cases (lookup p s)) [
        | inl h ↦ rw (split, now, gone, seen, was, g, h, differs) refl
        | inr (snap, h) ↦ rw (split, now, gone, seen, was, g, h, differs) refl
      ]
      | inr (f, g) ↦
          let here = (str_eq_iff f.path p).0 (find_file-path p new f g) in
          let change = is_changed-differs s f in
          ground (arith, split, now, gone, seen, g, here, change)
    ]

lookup-snapshot :
    (p : Str) (fs : List File)
    → Distinct fs
    → lookup p (snapshot_files fs []) ≡ held (find_file p fs)
unfolding or_else lookup
lookup-snapshot p fs d = elim (Option-cases (held (find_file p fs))) [
  | inl h ↦ rw (lookup-snapshot_files p fs [] d, h) refl
  | inr (snap, h) ↦ rw (lookup-snapshot_files p fs [] d, h) refl
]

-- What `diff` reports on the tree `new`, after a snapshot of the tree `old`, path by path, where no
-- tree has two files of one path.
pub diff-snapshot :
    (p : Str) (old new : List File) (b : Snapshots)
    → Distinct old
    → Distinct new
    → is_listed p (diff (snapshot old b) new) ≡ differs (held (find_file p old)) (find_file p new)
unfolding snapshot
diff-snapshot p old new b d e =
    rw (is_listed-diff p (snapshot old b) new e, lookup-snapshot p old d) refl

-- Two files are the same to `stat`.
abbrev pub SameStamps : List File → List File → Type 0
SameStamps [] [] = Unit
SameStamps (f ∷ fs) (g ∷ gs) = (f.path ≡ g.path) × (f.stamp ≡ g.stamp) × SameStamps fs gs
SameStamps [] (g ∷ gs) = ⊥
SameStamps (f ∷ fs) [] = ⊥

stamps-at :
    (p : Str) (old new : List File)
    → SameStamps old new
    → differs (held (find_file p old)) (find_file p new) ≡ false
unfolding differs held find_file taken
stamps-at p [] [] same = refl
stamps-at p (f ∷ fs) (g ∷ gs) same = elim (Bool-cases (str_eq g.path p)) [
  | inl e ↦ elim (Option-cases (g.stamp)) [
    | inl h ↦ rw (same.0, same.1, e, h) refl
    | inr (st, h) ↦ rw (same.0, same.1, e, h) (ground arith)
  ]
  | inr e ↦ rw (same.0, e) (stamps-at p fs gs same.2)
]
stamps-at p [] (g ∷ gs) same = absurd same
stamps-at p (f ∷ fs) [] same = absurd same

nothing_listed : (xs : List Str) → ((p : Str) → is_listed p xs ≡ false) → xs ≡ []
unfolding is_listed
nothing_listed [] h = refl
nothing_listed (x ∷ xs) h = ground (arith, h x, str_eq_refl x)

-- A tree whose paths, times and sizes are those of the snapshot, in the same order of the walk,
-- is reported unchanged, whatever the contents of its files: a write that keeps a file's time and
-- size is not seen. No tree has two files of one path.
pub diff-SameStamps :
    (old new : List File) (b : Snapshots)
    → Distinct old
    → Distinct new
    → SameStamps old new
    → diff (snapshot old b) new ≡ []
diff-SameStamps old new b d e same =
    nothing_listed (diff (snapshot old b) new)
      (λ p. diff-snapshot p old new b d e ∙ stamps-at p old new same)
