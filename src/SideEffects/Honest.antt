-- ===== src/SideEffects/Honest.antt =====
-- What `diff` reports where the stamps of the files tell of every change.
use g.Base.{
  ◌≡◌, refl, ap, ◌∙◌, sym, Bool, true, false, not, ◌&&◌, ◌==◌, Option, none, some, Str, str_eq,
  str_eq_iff, Bool-cases, inl, inr, arith, List, ℕ,
}
use g.SideEffects.{File, Snapshots, snapshot, diff, hash_file}
use g.SideEffects.Stamps.{is_listed, find_file, held, taken, differs, Distinct, diff-snapshot}

-- Has a file come, or gone, or are the hashes of what it holds different?
pub has_changed : Option File → Option File → Bool
has_changed none none = false
has_changed (some f) none = true
has_changed none (some g) = true
has_changed (some f) (some g) = not (str_eq (hash_file g.content) (hash_file f.content))

abbrev pub HasStamp : Option File → Type 0
HasStamp none = Unit
HasStamp (some f) = (st : ℕ × ℕ) × (f.stamp ≡ some st)

-- The stamps can be read, and a file whose stamp is as before holds what it held.
pub record IsHonest (old new : Option File) : Type 0 where
  pub stamped_old : HasStamp old
  pub stamped_new : HasStamp new
  pub honest :
      (f g : File)
      → old ≡ some f
      → new ≡ some g
      → f.stamp ≡ g.stamp
      → hash_file f.content ≡ hash_file g.content

held-none : held none ≡ none
unfolding held
held-none = refl

held_stamped : (f : File) (st : ℕ × ℕ) → f.stamp ≡ some st → held (some f) ≡ some (taken f st)
unfolding held taken
held_stamped f st e = rw (held, e) refl

same_stamp : (a b c d : ℕ) → (a == c && b == d) ≡ true → ◌≡◌ {A = ℕ × ℕ} (a, b) (c, d)
same_stamp a b c d e =
    let p : a ≡ c = ground (arith, e) in
    let q : b ≡ d = ground (arith, e) in ap (λ x. (x, b)) p ∙ ap (λ y. (c, y)) q

differs-has_changed :
    (old new : Option File) → IsHonest old new → differs (held old) new ≡ has_changed old new
unfolding differs taken has_changed
differs-has_changed none none h = ap (λ x. differs x none) held-none
differs-has_changed none (some g) h =
    ap (λ x. differs x (some g)) held-none ∙ rw (differs, h.stamped_new.1) refl
differs-has_changed (some f) none h =
    ap (λ x. differs x none) (held_stamped f h.stamped_old.0 h.stamped_old.1)
differs-has_changed (some f) (some g) h =
    let (sf, a) = h.stamped_old in
    let (sg, b) = h.stamped_new in
    elim (Bool-cases (sf.0 == sg.0 && sf.1 == sg.1)) [
      | inl e ↦
          let same : sf ≡ sg = same_stamp sf.0 sf.1 sg.0 sg.1 e in
          let kept =
            (str_eq_iff (hash_file g.content) (hash_file f.content)).1
              (sym (h.honest f g refl refl (a ∙ ap some same ∙ sym b))) in
          ap (λ x. differs x (some g)) (held_stamped f sf a) ∙ rw (differs, b, e, kept) refl
      | inr e ↦ ap (λ x. differs x (some g)) (held_stamped f sf a) ∙ rw (differs, b, e) refl
    ]

-- After a snapshot of the tree `old`, `diff` on the tree `new` reports a path exactly if a file has
-- come there, or gone, or holds what has another hash, where no tree has two files of one path, the
-- stamps of that file can be read, and a stamp that is as before stands for content as before.
pub is_listed-diff-snapshot :
    (p : Str) (old new : List File) (b : Snapshots)
    → Distinct old
    → Distinct new
    → IsHonest (find_file p old) (find_file p new)
    → is_listed p (diff (snapshot old b) new) ≡ has_changed (find_file p old) (find_file p new)
is_listed-diff-snapshot p old new b d e h =
    diff-snapshot p old new b d e ∙ differs-has_changed (find_file p old) (find_file p new) h
