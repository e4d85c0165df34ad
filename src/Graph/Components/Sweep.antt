-- ===== src/Graph/Components/Sweep.antt =====
-- What one round of the search marks and queues.
use g.Base.{
  ℕ, zero, suc, ◌+◌, ◌≤◌, ◌<◌, ◌≡◌, refl, ap, ◌∙◌, Bool, true, false, not, ◌&&◌, ◌||◌, List, [],
  ◌∷◌, count, count-append, length, length-append, length-set, set, ltb, leb, ◌==◌, if◌then◌else◌,
  Bool-cases, arith, inl, inr,
}
use g.Graph.Components.{Walk, seen, meet, sweep}

abbrev pub bit : Bool → ℕ
bit true = 1
bit false = 0

-- how many calls are not visited yet
abbrev pub unseen : List Bool → ℕ
unseen [] = 0
unseen (true ∷ vs) = unseen vs
unseen (false ∷ vs) = suc (unseen vs)

pub seen-set :
    (vs : List Bool) (i w : ℕ)
    → i < length vs
    → seen (set vs i true) w ≡ (if w == i then true else seen vs w)
seen-set [] i w h = absurd (omega arith)
seen-set (b ∷ vs) zero zero h = refl
seen-set (b ∷ vs) zero (suc w) h = ground arith
seen-set (b ∷ vs) (suc i) zero h = ground arith
seen-set (b ∷ vs) (suc i) (suc w) h = ground (arith, seen-set vs i w (omega arith))

pub unseen-set :
    (vs : List Bool) (i : ℕ)
    → i < length vs
    → seen vs i ≡ false
    → suc (unseen (set vs i true)) ≡ unseen vs
unseen-set [] i h e = absurd (omega arith)
unseen-set (b ∷ vs) zero h e = ground arith
unseen-set (true ∷ vs) (suc i) h e = unseen-set vs i (omega arith) e
unseen-set (false ∷ vs) (suc i) h e = ap suc (unseen-set vs i (omega arith) e)

module _ (conflict : ℕ → ℕ → Bool) where
  abbrev is_new : ℕ → Walk → ℕ → ℕ → ℕ → Bool
  is_new v s i left w = not (seen s.visited w) && ((leb i w && ltb w (i + left)) && conflict v w)

  -- What the loop from `i` over `left` calls does: it marks and queues the calls of that range
  -- that conflict with `v` and are not visited, each once.
  pub record IsSwept (v : ℕ) (s : Walk) (i left : ℕ) (t : Walk) : Type 0 where
    pub size : length t.visited ≡ length s.visited
    pub comp : t.comp ≡ s.comp
    pub marks : (w : ℕ) → seen t.visited w ≡ seen s.visited w || is_new v s i left w
    pub queued : (w : ℕ) → count w t.queue ≡ count w s.queue + bit (is_new v s i left w)
    pub work : unseen t.visited + length t.queue ≡ unseen s.visited + length s.queue

  meet-IsSwept :
      (v : ℕ) (s : Walk) (i : ℕ) → i < length s.visited → IsSwept v s i 1 (meet conflict v s i)
  unfolding meet
  meet-IsSwept v s i h = elim (Bool-cases (not (seen s.visited i) && conflict v i)) [
    | inl e ↦ rw e (record {
      size = length-set s.visited i true;
      comp = refl;
      marks = λ w. ground (arith, seen-set s.visited i w h);
      queued = λ w. ground (arith, count-append w s.queue (i ∷ []));
      work = ground (arith, unseen-set s.visited i h, length-append s.queue (i ∷ []));
    })
    | inr e ↦ rw e (record {
      size = refl;
      comp = refl;
      marks = λ w. ground arith;
      queued = λ w. ground arith;
      work = refl;
    })
  ]

  pub sweep-IsSwept :
      (v left i : ℕ) (s : Walk)
      → i + left ≤ length s.visited
      → IsSwept v s i left (sweep conflict v left i s)
  unfolding sweep
  sweep-IsSwept v zero i s h = record {
    size = refl;
    comp = refl;
    marks = λ w. ground arith;
    queued = λ w. ground arith;
    work = refl;
  }
  sweep-IsSwept v (suc left) i s h =
      let one = meet-IsSwept v s i (omega arith) in
      let more = sweep-IsSwept v left (suc i) (meet conflict v s i) (omega (arith, one.size)) in
      record {
        size = more.size ∙ one.size;
        comp = more.comp ∙ one.comp;
        marks = λ w. ground (arith, one.marks w, more.marks w);
        queued = λ w. ground (arith, one.marks w, one.queued w, more.queued w);
        work = more.work ∙ one.work;
      }
