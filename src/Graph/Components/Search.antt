-- ===== src/Graph/Components/Search.antt =====
-- One search: it ends, and what it finds is a component.
use g.Base.{
  ℕ, zero, suc, ◌+◌, ◌≤◌, ◌<◌, ◌≡◌, refl, ap, ◌∙◌, subst, Bool, true, false, List, [], ◌∷◌, ◌++◌,
  count, count-append, length, length-set, set, ltb, ltb→lt, ◌==◌, ==_iff, Bool-cases, List-cases,
  arith, inl, inr,
}
use g.Graph.Components.{Walk, seen, sweep, round, empty_queue}
use g.Graph.Components.Sweep.{bit, unseen, seen-set, unseen-set, sweep-IsSwept}

-- A chain of conflicts leads from one call to the other.
pub data Linked (conflict : ℕ → ℕ → Bool) (a : ℕ) : ℕ → Type 0 where
  here : Linked conflict a a
  next : {b c : ℕ} → Linked conflict a b → conflict b c ≡ true → Linked conflict a c

module _ (conflict : ℕ → ℕ → Bool) (conflict_comm : (a b : ℕ) → conflict a b ≡ conflict b a) where
  join : {a b c : ℕ} → Linked conflict a b → Linked conflict b c → Linked conflict a c
  join p here = p
  join p (next q e) = next (join p q) e

  turn : {a b : ℕ} → Linked conflict a b → Linked conflict b a
  turn here = here
  turn (next {b} {c} p e) = join (next here (conflict_comm c b ∙ e)) (turn p)

-- A component holds every call that conflicts with one of its members, and a chain of conflicts
-- links each two of them.
pub record IsComponent (conflict : ℕ → ℕ → Bool) (c : List ℕ) : Type 0 where
  pub closed : (a b : ℕ) → 0 < count a c → conflict a b ≡ true → 0 < count b c
  pub linked : (a b : ℕ) → 0 < count a c → 0 < count b c → Linked conflict a b
  pub nonempty : (a : ℕ) × (0 < count a c)

-- `visited` is closed under conflicts.
pub record IsClosed (conflict : ℕ → ℕ → Bool) (visited : List Bool) : Type 0 where
  pub keeps : (a b : ℕ) → seen visited a ≡ true → conflict a b ≡ true → seen visited b ≡ true

-- A search from `seed`: what is visited is what was visited before, the component and the queue.
record IsWalk (conflict : ℕ → ℕ → Bool) (n seed : ℕ) (before : List Bool) (s : Walk) : Type 0 where
  size : length s.visited ≡ n
  tally :
      (w : ℕ) → bit (seen s.visited w) ≡ bit (seen before w) + (count w s.comp + count w s.queue)
  swept : (a b : ℕ) → 0 < count a s.comp → conflict a b ≡ true → seen s.visited b ≡ true
  reached : (a : ℕ) → 0 < count a s.comp + count a s.queue → Linked conflict seed a
  source : 0 < count seed s.comp + count seed s.queue

abbrev pub start_at : List Bool → ℕ → Walk
start_at before seed = record { visited = set before seed true; queue = seed ∷ []; comp = [] }

-- What a search from `seed` leaves, with `before` visited before it.
pub record IsSearched (conflict : ℕ → ℕ → Bool) (n seed : ℕ) (before : List Bool) (s : Walk)
    : Type 0 where
  pub component : IsComponent conflict s.comp
  pub closed : IsClosed conflict s.visited
  pub size : length s.visited ≡ n
  pub tally : (w : ℕ) → bit (seen s.visited w) ≡ bit (seen before w) + count w s.comp
  pub seeded : seen s.visited seed ≡ true

unseen-bound : (vs : List Bool) → unseen vs ≤ length vs
unseen-bound [] = omega arith
unseen-bound (true ∷ vs) = omega (arith, unseen-bound vs)
unseen-bound (false ∷ vs) = omega (arith, unseen-bound vs)

module _ (conflict : ℕ → ℕ → Bool) (conflict_comm : (a b : ℕ) → conflict a b ≡ conflict b a) (n : ℕ)
    (bounded : (a b : ℕ) → conflict a b ≡ true → b < n) where
  round-IsWalk :
      (seed : ℕ) (before : List Bool) (v : ℕ) (rest : List ℕ) (s : Walk)
      → s.queue ≡ v ∷ rest
      → IsWalk conflict n seed before s
      → IsWalk conflict n seed before (round conflict n v rest s)
        × (suc (
              unseen (round conflict n v rest s).visited + length (round conflict n v rest s).queue)
            ≡ unseen s.visited + length s.queue)
  unfolding round
  round-IsWalk seed before v rest s e h =
      let popped : Walk = record s { queue = rest; comp = s.comp ++ v ∷ [] } in
      let sw = sweep-IsSwept conflict v n 0 popped (omega (arith, h.size)) in
      let t = sweep conflict v n 0 popped in
      let comps = λ (a : ℕ). ap (count a) sw.comp ∙ count-append a s.comp (v ∷ []) in
      let waits = λ (a : ℕ). ap (count a) e in
      (
        record {
          size = sw.size ∙ h.size;
          tally = λ w. ground (arith, sw.marks w, sw.queued w, comps w, waits w, h.tally w);
          swept = λ a b m c. elim (Bool-cases (a == v)) [
            | inl q ↦
                ground (arith, sw.marks b, ap (λ x. conflict x b) ((==_iff a v).0 q), bounded a b c)
            | inr q ↦ ground (arith, sw.marks b, comps a, h.swept a b)
          ];
          reached = λ a m. elim (Bool-cases (ltb 0 (count a s.comp + count a s.queue))) [
            | inl q ↦ h.reached a (ltb→lt 0 _ q)
            | inr q ↦
                next (h.reached v (ground (arith, waits v)))
                  (ground (arith, sw.queued a, comps a, waits a))
          ];
          source = ground (arith, sw.queued seed, comps seed, waits seed, h.source);
        },
        ground (arith, sw.work, ap length e),
      )

  empty_queue-over : (s : Walk) → empty_queue conflict n 0 s ≡ s
  unfolding empty_queue
  empty_queue-over s = refl

  empty_queue-idle : (fuel : ℕ) (s : Walk) → s.queue ≡ [] → empty_queue conflict n (suc fuel) s ≡ s
  unfolding empty_queue
  empty_queue-idle fuel s e = rw e refl

  empty_queue-busy :
      (fuel v : ℕ) (rest : List ℕ) (s : Walk)
      → s.queue ≡ v ∷ rest
      → empty_queue conflict n (suc fuel) s
        ≡ empty_queue conflict n fuel (round conflict n v rest s)
  unfolding empty_queue
  empty_queue-busy fuel v rest s e = rw e refl

  -- As much fuel as calls that are not visited or wait: the search ends with an empty queue.
  empty_queue-IsWalk :
      (seed : ℕ) (before : List Bool) (fuel : ℕ) (s : Walk)
      → unseen s.visited + length s.queue ≤ fuel
      → IsWalk conflict n seed before s
      → IsWalk conflict n seed before (empty_queue conflict n fuel s)
        × ((empty_queue conflict n fuel s).queue ≡ [])
  empty_queue-IsWalk seed before zero s f h = elim (List-cases s.queue) [
    | inl e ↦ rw (empty_queue-over s) (h, e)
    | inr (v, rest, e) ↦ absurd (omega (arith, ap length e))
  ]
  empty_queue-IsWalk seed before (suc fuel) s f h = elim (List-cases s.queue) [
    | inl e ↦ rw (empty_queue-idle fuel s e) (h, e)
    | inr (v, rest, e) ↦
        let (k, less) = round-IsWalk seed before v rest s e h in
        rw (empty_queue-busy fuel v rest s e)
          (empty_queue-IsWalk seed before fuel (round conflict n v rest s) (omega arith) k)
  ]

  start_at-IsWalk :
      (seed : ℕ) (before : List Bool)
      → length before ≡ n
      → seed < n
      → seen before seed ≡ false
      → IsWalk conflict n seed before (start_at before seed)
  start_at-IsWalk seed before size h e = record {
    size = length-set before seed true ∙ size;
    tally = λ w. ground (arith, seen-set before seed w (omega arith));
    swept = λ a b m c. absurd (omega arith);
    reached = λ a m. subst (Linked conflict seed) (ground arith) here;
    source = ground arith;
  }

  done-IsComponent :
      (seed : ℕ) (before : List Bool) (s : Walk)
      → IsClosed conflict before
      → IsWalk conflict n seed before s
      → s.queue ≡ []
      → IsComponent conflict s.comp × IsClosed conflict s.visited
  done-IsComponent seed before s k h e =
      let tally =
        λ (w : ℕ). h.tally w ∙ ap (λ q. bit (seen before w) + (count w s.comp + count w q)) e in
      (
        record {
          closed = λ a b m c. ground (
            arith,
            tally a,
            tally b,
            h.swept a b,
            k.keeps b a,
            conflict_comm a b,
            Bool-cases (seen before b),
          );
          linked = λ a b p q.
              join conflict conflict_comm (turn conflict conflict_comm (h.reached a (omega arith)))
                (h.reached b (omega arith));
          nonempty = (seed, omega (arith, h.source, ap (count seed) e));
        },
        record {
          keeps = λ a b m c.
              ground
                (arith, tally a, tally b, h.swept a b, k.keeps a b, Bool-cases (seen before a));
        },
      )

  -- A search from a call that is not visited finds its component.
  pub search-IsComponent :
      (seed : ℕ) (before : List Bool)
      → length before ≡ n
      → seed < n
      → seen before seed ≡ false
      → IsClosed conflict before
      → IsSearched conflict n seed before (empty_queue conflict n n (start_at before seed))
  search-IsComponent seed before size h e k =
      let (w, over) =
        empty_queue-IsWalk seed before n (start_at before seed)
          (omega (arith, unseen-set before seed (omega arith) e, unseen-bound before))
          (start_at-IsWalk seed before size h e) in
      let (c, closed) = done-IsComponent seed before _ k w over in
      record {
        component = c;
        closed = closed;
        size = w.size;
        tally = λ x. omega (arith, w.tally x, ap (count x) over);
        seeded = ground (arith, w.tally seed, w.source);
      }
