-- ===== src/Replay/Observers.antt =====
-- What the observers of a run see.
use g.Base.{
  ℕ, suc, ◌≡◌, refl, sym, ap, ◌∙◌, true, false, List, [], ◌∷◌, ◌++◌, map, append-nil, append_assoc,
  ◌==◌, if◌then◌else◌, arith, count, count-append, Bool-cases, inl, inr, All, replicate,
}
use g.Replay.{Event, Replay, empty_replay, numbered, record_event, link, subscribe, replay_into}

count-cons :
    (i s : ℕ) (sinks : List ℕ)
    → count i (s ∷ sinks) ≡ (if i == s then suc (count i sinks) else count i sinks)
count-cons i s sinks = ground arith

module _ {Json : Type 0} where
  -- the events that came to observer `i`
  pub inbox : ℕ → List (ℕ × Event Json) → List (Event Json)
  inbox i [] = []
  inbox i ((j, e) ∷ rest) = let later = inbox i rest in if i == j then e ∷ later else later

  inbox-append :
      (i : ℕ) (xs ys : List (ℕ × Event Json)) → inbox i (xs ++ ys) ≡ inbox i xs ++ inbox i ys
  unfolding inbox
  inbox-append i [] ys = refl
  inbox-append i ((j, e) ∷ xs) ys = ground (arith, inbox-append i xs ys)

  inbox-map :
      (i : ℕ) (e : Event Json) (sinks : List ℕ)
      → inbox i (map (λ s. (s, e)) sinks) ≡ replicate (count i sinks) e
  unfolding inbox
  inbox-map i e [] = refl
  inbox-map i e (s ∷ sinks) = elim (Bool-cases (i == s)) [
    | inl same ↦ rw (count-cons i s sinks, same) (ap (◌∷◌ e) (inbox-map i e sinks))
    | inr other ↦ rw (count-cons i s sinks, other) (inbox-map i e sinks)
  ]

-- what callers do to a replay, `clear` apart
pub data Op (Json : Type 0) : Type 0 where
  records : Event Json → Op Json
  links : ℕ → ℕ → Op Json
  subscribes : ℕ → Op Json

module _ {Json : Type 0} where
  pub step : Op Json → Replay Json → Replay Json × List (ℕ × Event Json)
  step (records e) r = record_event e r
  step (links from to) r = (link from to r, [])
  step (subscribes s) r = (subscribe s r, [])

  -- the state after the operations, and all deliveries in order
  pub run : List (Op Json) → Replay Json → Replay Json × List (ℕ × Event Json)
  run [] r = (r, [])
  run (o ∷ os) r = let (r1, sent) = step o r in let (r2, later) = run os r1 in (r2, sent ++ later)

  -- The operation does not subscribe observer `i`.
  abbrev pub Apart : ℕ → Op Json → Type 0
  Apart i (subscribes s) = (i == s) ≡ false
  Apart i _ = Unit

  step-count :
      (i : ℕ) (o : Op Json) (r : Replay Json)
      → Apart i o
      → count i (step o r).0.sinks ≡ count i r.sinks
  unfolding step record_event link subscribe
  step-count i (records e) r a = refl
  step-count i (links from to) r a = refl
  step-count i (subscribes s) r a = ground (arith, count-append i r.sinks (s ∷ []), a)

  step-inbox :
      (i : ℕ) (o : Op Json) (r : Replay Json)
      → count i r.sinks ≡ 1
      → (step o r).0.events ≡ r.events ++ inbox i (step o r).1
  unfolding step record_event link subscribe
  step-inbox i (records e) r h =
      let d = numbered e r.last_seq in
      ap (◌++◌ r.events) (sym (inbox-map i d r.sinks ∙ ap (λ n. replicate n d) h))
  step-inbox i (links from to) r h = unfold inbox in sym (append-nil r.events)
  step-inbox i (subscribes s) r h = unfold inbox in sym (append-nil r.events)

  -- An observer that subscribed once receives every event that is recorded from then on, as it is
  -- stored and in the order of the log, whatever else subscribes or is linked meanwhile.
  pub events-run :
      (i : ℕ) (os : List (Op Json)) (r : Replay Json)
      → count i r.sinks ≡ 1
      → All (Apart i) os
      → (run os r).0.events ≡ r.events ++ inbox i (run os r).1
  unfolding run
  events-run i [] r h a = unfold inbox in sym (append-nil r.events)
  events-run i (o ∷ os) r h a =
      let (r1, sent) = step o r in
      events-run i os r1 (step-count i o r a.0 ∙ h) a.1
      ∙ ap (λ es. es ++ inbox i (run os r1).1) (step-inbox i o r h)
      ∙ append_assoc r.events (inbox i sent) (inbox i (run os r1).1)
      ∙ ap (◌++◌ r.events) (sym (inbox-append i sent (run os r1).1))

  inbox-pairs : (i : ℕ) (es : List (Event Json)) → inbox i (map (λ e. (i, e)) es) ≡ es
  unfolding inbox
  inbox-pairs i [] = refl
  inbox-pairs i (e ∷ es) =
      let same : (i == i) ≡ true = ground arith in rw same (ap (◌∷◌ e) (inbox-pairs i es))

  inbox-replay_into : (i : ℕ) (r : Replay Json) → inbox i (replay_into i r) ≡ r.events
  unfolding replay_into
  inbox-replay_into i r = inbox-pairs i r.events

  -- Replaying a log to an observer shows what an observer saw that was there from the start.
  pub replay_into-run :
      (i j : ℕ) (os : List (Op Json))
      → All (Apart i) os
      → inbox j (replay_into j (run os (subscribe i empty_replay)).0)
        ≡ inbox i (run os (subscribe i empty_replay)).1
  replay_into-run i j os a =
      inbox-replay_into j (run os (subscribe i empty_replay)).0
      ∙ events-run i os (subscribe i empty_replay) (unfold subscribe empty_replay in ground arith) a
      ∙ (unfold subscribe empty_replay in refl)
