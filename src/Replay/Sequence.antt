-- ===== src/Replay/Sequence.antt =====
-- The sequence numbers of recorded events.
use g.Base.{
  ℕ, suc, ◌+◌, ◌^◌, ◌≤◌, ◌<◌, ◌≡◌, refl, sym, subst, ◌∙◌, append-nil, append_assoc, List, [], ◌∷◌,
  ◌++◌, arith, All, All-append, All-map, succ64, succ64-eq, length,
}
use g.Replay.{Event, EventKind, Replay, numbered, next_last, record_event, record_kind}

module _ {Json : Type 0} where
  -- No event has a number above the last one given.
  pub record IsNumbered (r : Replay Json) : Type 0 where
    pub bounded : All (λ (e : Event Json). e.sequence ≤ r.last_seq) r.events

  -- Recording keeps the numbers bounded, with numbers of the caller's own or without.
  pub record_event-IsNumbered :
      (e : Event Json) (r : Replay Json)
      → r.last_seq + 1 < 2 ^ 64
      → IsNumbered r
      → IsNumbered (record_event e r).0
  unfolding record_event numbered next_last
  record_event-IsNumbered e r lt v = record {
    bounded =
        All-append (λ (x : Event Json). x.sequence ≤ next_last e r.last_seq) r.events _
          (All-map (λ (x : Event Json). x.sequence ≤ r.last_seq)
            (λ (x : Event Json). x.sequence ≤ next_last e r.last_seq) r.events
            (λ x h. ground (arith, h, succ64-eq r.last_seq lt)) v.bounded)
          (ground (arith, succ64-eq r.last_seq lt), tt);
  }

  -- An event that `record` numbers comes after every event that was recorded before it.
  pub record_kind-after :
      (kind : EventKind) (payload : Json) (r : Replay Json)
      → r.last_seq + 1 < 2 ^ 64
      → IsNumbered r
      → All (λ (e : Event Json). e.sequence < (record_kind kind payload r).0.last_seq) r.events
        × ((record_kind kind payload r).0.events
            ≡ r.events
              ++ (record {
                kind = kind;
                sequence = (record_kind kind payload r).0.last_seq;
                payload = payload;
              })
                ∷ [])
  unfolding record_kind numbered next_last
  record_kind-after kind payload r lt v = (
    All-map (λ (x : Event Json). x.sequence ≤ r.last_seq)
        (λ (x : Event Json). x.sequence < succ64 r.last_seq) r.events
        (λ x h. ground (arith, h, succ64-eq r.last_seq lt)) v.bounded,
    refl,
  )

  -- several calls of `record(kind, payload)`
  pub record_kinds : List (EventKind × Json) → Replay Json → Replay Json
  record_kinds [] r = r
  record_kinds ((kind, payload) ∷ rest) r = record_kinds rest (record_kind kind payload r).0

  -- The events are those asked for, numbered `from`, `from + 1`, …
  abbrev pub Numbers : ℕ → List (EventKind × Json) → List (Event Json) → Type 0
  Numbers from [] [] = Unit
  Numbers from [] (e ∷ es) = ⊥
  Numbers from (k ∷ ks) [] = ⊥
  Numbers from (k ∷ ks) (e ∷ es) =
      (e.sequence ≡ from) × (e.kind ≡ k.0) × (e.payload ≡ k.1) × Numbers (suc from) ks es

  -- Events recorded without a number are appended in order and numbered from `last_seq + 1` on
  -- with no gap, if the 64-bit counter does not run over.
  pub record_kinds-Numbers :
      (ks : List (EventKind × Json)) (r : Replay Json)
      → r.last_seq + length ks < 2 ^ 64
      → (es : List (Event Json)) × ((record_kinds ks r).events ≡ r.events ++ es)
        × Numbers (r.last_seq + 1) ks es
        × ((record_kinds ks r).last_seq ≡ r.last_seq + length ks)
  unfolding record_kinds record_kind numbered next_last
  record_kinds-Numbers [] r lt = ([], sym (append-nil r.events), tt, omega arith)
  record_kinds-Numbers ((kind, payload) ∷ ks) r lt =
      let r' = (record_kind kind payload r).0 in
      let next = succ64-eq r.last_seq (omega arith) in
      let e : Event Json = record {
        kind = kind;
        sequence = succ64 r.last_seq;
        payload = payload;
      } in
      let (es, added, numbers, last) = record_kinds-Numbers ks r' (ground (arith, next, lt)) in
      (
        e ∷ es,
        added ∙ append_assoc r.events (e ∷ []) es,
        (next, refl, refl, subst (λ n. Numbers n ks es) (omega (arith, next)) numbers),
        omega (arith, last, next),
      )
