-- ===== src/Context/Rebuilt.antt =====
-- The digest that is kept up to date is the one that `rebuild_digest` computes.
use g.Base.{
  ℕ, ◌≡◌, refl, sym, ap, ◌∙◌, true, List, [], ◌∷◌, ◌++◌, Str, str_eq_iff, All, All-append, All-map,
  contains, lookup-insert, contains-lookup, arith, Bool-cases, inl, inr,
}
use g.Json.{JsonLib}
use g.Facts.{FactStore, get, append, digest_hex, add_fact}
use g.Context.{
  ContextManager, context_manager, merge_fact, merge_facts, record_tool_result, rebuild_digest,
  append_fact,
}

-- The store files a fact under `id`.
unfoldable pub Files : FactStore → Str → Type 0
Files s id = contains id s.entries ≡ true

-- `append` keeps every fact that is there.
get-append_known :
    (id type content : Str) (s : FactStore)
    → Files s id
    → get id (append type content s).1 ≡ get id s
unfolding Files get append add_fact
get-append_known id type content s known =
    elim (Bool-cases (contains (digest_hex type content) s.entries)) [
      | inl old ↦ rw (append, old) refl
      | inr new ↦
          rw (append, new)
            (ground (
              arith,
              known,
              new,
              str_eq_iff (digest_hex type content) id,
              lookup-insert id (digest_hex type content)
                  (record { id = digest_hex type content; type = type; content = content })
                  s.entries,
            ))
    ]

Files-append :
    (id type content : Str) (s : FactStore) → Files s id → Files (append type content s).1 id
unfolding Files get
Files-append id type content s known =
    let same = get-append_known id type content s known in
    ground (
      arith,
      same,
      known,
      contains-lookup id s.entries,
      contains-lookup id (append type content s).1.entries,
    )

module _ (j : JsonLib) where
  merge_facts-append :
      (s : FactStore) (ids : List Str) (id : Str) (d : _)
      → merge_facts j s (ids ++ id ∷ []) d ≡ merge_fact j (get id s) (merge_facts j s ids d)
  unfolding merge_facts
  merge_facts-append s [] id d = refl
  merge_facts-append s (i ∷ ids) id d = merge_facts-append s ids id (merge_fact j (get i s) d)

  merge_facts-same :
      (s t : FactStore) (ids : List Str) (d : _)
      → All (λ id. get id t ≡ get id s) ids
      → merge_facts j t ids d ≡ merge_facts j s ids d
  unfolding merge_facts
  merge_facts-same s t [] d same = refl
  merge_facts-same s t (i ∷ ids) d same =
      rw (same.0) (merge_facts-same s t ids (merge_fact j (get i s) d) same.1)

  -- The states that a manager reaches when every result is filed before it is recorded.
  pub data Reached (budget : ℕ) : ContextManager → Type 0 where
    start : Reached budget (context_manager budget)
    filed :
        (type content : Str) (m : ContextManager)
        → Reached budget m
        → Reached budget (append_fact type content m)
    recorded :
        (id : Str) (m : ContextManager)
        → Reached budget m
        → Files m.store id
        → Reached budget (record_tool_result j id m)
    rebuilt : (m : ContextManager) → Reached budget m → Reached budget (rebuild_digest j m)

  record IsCurrent (m : ContextManager) : Type 0 where
    all_filed : All (Files m.store) m.fact_order
    current : m.digest ≡ merge_facts j m.store m.fact_order []

  Reached-IsCurrent : {budget : ℕ} {m : ContextManager} → Reached budget m → IsCurrent m
  unfolding append_fact record_tool_result rebuild_digest context_manager merge_facts
  Reached-IsCurrent (start) = record { all_filed = tt; current = refl }
  Reached-IsCurrent (filed type content m r) =
      let c = Reached-IsCurrent r in
      record {
        all_filed =
            All-map (Files m.store) (Files (append type content m.store).1) m.fact_order
              (λ id. Files-append id type content m.store) c.all_filed;
        current =
            c.current
            ∙ sym (
                merge_facts-same m.store (append type content m.store).1 m.fact_order [] (
                  All-map (Files m.store)
                    (λ id. get id (append type content m.store).1 ≡ get id m.store) m.fact_order
                    (λ id. get-append_known id type content m.store) c.all_filed));
      }
  Reached-IsCurrent (recorded id m r known) =
      let c = Reached-IsCurrent r in
      record {
        all_filed = All-append (Files m.store) m.fact_order (id ∷ []) c.all_filed (known, tt);
        current =
            ap (merge_fact j (get id m.store)) c.current
            ∙ sym (merge_facts-append m.store m.fact_order id []);
      }
  Reached-IsCurrent (rebuilt m r) =
      let c = Reached-IsCurrent r in record { all_filed = c.all_filed; current = refl }

  -- The digest that is kept up to date, result by result, is the one that is computed afresh from
  -- all the results recorded, in every state that is reached by filing facts, recording results
  -- that are filed, and rebuilding.
  pub digest-Reached :
      {budget : ℕ} (m : ContextManager) → Reached budget m → (rebuild_digest j m).digest ≡ m.digest
  unfolding rebuild_digest
  digest-Reached m r = sym (Reached-IsCurrent r).current
