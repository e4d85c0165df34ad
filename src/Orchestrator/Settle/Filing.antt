-- ===== src/Orchestrator/Settle/Filing.antt =====
-- What the loop over the records does to the messages and to the context.
use g.Base.{
  ℕ, ◌≡◌, refl, ap, true, false, some, sym, ◌∙◌, Bool, List, [], ◌∷◌, ◌++◌, map, append-nil,
  append_assoc, txt,
}
use g.Json.{JsonLib}
use g.Floats.{Floats}
use g.Cascade.{Tier}
use g.Executor.{ToolExecutionRecord}
use g.Facts.{digest_hex}
use g.Facts.Contents.{contains-append}
use g.Context.{append_fact}
use g.Context.Rebuilt.{Reached, filed, recorded, Files}
use g.Orchestrator.{CallView}
use g.Orchestrator.Settle.{Message, Turn, body_of, message_of, fact_id, settle_record, settle}

module _ (f : Floats) (j : JsonLib) (cache_tools : Bool) where
  open j use {Json}

  -- A message of the role "tool" tells of a record: its output, or what went wrong where there is none,
  -- the tool, whether it succeeded and whether the cache gave it.
  pub record Tells (r : ToolExecutionRecord Json) (m : Message Json) : Type 0 where
    pub by_tool : m.role ≡ txt "tool"
    pub output : j.is_null r.result.output ≡ false → m.content ≡ j.dump r.result.output
    pub problem : j.is_null r.result.output ≡ true → m.content ≡ r.result.error_message
    pub details :
        m.tool_calls
        ≡ some (
            j.of_members (
              (txt "name", j.of_string r.tool_name)
              ∷ (txt "ok", j.of_boolean r.result.ok)
              ∷ (txt "from_cache", j.of_boolean r.from_cache)
              ∷ []))

  -- one message for each record, in their order
  abbrev pub AllTell : List (ToolExecutionRecord Json) → List (Message Json) → Type 0
  AllTell [] [] = Unit
  AllTell [] (m ∷ ms) = ⊥
  AllTell (r ∷ rs) [] = ⊥
  AllTell (r ∷ rs) (m ∷ ms) = Tells r m × AllTell rs ms

  message_of-Tells : (r : ToolExecutionRecord Json) → Tells r (message_of f j cache_tools r)
  unfolding message_of body_of
  message_of-Tells r = record {
    by_tool = refl;
    output = λ e. rw e refl;
    problem = λ e. rw e refl;
    details = refl;
  }

  fact_id-digest_hex :
      (r : ToolExecutionRecord Json)
      → fact_id f j cache_tools r
        ≡ digest_hex (txt "tool_result") (message_of f j cache_tools r).content
  unfolding fact_id message_of
  fact_id-digest_hex r = refl

  pub record IsSettled (rs : List (ToolExecutionRecord Json)) (t u : Turn f Json) : Type 0 where
    pub told : List (Message Json)
    pub added : u.messages ≡ t.messages ++ told
    pub tells : AllTell rs told
    pub listed :
        u.recent_tool_results
        ≡ t.recent_tool_results ++ map (λ m. digest_hex (txt "tool_result") m.content) told
    pub reached : {budget : ℕ} → Reached j budget t.context → Reached j budget u.context

  settle_record-Reached :
      {budget : ℕ} (views : List CallView) (tier : Tier) (r : ToolExecutionRecord Json)
      (t : Turn f Json)
      → Reached j budget t.context
      → Reached j budget (settle_record f j cache_tools views tier r t).context
  unfolding settle_record fact_id append_fact Files
  settle_record-Reached views tier r t h =
      recorded (digest_hex (txt "tool_result") (body_of f j cache_tools r)) _
        (filed (txt "tool_result") (body_of f j cache_tools r) t.context h)
        (contains-append (txt "tool_result") (body_of f j cache_tools r) t.context.store)

  -- Where the text of each record can be written, the model is told of the records in their order, by one
  -- message for each with its output or its error, its tool and its state; what is listed in the same
  -- order are the identifiers of the facts with the text of these messages; and the context stays
  -- one that is reached by filing each result before it is recorded.
  pub settle-IsSettled :
      (views : List CallView) (tier : Tier) (rs : List (ToolExecutionRecord Json)) (t : Turn f Json)
      → IsSettled rs t (settle f j cache_tools views tier rs t)
  unfolding settle settle_record
  settle-IsSettled views tier [] t = record {
    told = [];
    added = sym (append-nil t.messages);
    tells = tt;
    listed = sym (append-nil t.recent_tool_results);
    reached = λ h. h;
  }
  settle-IsSettled views tier (r ∷ rs) t =
      let u = settle_record f j cache_tools views tier r t in
      let rest = settle-IsSettled views tier rs u in
      record {
        told = message_of f j cache_tools r ∷ rest.told;
        added = rest.added ∙ append_assoc t.messages (message_of f j cache_tools r ∷ []) rest.told;
        tells = (message_of-Tells r, rest.tells);
        listed =
            rest.listed
            ∙ append_assoc t.recent_tool_results (fact_id f j cache_tools r ∷ [])
                (map (λ m. digest_hex (txt "tool_result") m.content) rest.told)
            ∙ ap
                (λ x.
                  t.recent_tool_results
                  ++ x ∷ map (λ m. digest_hex (txt "tool_result") m.content) rest.told)
                (fact_id-digest_hex r);
        reached = λ h. rest.reached (settle_record-Reached views tier r t h);
      }
