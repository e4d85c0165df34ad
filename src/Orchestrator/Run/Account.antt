-- ===== src/Orchestrator/Run/Account.antt =====
-- What a run that returned says of itself, and how the two ends of `run` say it.
use g.Base.{
  ℕ, suc, ◌≤◌, ◌≡◌, refl, true, false, List, [], ◌∷◌, ◌++◌, Str, txt, inl, inr, ◌⊎◌, if◌then◌else◌,
}
use g.Json.{JsonLib}
use g.Floats.{Floats}
use g.Types.{Result, ok, fail}
use g.Replay.{Replay, Event, EventKind, record_kind, degraded, budget_hit, task_ended}
use g.Orchestrator.Run.{
  RunResult, Setup, Engine, Ending, threw, returned, Turned, goes_on, stops, log_event, finish,
  complete_run, bound_run,
}
use g.Orchestrator.Run.Log.{Logs, Logs-quiet, weight, events-record_kind, record_kind-Logs}

module _ {f : Floats} where
  -- the event that closes the log
  unfoldable pub closing : Result (RunResult f) → EventKind
  closing (fail e) = degraded
  closing (ok r) = if r.completed then task_ended else budget_hit

  -- What the result says after `n` turns of at most `limit`.
  unfoldable pub IsAccount : ℕ → ℕ → Result (RunResult f) → Type 0
  IsAccount limit n (fail e) = 1 ≤ n
  IsAccount limit n (ok r) =
      (r.turns ≡ n)
      × (((r.completed ≡ true) × (r.bounded ≡ false) × (r.bounded_reason ≡ []))
          ⊎ ((r.completed ≡ false)
              × (r.bounded ≡ true)
              × ((r.bounded_reason ≡ txt "max_cost")
                  ⊎ ((r.bounded_reason ≡ txt "max_turns") × (n ≡ limit)))))

  -- A run that returned: its turns, each a request to the chore model, its log, and its account.
  pub record IsEnded {Json : Type 0} (limit : ℕ) (r : Result (RunResult f))
      (before after : Replay Json) : Type 0 where
    pub turns : ℕ
    pub within : turns ≤ limit
    pub logged : Logs turns before after
    pub front : List (Event Json)
    pub last : Event Json
    pub closed : after.events ≡ front ++ last ∷ []
    pub closing_kind : last.kind ≡ closing r
    pub account : IsAccount limit turns r

module _ {f : Floats} {j : JsonLib} {World : Type 0} where
  abbrev pub EndsIn : ℕ → Replay j.Json → Ending f j World → Type 0
  EndsIn limit before threw = Unit
  EndsIn limit before (returned r e) = IsEnded limit r before e.turn.replay

  -- A turn that goes on has logged one request since `before`, which the first log may precede.
  abbrev pub TurnsIn : ℕ → ℕ → Replay j.Json → Turned f j World → Type 0
  TurnsIn limit n before (goes_on e) = Logs n before e.turn.replay
  TurnsIn limit n before (stops ending) = EndsIn limit before ending

module _ {f : Floats} {j : JsonLib} {Ctx World : Type 0} (s : Setup f j Ctx World) where
  -- an event that is no request
  pub log_event-Logs :
      (n : ℕ) (before : Replay j.Json) (kind : EventKind) (payload : List (Str × j.Json))
      (e : Engine f j World)
      → weight kind ≡ 0
      → Logs n before e.turn.replay
      → Logs n before (log_event kind payload e).turn.replay
  unfolding log_event
  log_event-Logs n before kind payload e quiet l =
      let step = record_kind-Logs kind (j.of_members payload) e.turn.replay in
      Logs-quiet n before e.turn.replay (record_kind kind (j.of_members payload) e.turn.replay).0 l
        (rw (quiet) at step)

  pub complete_run-EndsIn :
      (limit n : ℕ) (before : Replay j.Json) (output : Str) (e : Engine f j World)
      → suc n ≤ limit
      → Logs (suc n) before e.turn.replay
      → EndsIn limit before (complete_run s n output e)
  unfolding complete_run finish log_event closing IsAccount weight
  complete_run-EndsIn limit n before output e le l = record {
    turns = suc n;
    within = le;
    logged = log_event-Logs (suc n) before task_ended _ e refl l;
    front = e.turn.replay.events;
    last = _;
    closed = events-record_kind task_ended _ e.turn.replay;
    closing_kind = refl;
    account = (refl, inl (refl, refl, refl));
  }

  pub bound_run-EndsIn :
      (limit n : ℕ) (before : Replay j.Json) (reason : Str) (payload : List (Str × j.Json))
      (e : Engine f j World)
      → n ≤ limit
      → (reason ≡ txt "max_cost") ⊎ ((reason ≡ txt "max_turns") × (n ≡ limit))
      → Logs n before e.turn.replay
      → EndsIn limit before (bound_run s n reason payload e)
  unfolding bound_run finish log_event closing IsAccount weight
  bound_run-EndsIn limit n before reason payload e le why l = record {
    turns = n;
    within = le;
    logged = log_event-Logs n before budget_hit _ e refl l;
    front = e.turn.replay.events;
    last = _;
    closed = events-record_kind budget_hit _ e.turn.replay;
    closing_kind = refl;
    account = (refl, inr (refl, refl, why));
  }
