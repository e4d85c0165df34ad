-- ===== src/Orchestrator/Run/Ends.antt =====
-- How a run ends, and what its log says.
use g.Base.{ℕ, zero, suc, ◌+◌, ◌≡◌, refl, [], ◌∷◌, Str, txt, arith, inr}
use g.Json.{JsonLib}
use g.Floats.{Floats}
use g.Replay.{Replay, record_kind, turn_started}
use g.Orchestrator.Routing.{Budget}
use g.Orchestrator.Run.{
  Setup, Engine, Ending, Turned, goes_on, stops, log_event, one_turn, run_turns, turn_limit, run,
}
use g.Orchestrator.Run.Log.{Logs, Logs-refl}
use g.Orchestrator.Run.Account.{EndsIn, TurnsIn, bound_run-EndsIn}
use g.Orchestrator.Run.Turns.{one_turn-TurnsIn}

module _ {f : Floats} {j : JsonLib} {Ctx World : Type 0} (s : Setup f j Ctx World) where
  run_turns-EndsIn :
      (limit left n : ℕ) (before : Replay j.Json) (task : Str) (budget : Budget f)
      (e : Engine f j World)
      → n + left ≡ limit
      → Logs n before e.turn.replay
      → EndsIn limit before (run_turns s left task budget n e)
  unfolding run_turns
  run_turns-EndsIn limit zero n before task budget e eq l =
      bound_run-EndsIn s limit n before (txt "max_turns") _ e (omega arith)
        (inr (refl, omega arith)) l
  run_turns-EndsIn limit (suc left) n before task budget e eq l =
      let turn = one_turn-TurnsIn s limit n before task budget e (omega arith) l in
      next (one_turn s task budget n e) turn
        (λ e' l'. run_turns-EndsIn limit left (suc n) before task budget e' (omega arith) l')
    where
      next :
          (t : Turned f j World)
          → TurnsIn limit (suc n) before t
          → ((e' : Engine f j World)
              → Logs (suc n) before e'.turn.replay
              → EndsIn limit before (run_turns s left task budget (suc n) e'))
          → EndsIn limit before (elim t as (λ _. Ending f j World) [
            | stops ending ↦ ending
            | goes_on e' ↦ run_turns s left task budget (suc n) e'
          ])
      next (stops ending) h go = h
      next (goes_on e') h go = go e' h

  -- A run that returns has taken at most the budget's turns, 64 where the budget is not active. Its
  -- log, after the event that starts it, has one request to the chore model for each turn taken,
  -- and ends with the event that says how the run ended: that the task is done, that the budget is
  -- hit, or that a model failed. A result counts these turns, and is either completed, or bounded
  -- by the cost or by the number of turns, in which case all of them are taken.
  pub run-EndsIn :
      (task : Str) (budget : Budget f) (e : Engine f j World)
      → EndsIn
          (turn_limit budget)
          (record_kind turn_started
            (j.of_members ((txt "task", j.of_string task) ∷ []))
            e.turn.replay).0
          (run s task budget e)
  unfolding run log_event
  run-EndsIn task budget e =
      run_turns-EndsIn (turn_limit budget) (turn_limit budget) 0 _ task budget _ (omega arith)
        (Logs-refl _)
