-- ===== src/Checks/RunChecks.antt =====
-- A run whose model answers with its plan, and is done.
use g.Base.{ℕ, true, false, [], ◌∷◌, none, some, txt, leb}
use g.Cascade.{small}
use g.Replay.{record_kind, turn_started}
use g.Orchestrator.Routing.{Budget, empty_router, set_provider}
use g.Orchestrator.Run.{Setup, Engine, run, turn_limit}
use g.Orchestrator.Run.Account.{EndsIn}
use g.Orchestrator.Run.Ends.{run-EndsIn}
use g.Checks.OrchestratorChecks.{Doc, numbers, docs, turn, tier_name, answer}

abbrev setup : Setup numbers docs ℕ ℕ
setup = record {
  router =
      set_provider (λ p. p) small (some (λ messages. answer (txt "done") (txt "m"))) empty_router;
  registry = [];
  fork = λ c. c;
  tool_ctx = none;
  order = λ ns. ns;
  tier_text = tier_name;
  tracked = false;
  walk = λ w. [];
  cache_tools = true;
  prompt_per_1k = 1;
  completion_per_1k = 1;
  at_least = λ a b. leb b a;
  of_double = Doc.made;
  elapsed = λ w. w;
  has_thrown = λ w. false;
  is_written = λ v. true;
}

abbrev engine : Engine numbers docs ℕ
engine = record {
  turn = turn;
  executor = record { parallel_safe = true; invocations = 0; failures = 0 };
  side_effects = [];
  world = 0;
  cost = 0;
}

abbrev three_turns : Budget numbers
three_turns = record { max_turns = 3; max_cost = 100; active = true }

run-EndsIn_example :
    EndsIn
      (turn_limit three_turns)
      (record_kind turn_started
        (docs.of_members ((txt "task", docs.of_string (txt "go")) ∷ []))
        engine.turn.replay).0
      (run setup (txt "go") three_turns engine)
run-EndsIn_example = run-EndsIn setup (txt "go") three_turns engine
