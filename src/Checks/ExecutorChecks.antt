-- ===== src/Checks/ExecutorChecks.antt =====
-- Two calls of a tool that counts its invocations, and a call of no tool.
use g.Base.{ℕ, ◌+◌, refl, true, List, [], ◌∷◌, some, txt}
use g.Types.{ToolCall}
use g.Tools.{Tool, Registry}
use g.Graph.FirstFit.{members}
use g.Executor.{ToolExecutor, groups_of, execute}
use g.Executor.Records.{Matches, IsRecordOf, IsInterleaving, execute-Matches}

abbrev call : ℕ → List ℕ → ToolCall
call n tool = record { name = tool; arguments = txt "{}"; ordinal = n }

-- Its output is the number of invocations before.
abbrev counter : Tool ℕ Unit ℕ
counter = record {
  name = txt "count";
  declared_resources = txt "n" ∷ [];
  resources_for = λ c. txt "n" ∷ [];
  invoke = λ c ctx w.
      (record { ok = true; output = w; error_message = []; observed_resources = [] }, w + 1);
}

abbrev tools : Registry ℕ Unit ℕ
tools = (txt "count", counter) ∷ []

abbrev calls : List ToolCall
calls = call 0 (txt "count") ∷ call 1 (txt "count") ∷ call 2 (txt "nothing") ∷ []

abbrev idle : ToolExecutor
idle = record { parallel_safe = true; invocations = 4; failures = 1 }

abbrev in_order : List ℕ → List ℕ
in_order group = group

in_order-IsInterleaving : IsInterleaving in_order
in_order-IsInterleaving = record { same = λ group i. refl }

execute-Matches_example :
    Matches
      (IsRecordOf calls)
      (members (groups_of tools true calls))
      (execute 0 (λ c. c) tools in_order idle calls (some tt) 0).out
execute-Matches_example =
    execute-Matches 0 (λ c. c) tools in_order idle calls (some tt) 0 in_order-IsInterleaving
