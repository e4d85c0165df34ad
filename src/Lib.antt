-- ===== src/Lib.antt =====
-- Praxis, a C++ engine that lets a language model work on a task by calling tools.
--
-- A task runs in turns. In each turn the orchestrator (src/core/orchestrator.cpp) asks a model
-- through a router and a retrying provider (src/llm), looks the proposed tool calls up in a cache,
-- has the executor run the others in groups that the dependency graph makes, files the results in
-- a fact store, and records every step in a replay log. A second model reviews the proposed calls
-- first. The tools are built in or those of a server that the MCP host attaches. The cascade
-- decides which of two models answers. Tasks come from the command line or from a web panel.
--
-- Which file models what (a child module `A/B.antt` proves laws of `A.antt`, if not said otherwise):
--   Base, Base/*     lists, texts, maps, counters, FNV-1a (in src/core/fact_store.cpp,
--                    src/core/side_effect.cpp and src/core/digest.cpp)
--   Types            src/core/types.hpp, src/core/error.hpp, `Result` of src/llm/provider.hpp
--   Graph            src/core/dependency_graph.cpp: `add_call`, `has_conflict`, `schedule`;
--                    Graph/Components: `weakly_connected_components`
--   Tools            src/tools/tool.hpp and src/core/registry.cpp
--   Executor         src/core/tool_executor.cpp: `invoke_one`, `execute`
--   Cache            src/core/cache.cpp
--   Replay           src/core/replay.cpp and src/core/event.hpp
--   Cascade          src/core/model_cascade.cpp
--   Retry            src/llm/retrying_provider.cpp
--   Facts            src/core/fact_store.cpp
--   Digest           src/core/digest.cpp: decoding, the token estimate, hard keys;
--                    Digest/Soft: the soft fingerprint and the comparison of digests;
--                    Digest/Stored: `to_json` and `from_json`
--   Json             what is used of the JSON library, a parameter
--   SideEffects      src/core/side_effect.cpp
--   Context          src/core/context_manager.cpp
--   Telemetry        src/core/telemetry.cpp
--   Orchestrator     src/core/orchestrator.cpp: what `run` does to read, look up and
--                    splice calls;
--                    Orchestrator/Settle: the loop over the records and `apply_side_effects`
--                    Orchestrator/Routing: src/llm/provider_router.cpp, and asking a tier
--                    Orchestrator/Review: the review of a plan, and the cost of a response
--                    Orchestrator/Run: `run`, turn by turn
--   Providers        src/llm/fake_provider.cpp and src/llm/openai_provider.cpp
--   Builtin          src/tools/builtin.cpp, and the contexts of src/tools/tool.hpp
--   Mcp              src/mcp: Mcp/Rpc is json_rpc.cpp, and of mcp_host.cpp Mcp/Sse is the
--                    transport, Mcp/Url `parse_url`, Mcp/Host the remote tools and Mcp/Attach
--                    the host; Mcp/Stdio is examples/cpp/posix_stdio_transport.hpp; the
--                    other children prove their laws
--   Platform         src/platform/posix_platform.cpp: `run` of a program,
--                    and `exec_argv` of src/tools/builtin.cpp;
--                    Platform/Windows: `run` of src/platform/windows_platform.cpp
--   Cli              src/ui/cli.cpp
--   Web              src/ui/web.cpp and src/main.cpp
--   Checks/*         runs on small inputs, and each result at an input
--
-- Conventions. A `std::string` is the list of its bytes. A map is an association list; no
-- result depends on the order of an unordered map. Counters wrap at their width (`succ32`,
-- `succ64`). A method takes the object's state and returns the new one. Each operation under a
-- mutex is one step. Doubles, JSON values, tools, providers and the file system are parameters.
--
-- Exceptions: a tool that throws marks the world; the executor gives its records all the same, and
-- `run_tools` ends the run where the world is marked, or where the text of a record cannot be
-- dumped. What the exceptions leave behind is not modelled. A system call of Platform that may never
-- return is an option, and there is no result where it does not return.
--
-- Fuel: the loop `while (progress)` of `schedule` takes two rounds at most, since the first places
-- every call. The loop of `on_chunk` has one round for each byte of the buffer, and takes two bytes
-- in a round. The turns of `run` are those left of the budget. The search of
-- `weakly_connected_components` takes as many rounds as there are calls, and the loop of the stdio
-- transport's `send` as many as there are bytes. All other loops recur on the list or on the rounds
-- left, but for those of Platform: the reading of a child's output, for which the
-- nanoseconds that are left are enough, the wait that a signal interrupts, and on Windows the
-- reading of what is left after the exit.
--
-- Not modelled: input and output, threads below the level of one tool invocation, system calls, HTTP,
-- what is printed, and the JSON library.
pub mod Base
pub mod Types
pub mod Graph
pub mod Tools
pub mod Executor
pub mod Cache
pub mod Replay
pub mod Floats
pub mod Cascade
pub mod Retry
pub mod Facts
pub mod Json
pub mod Digest
pub mod SideEffects
pub mod Context
pub mod Telemetry
pub mod Orchestrator
pub mod Providers
pub mod Builtin
pub mod Mcp
pub mod Checks
pub mod Platform
pub mod Cli
pub mod Web
