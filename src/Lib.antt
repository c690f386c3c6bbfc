-- ===== src/Lib.antt =====
-- A verification library for the self-healing orchestrator.
--
-- The program takes a failure (a crash report or a failing test), lets a Corrector patch the
-- workspace, validates the patch in a sandbox, guards it with a regression test, commits it, and goes
-- on with the next error, or, when an error was tried as often as allowed, writes a post-mortem.
-- It is a LangGraph state machine of seven nodes over one state record.
--
-- Parts, files and sources:
--   Python            the Python that the sources use: text, exceptions and files as explicit state, the
--                     `re` engine, pure paths; what the program takes from other libraries (SHA-256,
--                     Unicode tables, `ast`, pydantic's stripping) is the record Platform
--   Domain/Enums, Domain/Models, Domain/State    src/core/domain/{enums,models,state}.py
--   Domain/Signature  src/core/domain/signature.py: Patterns are its regular expressions, Parse its
--                     parsers, Signature the fingerprint and `matches`
--   Config            src/config/settings.py: the settings, their bounds and how they are loaded
--   Ports             src/core/ports/*.py and src/orchestrator/dependencies.py: one field for a method
--   Orchestrator/Routers, Orchestrator/Regression    src/orchestrator/{routers,regression}.py
--   Orchestrator/Nodes    src/orchestrator/nodes.py: Bootstrap (`bootstrap_node`), Repair (`fix_node`,
--                     `validate_node`, `rollback_node`), Immunize (`immunize_node`, `_gate_and_keep`),
--                     Commit (`report_commit_node`, `post_mortem_node`), Session (the session test file),
--                     Context (the pure helpers)
--   Orchestrator/Graph    src/orchestrator/graph.py: the edge tables, one step, a run
--                     Graph/Effect relates the states before and after a node; Graph/Bound, Graph/Ledger,
--                     Graph/Ending, Graph/Outcome, Graph/Visits, Graph/Gate and Graph/Total are about
--                     runs
--   Agents/Focus      src/agents/_focus.py: the files of the workspace that a failure names
--   Agents/Llm, Agents/Tester, Agents/Reporter    src/agents/{_llm,llm_tester,llm_reporter}.py
--   Agents/Swe        src/agents/swe_agent_dev.py: what the Corrector computes; Swe/Run is `fix`, the run
--                     of the agent and the cleanup of its containers
--   Agents/Prompts    the prompts of these agents
--   Observability     src/observability/span.py and, of sinks.py, the in-memory and the fan-out sink;
--                     Context has the context variables of llm.py, Ports the wrappers of agents.py and
--                     infrastructure.py, their wiring (wiring.py) and the watched nodes of graph.py,
--                     Aggregate the counts of sinks.py, Jsonl its JSON sink, Llm the callback of llm.py
--   Adapters/InMemory, Adapters/Reports    src/agents/mock_*.py, the in-memory sandbox and git, and
--                     src/infrastructure/persistence/filesystem_reporter.py
--   Adapters/Docker, Adapters/Git    src/infrastructure/docker_sandbox/docker_sandbox.py and
--                     src/infrastructure/git_ops/git_adapter.py
--   Adapters/GitHub   src/infrastructure/github/github_adapter.py: the push and the pull request; Body
--                     is the text of a pull request
--   Adapters/Real     the wiring of src/main.py in its real mode
--   Scripts/Machine   the subprocesses and files that the scripts ask for, and the `git` helpers of
--                     scripts/run_benchmark.py; Scripts/Session is its wiring and a watched session
--   Scripts/Benchmark scripts/run_benchmark.py: branches, checkout and detection of a crash; its Push
--                     is the pull request, Report the rows, Run one branch and the loop
--   Scripts/Detect, Scripts/Heal    scripts/heal_and_pr.py: the detection of a failure; the session and
--                     the pull request
--   Scripts/Select    scripts/swebench_select.py: the choice of instances
--   Scripts/Main      src/main.py: the wiring of both modes, the demo and the exit code
--   Scripts/Swebench  scripts/run_swebench.py: the preparation of an instance; its Run checks or heals
--                     one instance, its Loop goes over them
--   Tests             runs with the mock collaborators, as src/main.py wires them; Tests/Services has
--                     services that are written out, for the adapters; Tests/Forge a push that
--                     fails, Tests/Watching a watched call, Tests/Scripts, Tests/Healing and Tests/Slice
--                     the scripts on a machine that is written out
--
-- A coroutine is an action on the World (files, refused operations, environment) that returns or raises;
-- the world comes back after a raise too. A node's merged update is a function of its own, named by
-- what it records (`judged`, `rolled_back`, `committed`, …), and the relation of Graph/Effect has
-- a constructor for each of these. `Dependencies` is a parameter of every node.
--
-- A run is on fuel, one unit for a node; it stands for LangGraph's recursion limit: `invoke` returns `none`
-- there, and `ainvoke` and `run_session` raise LangGraph's error then; `session_bound` of
-- Graph/Bound, 62 nodes with the default settings (3 retries, 5 errors), is the fuel that the
-- theorems ask for: 4 nodes for each attempt, and bootstrap and post_mortem.
--
-- The services (the Docker SDK, GitPython, litellm, mini-swe-agent, `git` and `docker`) are records of
-- actions, one for each call that the sources make. A timeout of `asyncio.wait_for` is asked of the
-- world that the body leaves: the worker thread is never cancelled, so the caller may in truth be told
-- of the timeout before the thread has ended.
--
-- The scripts run on a Rig: the machine (`subprocess.run`, files, clock, environment variables), the
-- services, the telemetry. `scripts/` is beside `src/` in the repository.
--
-- Not modelled: times and costs in the telemetry (floating-point arithmetic), the figures that the
-- scripts copy from the telemetry into a row, the routing of litellm's spans during a session, logging
-- and prints, the command lines, the download of datasets, and timestamps (where a report prints one it
-- is a parameter). A file's content is its text: that reading or writing one may raise a
-- `UnicodeDecodeError` or a `UnicodeEncodeError` (neither is an `OSError`, so `nodes.py` would let it
-- pass), and that newlines are translated, is left out; so is an `OSError` of `rglob` itself in
-- `select_related_tests`, which is a function of the world here.
pub mod Base
pub mod Python
pub mod Domain
pub mod Config
pub mod Ports
pub mod Orchestrator
pub mod Agents
pub mod Observability
pub mod Adapters
pub mod Scripts
pub mod Tests
