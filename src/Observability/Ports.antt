-- ===== src/Observability/Ports.antt =====
-- src/observability/agents.py, infrastructure.py and wiring.py: the ports with a span around each
-- call, and the graph of src/orchestrator/graph.py with a span around each node.
use self_healing_system_tfg.Base.{ℕ, zero, suc, List, [], ◌∷◌, Option, none, some}
use self_healing_system_tfg.Python.Text.{Text, text, join}
use self_healing_system_tfg.Python.Effects.{Exn, Py, pure, ◌>>=◌}
use self_healing_system_tfg.Python.Platform.{Platform}
use self_healing_system_tfg.Domain.Enums.{verdict_value}
use self_healing_system_tfg.Domain.Models.{FixContext, Patch, RegressionTest, SandboxResult}
use self_healing_system_tfg.Domain.State.{HealingState}
use self_healing_system_tfg.Ports.{Dependencies}
use self_healing_system_tfg.Orchestrator.Graph.{
  Node, bootstrap, fix, validate, immunize, report_commit, rollback, post_mortem, run_node, follow,
  successor,
}
use self_healing_system_tfg.Observability.{Sink, span, instrument_node}
use self_healing_system_tfg.Observability.Context.{ContextVar, with_value}

-- A sink, the variable `_current_agent`, and `type(exc).__name__`.
pub record Telemetry (E : Type 0) : Type 0 where
  pub sink : Sink E
  pub current_agent : ContextVar E Text
  pub type_name : Exn → Text

module _ {E : Type 0} (t : Telemetry E) where
  -- A span of one of the agents' calls, under `use_agent`.
  abbrev agent_span :
      {A : Type 0} → (agent name incident_id : Text) → (A → List (Text × Text)) → Py E A → Py E A
  agent_span agent name incident_id enrich call =
      with_value t.current_agent agent
        (span t.type_name t.sink name ((text "incident_id", incident_id) ∷ []) enrich call)

  -- `patch is not None`
  abbrev produced : Option Patch → Text
  produced none = text "False"
  produced (some _) = text "True"

  -- `InstrumentedFixer.fix`
  unfoldable pub watched_fix : (FixContext → Py E (Option Patch)) → FixContext → Py E (Option Patch)
  unfolding span with_value text
  watched_fix inner context =
      agent_span (text "corrector") (text "fixer.fix") context.incident_id
        (λ patch. (text "produced_patch", produced patch) ∷ []) (inner context)

  -- `InstrumentedTester.write_regression_test`
  unfoldable pub watched_write_test :
      (FixContext → Py E RegressionTest) → FixContext → Py E RegressionTest
  unfolding span with_value text
  watched_write_test inner context =
      agent_span (text "tester") (text "tester.write_regression_test") context.incident_id (λ _. [])
        (inner context)

  -- `InstrumentedSandbox.run_tests`
  unfoldable pub watched_run_tests :
      (Text → Text → List Text → Py E SandboxResult) → Text → Text → List Text → Py E SandboxResult
  unfolding span join verdict_value text
  watched_run_tests inner workspace_path image command =
      span t.type_name t.sink (text "sandbox.run_tests")
        ((text "command", join (text " ") command) ∷ [])
        (λ result. (text "verdict", verdict_value result.verdict) ∷ [])
        (inner workspace_path image command)

  -- `instrument_dependencies`, with the methods of `InstrumentedReporterAgent` and `InstrumentedGit`;
  -- the report's writer is not wrapped. The registration of litellm's callback is left out.
  unfoldable pub instrument_dependencies : Dependencies E → Dependencies E
  unfolding watched_fix watched_write_test watched_run_tests span with_value text
  instrument_dependencies deps = record deps {
    fix = watched_fix deps.fix;
    write_regression_test = watched_write_test deps.write_regression_test;
    compose_commit_message = λ incident_id error_signature diff_text prior_attempts test_path.
        agent_span (text "reporter") (text "reporter.compose_commit_message") incident_id (λ _. [])
          (deps.compose_commit_message incident_id error_signature diff_text prior_attempts
            test_path);
    compose_post_mortem = λ incident_id trigger attempts resolved.
        agent_span (text "reporter") (text "reporter.compose_post_mortem") incident_id (λ _. [])
          (deps.compose_post_mortem incident_id trigger attempts resolved);
    run_tests = watched_run_tests deps.run_tests;
    commit = λ workspace_path msg author_name author_email.
        span t.type_name t.sink (text "git.commit") [] (λ _. [])
          (deps.commit workspace_path msg author_name author_email);
    reset_hard = λ workspace_path.
        span t.type_name t.sink (text "git.reset_hard") [] (λ _. [])
          (deps.reset_hard workspace_path);
  }

-- `NODE_BOOTSTRAP`, …
unfoldable pub node_name : Node → Text
unfolding text
node_name bootstrap = text "bootstrap"
node_name fix = text "fix"
node_name validate = text "validate"
node_name immunize = text "immunize"
node_name report_commit = text "report_commit"
node_name rollback = text "rollback"
node_name post_mortem = text "post_mortem"

module _ {E : Type 0} (t : Telemetry E) (p : Platform) (deps : Dependencies E) where
  -- A node as `build_graph` adds it.
  unfoldable pub watched_node : Node → HealingState → Py E HealingState
  unfolding instrument_node node_name run_node
  watched_node n = instrument_node t.type_name (node_name n) (run_node p deps n) t.sink

  unfoldable pub watched_run : ℕ → Node → HealingState → Py E (Option HealingState)
  unfolding watched_node
  watched_run zero n s = pure none
  watched_run (suc fuel) n s = do
    s' ← watched_node n s
    follow p deps (successor p.sha256_hex n s') s' (watched_run fuel)

  -- `build_graph(deps).ainvoke(state)`
  unfoldable pub watched_invoke : ℕ → HealingState → Py E (Option HealingState)
  unfolding watched_run
  watched_invoke fuel s = watched_run fuel bootstrap s
