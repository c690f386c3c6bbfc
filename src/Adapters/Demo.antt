-- ===== src/Adapters/Demo.antt =====
-- A whole session on the deterministic adapters, as src/main.py wires them in its mock mode.
use self_healing_system_tfg.Base.{ℕ, ◌≡◌, refl, Bool, true, false, [], ◌∷◌, Option, none, some}
use self_healing_system_tfg.Python.Text.{Text, text}
use self_healing_system_tfg.Python.Effects.{Outcome, returned, World, pure, resume, handled}
use self_healing_system_tfg.Python.Files.{find_file, put_file}
use self_healing_system_tfg.Python.Platform.{Platform}
use self_healing_system_tfg.Domain.Enums.{passed, failed, production_crash}
use self_healing_system_tfg.Domain.Signature.Samples.{ascii}
use self_healing_system_tfg.Domain.Models.{TriggerEvent}
use self_healing_system_tfg.Domain.State.{HealingState}
use self_healing_system_tfg.Config.{Settings, defaults}
use self_healing_system_tfg.Ports.{Dependencies}
use self_healing_system_tfg.Orchestrator.Graph.{invoke, run_node, successor}
use self_healing_system_tfg.Orchestrator.Nodes.Bootstrap.{bootstrap_node}
use self_healing_system_tfg.Orchestrator.Nodes.Repair.{fix_node, validate_node, rollback_node}
use self_healing_system_tfg.Orchestrator.Nodes.Immunize.{immunize_node}
use self_healing_system_tfg.Orchestrator.Nodes.Commit.{report_commit_node, post_mortem_node}
use self_healing_system_tfg.Adapters.InMemory.{
  Scripted, mock_fix, mock_write_test, mock_commit_message, mock_post_mortem, scripted_run_tests,
  memory_commit, memory_reset_hard,
}
use self_healing_system_tfg.Adapters.Reports.{file_post_mortem}

-- A platform for tests: texts stand for their own hashes, and no source parses.
abbrev pub test_platform : Platform
test_platform = record {
  unicode = ascii;
  sha256_hex = λ s. s;
  pydantic_strip = λ s. s;
  ast_functions = λ _. none;
  ast_imports = λ _. none;
}

abbrev pub default_settings : Settings
default_settings = defaults (text "reports")

-- `_build_dependencies` in mock mode.
abbrev pub mock_dependencies : Dependencies Scripted
mock_dependencies = record {
  settings = default_settings;
  fix = mock_fix test_platform;
  write_regression_test = mock_write_test test_platform;
  compose_commit_message = mock_commit_message test_platform;
  compose_post_mortem = mock_post_mortem test_platform;
  run_tests = scripted_run_tests test_platform;
  commit = memory_commit;
  reset_hard = memory_reset_hard;
  write_post_mortem =
      file_post_mortem ascii.alnum (λ _. text "then") (λ _. text "then") (text "reports");
  uuid_hex = pure (text "0123456789abcdef");
}

-- The trigger of `_build_initial_state`.
abbrev pub demo_trigger : TriggerEvent
demo_trigger = record {
  trigger_type = production_crash;
  crash_report = some (record {
    incident_id = text "demo-1";
    service_name = text "billing-api";
    stack_trace =
        text
          "Traceback (most recent call last):\n  File \"src/billing.py\", line 42, in compute_total\n    return sum(items)\nTypeError: bad";
    commit_sha = text "0123456789abcdef";
  });
  failing_test = none;
}

-- A state in which only the trigger and the workspace are given.
abbrev pub initial_state : TriggerEvent → Text → HealingState
initial_state trigger workspace = record {
  trigger = trigger;
  workspace_path = workspace;
  session_id = [];
  entry_kind = none;
  reproduce_cmd = [];
  regression_cmd = [];
  regression_test_path = [];
  max_retries = none;
  error_cycle_budget = none;
  sandbox_image = none;
  crash_report = none;
  failing_test = none;
  current_incident_id = none;
  current_error_signature = none;
  current_failure_output = [];
  current_patch = none;
  current_sandbox_result = none;
  current_regression_test = none;
  post_fix_signature = none;
  post_fix_output = [];
  regression_detected = false;
  should_continue = false;
  attempt_count = 0;
  error_cycle_index = 0;
  failed_attempts = [];
  resolved_errors = [];
  logs = [];
  is_resolved = false;
  post_mortem_path = none;
}

-- The world of `_build_mock_agents` and `_build_mock_infra`.
abbrev pub demo_world : World Scripted
demo_world = record {
  files = [];
  denied = λ _ _. false;
  env = record {
    results = [];
    queue = failed ∷ passed ∷ [];
    default_verdict = passed;
    commits = [];
    reset_count = 0;
    fail_on_attempts = 0 ∷ [];
  };
}

abbrev resolved_after : Outcome (Option HealingState) × World Scripted → Option (Bool × ℕ)
resolved_after (returned (some s), w) = some (s.is_resolved, w.env.reset_count)
resolved_after _ = none

-- All of the code that a run computes.
unfoldable pub mock_program : Unit {0}
unfolding invoke run_node successor bootstrap_node fix_node validate_node rollback_node
    immunize_node report_commit_node post_mortem_node mock_fix mock_write_test mock_commit_message
    mock_post_mortem scripted_run_tests memory_commit memory_reset_hard file_post_mortem resume
    handled text find_file put_file
mock_program = tt

-- One attempt fails in the Corrector, one in the sandbox, and the third heals the crash.
demo_run :
    resolved_after (
      invoke test_platform mock_dependencies 10 (initial_state demo_trigger (text "/w")) demo_world)
    ≡ some (true, 2)
unfolding mock_program
demo_run = refl
