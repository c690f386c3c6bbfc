-- ===== src/Scripts/Session.antt =====
-- What the scripts share: the services that they wire, and a session of the pipeline on a new state.
use self_healing_system_tfg.Base.{
  ℕ, Bool, false, List, [], ◌∷◌, Option, none, some, if◌then◌else◌, any,
}
use self_healing_system_tfg.Python.Text.{Text, text, text_eq, truthy}
use self_healing_system_tfg.Python.Effects.{Py, pure, ◌>>=◌, ◌>>◌}
use self_healing_system_tfg.Python.Platform.{Platform}
use self_healing_system_tfg.Domain.Models.{TriggerEvent}
use self_healing_system_tfg.Domain.State.{HealingState}
use self_healing_system_tfg.Config.{Settings, Reading}
use self_healing_system_tfg.Ports.{Dependencies}
use self_healing_system_tfg.Orchestrator.Graph.{final_or_raise}
use self_healing_system_tfg.Agents.Swe.{MiniSweFixer}
use self_healing_system_tfg.Agents.Swe.Run.{swe_fix, verify_install}
use self_healing_system_tfg.Adapters.Real.{Outside, real_dependencies, real_fixer}
use self_healing_system_tfg.Observability.Ports.{Telemetry, instrument_dependencies, watched_invoke}
use self_healing_system_tfg.Scripts.Machine.{Machine}

-- All that a script runs on.
pub record Rig (E : Type 0) : Type 1 where
  pub machine : Machine E
  pub platform : Platform
  pub outside : Outside E
  pub telemetry : Telemetry E
  pub reading : Reading
  pub reports_dir : Text

-- `HealingState(trigger=…, workspace_path=…, …)`, with the keys that only some scripts set.
unfoldable pub new_state : TriggerEvent → Text → List Text → List Text → Option Text → HealingState
unfolding text
new_state trigger workspace reproduce_cmd regression_cmd image = record {
  trigger = trigger;
  workspace_path = workspace;
  session_id = [];
  entry_kind = none;
  reproduce_cmd = reproduce_cmd;
  regression_cmd = regression_cmd;
  regression_test_path = [];
  max_retries = none;
  error_cycle_budget = none;
  sandbox_image = image;
  crash_report = none;
  failing_test = none;
  current_incident_id = none;
  current_error_signature = none;
  current_failure_output = [];
  current_patch = none;
  current_sandbox_result = none;
  current_regression_test = none;
  post_fix_signature = none;
  post_fix_output = [];
  regression_detected = false;
  should_continue = false;
  attempt_count = 0;
  error_cycle_index = 0;
  failed_attempts = [];
  resolved_errors = [];
  logs = [];
  is_resolved = false;
  post_mortem_path = none;
}

-- LangGraph's default for `recursion_limit`.
abbrev pub default_recursion_limit : ℕ
default_recursion_limit = 25

module _ {E : Type 0} (rig : Rig E) where
  -- `use_docker`: `BENCHMARK_USE_DOCKER`, or the setting.
  abbrev uses_docker : Settings → Option Text → Bool
  uses_docker settings none = settings.sweagent_use_docker
  uses_docker settings (some val) =
      any (text_eq (rig.platform.unicode.lower val)) (text "1" ∷ text "true" ∷ text "yes" ∷ [])

  abbrev given_or : Option Text → Text → Text
  given_or none d = d
  given_or (some t) d = if truthy t then t else d

  abbrev image_of_env : Settings → Option Text → Text
  image_of_env settings none = settings.sweagent_docker_image
  image_of_env settings (some image) = image

  unfoldable pub bench_fixer : Settings → Text → Option Text → MiniSweFixer
  unfolding real_fixer text text_eq
  bench_fixer settings workspace image_override = record (real_fixer settings workspace) {
    use_docker = uses_docker settings (rig.machine.getenv (text "BENCHMARK_USE_DOCKER"));
    docker_image =
        given_or image_override
          (image_of_env settings (rig.machine.getenv (text "BENCHMARK_DOCKER_IMAGE")));
    container_workdir = settings.sandbox_workdir;
    python_executable = settings.sandbox_python;
  }

  -- `FilesystemReporter(settings)`, whose constructor makes the directory of the reports.
  unfoldable pub new_reporter : Settings → Py E (Unit {0})
  new_reporter settings = rig.machine.make_dirs settings.reports_dir

  -- `build_real_deps`: the constructor of the Corrector looks for mini-swe-agent, that of the writer of
  -- reports makes its directory.
  unfoldable pub build_real_deps : Settings → Text → Option Text → Py E (Dependencies E)
  unfolding bench_fixer real_dependencies swe_fix verify_install new_reporter
      instrument_dependencies
  build_real_deps settings workspace image_override = do
    verify_install rig.outside.swe
    new_reporter settings
    pure (
        instrument_dependencies rig.telemetry
          (record (real_dependencies rig.platform rig.outside settings workspace) {
            fix =
                swe_fix rig.outside.swe rig.platform rig.outside.resolve
                  (bench_fixer settings workspace image_override);
          }))

  -- `await graph.ainvoke(state, config)`, with the limit that the config names. That litellm's spans go to
  -- the same sink meanwhile (`using_llm_sink`) is left out.
  unfoldable pub run_session : Dependencies E → ℕ → HealingState → Py E HealingState
  unfolding watched_invoke text
  run_session deps limit s = do
    end ← watched_invoke rig.telemetry rig.platform deps limit s
    final_or_raise end
