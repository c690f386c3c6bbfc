-- ===== src/Scripts/Swebench/Run.antt =====
-- scripts/run_swebench.py: one instance, checked or healed, and the loop over the instances. The
-- figures of the telemetry are left out of a row.
use self_healing_system_tfg.Base.{
  ℕ, Bool, true, false, ◌&&◌, ◌||◌, List, [], ◌∷◌, ◌++◌, Option, none, some, if◌then◌else◌, take,
  last_n, length,
}
use self_healing_system_tfg.Python.Text.{Text, text, truthy, strip}
use self_healing_system_tfg.Python.Effects.{other, Py, pure, throw, ◌>>=◌, ◌>>◌}
use self_healing_system_tfg.Python.Files.{append_text}
use self_healing_system_tfg.Domain.Enums.{test_failure, SandboxVerdict, failed, verdict_value}
use self_healing_system_tfg.Domain.Models.{SandboxResult, new_failing_test, new_trigger}
use self_healing_system_tfg.Domain.State.{HealingState}
use self_healing_system_tfg.Config.{Settings}
use self_healing_system_tfg.Ports.{Dependencies}
use self_healing_system_tfg.Orchestrator.Routers.{is_passed}
use self_healing_system_tfg.Orchestrator.Nodes.Session.{session_path}
use self_healing_system_tfg.Adapters.Docker.{docker_run_tests}
use self_healing_system_tfg.Scripts.Machine.{below}
use self_healing_system_tfg.Scripts.Select.{Instance, Literals, parse_fail_to_pass}
use self_healing_system_tfg.Scripts.Session.{Rig, new_state, build_real_deps, run_session}
use self_healing_system_tfg.Scripts.Benchmark.{trigger_or_raise}
use self_healing_system_tfg.Scripts.Swebench.{
  pytest_command, git_apply, prepare_instance, read_test_source, extract_model_patch, wipe,
}

-- The row of a check: the sandbox could not be reached, or what the two runs came to.
pub data SanityRow : Type 0 where
  unreachable : Text → List Text → SanityRow
  compared :
      (ok fails_before passes_after : Bool)
      → (before after : SandboxVerdict) → List Text
      → (after_log : Option Text) → SanityRow

-- `verdict is SandboxVerdict.FAILED`
abbrev pub is_failed : SandboxVerdict → Bool
is_failed failed = true
is_failed _ = false

-- The row of a session.
pub record HealRow : Type 0 where
  pub resolved : Bool
  pub skipped : Option Text
  pub attempts : ℕ
  pub chained_errors : ℕ
  pub patch_bytes : ℕ

unfoldable pub skipped_row : Text → HealRow
skipped_row reason = record {
  resolved = false;
  skipped = some reason;
  attempts = 0;
  chained_errors = 0;
  patch_bytes = 0;
}

-- A row of the loop.
pub data Report : Type 0 where
  checked : SanityRow → Report
  healed : HealRow → Report
  errored : Text → Report

pub record InstanceRow : Type 0 where
  pub instance_id : Text
  pub report : Report
  pub duration : Text

-- `nodes[0]`
abbrev pub first_node : {E : Type 0} → List Text → Py E Text
first_node [] = throw (other (text "list index out of range"))
first_node (node ∷ nodes) = pure node

-- `recursion_limit` of the script.
abbrev pub recursion_limit : ℕ
recursion_limit = 150

module _ {E : Type 0} (rig : Rig E) (literals : Literals) where
  abbrev workspace_root : Text
  workspace_root = below rig.machine.project_root (text ".workspaces/swebench")

  abbrev pub repo_dir : Text
  repo_dir = below workspace_root (text "repo")

  -- The row of a check from its two verdicts.
  abbrev compare : List Text → SandboxVerdict → SandboxResult → SanityRow
  compare test_paths before after =
      let ok = is_failed before && is_passed after.verdict in
      compared ok (is_failed before) (is_passed after.verdict) before after.verdict test_paths
        (if ok then none else some (last_n 1500 after.logs_tail))

  -- The second run, on the golden patch.
  unfoldable pub rerun_patched :
      Instance → Settings → Text → Text → List Text → List Text → SandboxVerdict → Py E SanityRow
  unfolding docker_run_tests git_apply session_path text
  rerun_patched i settings image workspace cmd test_paths before = do
    git_apply rig.machine repo_dir i.patch
    after ← docker_run_tests rig.outside.docker rig.platform settings workspace image cmd
    pure (compare test_paths before after)

  -- `sanity_one`
  unfoldable pub sanity_one : Instance → Settings → Text → Py E SanityRow
  unfolding wipe prepare_instance parse_fail_to_pass pytest_command docker_run_tests verdict_value
      rerun_patched session_path text
  sanity_one i settings image = do
    wipe rig.machine workspace_root
    test_paths ← prepare_instance rig.machine repo_dir i
    workspace ← rig.machine.resolve_path repo_dir
    let cmd = pytest_command settings.sandbox_python (parse_fail_to_pass literals i.fail_to_pass)
    before ← docker_run_tests rig.outside.docker rig.platform settings workspace image cmd
    if is_passed before.verdict || is_failed before.verdict
        then rerun_patched i settings image workspace cmd test_paths before.verdict
        else pure (
            unreachable (verdict_value before.verdict ++ text ": " ++ take 200 before.logs_tail)
              test_paths)

  module _ (prediction_line : Text → Text → Text) where
    -- `write_prediction`; `prediction_line` is the `json.dumps` of an id and a patch.
    unfoldable pub write_prediction : Text → Text → Text → Py E (Unit {0})
    unfolding append_text text
    write_prediction path instance_id model_patch =
        append_text path (prediction_line instance_id model_patch ++ text "\n")

    -- From the end of the session to the row.
    unfoldable pub record_result : Instance → Text → List Text → HealingState → Py E HealRow
    unfolding extract_model_patch write_prediction strip
    record_result i predictions_path test_paths final = do
      model_patch ←
          if final.is_resolved
          then extract_model_patch rig.machine repo_dir i.base_commit test_paths
          else pure []
      if final.is_resolved && truthy (strip model_patch)
          then write_prediction predictions_path i.instance_id model_patch
          else pure tt
      pure (record {
        resolved = final.is_resolved;
        skipped = none;
        attempts = final.attempt_count;
        chained_errors = final.error_cycle_index;
        patch_bytes = length model_patch;
      })

    -- The session on a failure that was reproduced.
    unfoldable pub heal_failure :
        Dependencies E → Instance → Settings → Text → Text → Text → Py E HealingState
    unfolding parse_fail_to_pass read_test_source new_failing_test new_trigger new_state
        pytest_command run_session
    heal_failure deps i settings image workspace logs_tail = do
      let nodes = parse_fail_to_pass literals i.fail_to_pass
      let protected = parse_fail_to_pass literals i.pass_to_pass
      node ← first_node nodes
      source ← read_test_source rig.machine repo_dir node
      trigger ← trigger_or_raise (
          new_trigger test_failure none (
            some
              (new_failing_test rig.platform.pydantic_strip node source (last_n 4096 logs_tail))))
      run_session rig deps recursion_limit (
          new_state trigger workspace (pytest_command settings.sandbox_python nodes)
            (if truthy protected then pytest_command settings.sandbox_python protected else [])
            (some image))

    -- What follows the reproduction.
    unfoldable pub heal_reproduced :
        Dependencies E → Instance → Settings → Text → Text → Text → List Text → Text → Py E HealRow
    unfolding heal_failure record_result
    heal_reproduced deps i settings image predictions_path workspace test_paths logs_tail = do
      final ← heal_failure deps i settings image workspace logs_tail
      record_result i predictions_path test_paths final

    -- `heal_one`
    unfoldable pub heal_one : Instance → Settings → Text → Text → Py E HealRow
    unfolding wipe prepare_instance parse_fail_to_pass build_real_deps pytest_command
        heal_reproduced skipped_row verdict_value session_path text
    heal_one i settings image predictions_path = do
      wipe rig.machine workspace_root
      test_paths ← prepare_instance rig.machine repo_dir i
      workspace ← rig.machine.resolve_path repo_dir
      deps ← build_real_deps rig settings workspace (some image)
      failure ←
          deps.run_tests workspace image
            (pytest_command settings.sandbox_python (parse_fail_to_pass literals i.fail_to_pass))
      if is_failed failure.verdict
          then heal_reproduced deps i settings image predictions_path workspace test_paths
              failure.logs_tail
          else pure (
              skipped_row (
                if is_passed failure.verdict
                then text "tests already pass"
                else text "cannot reproduce ("
                  ++ verdict_value failure.verdict
                  ++ text "); image present? "
                  ++ take 160 failure.logs_tail))
