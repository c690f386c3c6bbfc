-- ===== src/Orchestrator/Nodes/Repair.antt =====
-- `fix_node`, `validate_node` and `rollback_node`: an attempt, its verdict, and its undoing.
use self_healing_system_tfg.Base.{
  ℕ, ◌+◌, Bool, true, false, not, ◌&&◌, List, [], ◌∷◌, ◌++◌, Option, none, some, length, ◌==◌,
  if◌then◌else◌,
}
use self_healing_system_tfg.Python.Text.{Text, text, truthy, str_nat}
use self_healing_system_tfg.Python.Effects.{
  Exn, fix_generation, World, Py, returned, pure, throw, rescue, ◌>>=◌, ◌>>◌,
}
use self_healing_system_tfg.Python.Platform.{Platform}
use self_healing_system_tfg.Domain.Enums.{infrastructure_error, verdict_value}
use self_healing_system_tfg.Domain.Signature.{crash, ErrorSignature}
use self_healing_system_tfg.Domain.Signature.Parse.{parse_error}
use self_healing_system_tfg.Domain.Models.{
  Patch, SandboxResult, new_sandbox_result, new_failed_attempt,
}
use self_healing_system_tfg.Domain.State.{HealingState}
use self_healing_system_tfg.Ports.{Dependencies}
use self_healing_system_tfg.Orchestrator.Routers.{is_passed}
use self_healing_system_tfg.Orchestrator.Regression.{changed_source_files, select_related_tests}
use self_healing_system_tfg.Orchestrator.Nodes.Context.{
  default_test_command, get_or, or_else, build_fix_context, summarise_failure,
}

abbrev pub log_line : HealingState → Text → List Text
log_line s line = s.logs ++ line ∷ []

-- The merged update of `fix_node`.
unfoldable pub with_patch : HealingState → Option Patch → Text → HealingState
with_patch s patch line = record s { current_patch = patch; logs = log_line s line }

abbrev pub patched : HealingState → Option Patch → HealingState
patched s none = with_patch s none (text "fix.no_patch")
patched s (some patch) =
    with_patch s (some patch)
      (text "fix.patch: " ++ str_nat (length patch.diff_text) ++ text " bytes")

-- The merged update of `validate_node`, on its three ways out.
unfoldable pub invalid_state : Platform → HealingState → HealingState
unfolding text new_sandbox_result
invalid_state p s = record s {
  current_sandbox_result = some (
      new_sandbox_result p.pydantic_strip infrastructure_error none
        (text "missing workspace_path"));
  post_fix_signature = none;
  post_fix_output = [];
  logs = log_line s (text "validate.invalid_state");
}

unfoldable pub regressed : HealingState → SandboxResult → HealingState
unfolding text verdict_value
regressed s gate = record s {
  current_sandbox_result = some gate;
  post_fix_signature = none;
  post_fix_output = [];
  regression_detected = true;
  logs = log_line s (text "validate.regression(gate=" ++ verdict_value gate.verdict ++ text ")");
}

-- `None` on a pass, else what the output says.
unfoldable pub signature_after : Platform → HealingState → SandboxResult → Option ErrorSignature
unfolding parse_error
signature_after p s result =
    if is_passed result.verdict
    then none
    else parse_error p.unicode result.logs_tail (get_or s.entry_kind crash) s.workspace_path

unfoldable pub judged : Platform → HealingState → SandboxResult → HealingState
unfolding text verdict_value signature_after
judged p s result = record s {
  current_sandbox_result = some result;
  post_fix_signature = signature_after p s result;
  post_fix_output = result.logs_tail;
  regression_detected = false;
  logs = log_line s (text "validate.verdict=" ++ verdict_value result.verdict);
}

abbrev pub is_five : Option ℕ → Bool
is_five none = false
is_five (some n) = n == 5

-- A protected test broke: not a pass, and not pytest's exit code 5 for "no tests collected".
unfoldable pub breaks : SandboxResult → Bool
breaks gate = not (is_passed gate.verdict) && not (is_five gate.exit_code)

abbrev pub head_or_empty : List Text → Text
head_or_empty [] = []
head_or_empty (t ∷ _) = t

-- The merged update of `rollback_node`.
unfoldable pub rolled_back : Platform → HealingState → HealingState
unfolding new_failed_attempt summarise_failure str_nat text
rolled_back p s =
    let attempt =
      new_failed_attempt p.pydantic_strip s.attempt_count s.error_cycle_index s.current_patch
        s.current_sandbox_result (summarise_failure s) in
    record s {
      failed_attempts = s.failed_attempts ++ attempt ∷ [];
      attempt_count = s.attempt_count + 1;
      current_failure_output = or_else s.post_fix_output s.current_failure_output;
      current_patch = none;
      current_sandbox_result = none;
      post_fix_signature = none;
      post_fix_output = [];
      regression_detected = false;
      logs = log_line s (
          text "rollback.attempt_"
          ++ str_nat s.attempt_count
          ++ text ": "
          ++ attempt.error_summary);
    }

module _ {E : Type 0} (p : Platform) (deps : Dependencies E) where
  -- `except FixGenerationError`; any other exception goes on up.
  abbrev pub except_fix_error : HealingState → Exn → Py E HealingState
  except_fix_error s (fix_generation m) = pure (with_patch s none (text "fix.error: " ++ m))
  except_fix_error s e = throw e

  unfoldable pub fix_node : HealingState → Py E HealingState
  unfolding build_fix_context with_patch
  fix_node s =
      let body : Py E HealingState = (do
        patch ← deps.fix (build_fix_context s)
        pure (patched s patch)) in
      rescue body (except_fix_error s)

  abbrev related_command : HealingState → List Text → List Text
  related_command s [] = []
  related_command s (t ∷ ts) =
      head_or_empty (or_else s.reproduce_cmd default_test_command)
        ∷ text "-m"
        ∷ text "pytest"
        ∷ (t ∷ ts)
      ++ text "-x" ∷ text "--tb=short" ∷ []

  -- `_related_tests_cmd`
  unfoldable pub related_tests_cmd : HealingState → World E → List Text
  unfolding select_related_tests changed_source_files default_test_command text
  related_tests_cmd s w = elim s.current_patch [
    | none ↦ []
    | some patch ↦
        if truthy patch.diff_text
        then related_command s
            (select_related_tests p w s.workspace_path (changed_source_files patch.diff_text))
        else []
  ]

  abbrev pub image_of : HealingState → Text
  image_of s = get_or s.sandbox_image deps.settings.sandbox_image

  -- The gate after a pass, with the protected tests' command.
  abbrev pub gated : HealingState → SandboxResult → List Text → Py E HealingState
  gated s result [] = pure (judged p s result)
  gated s result (c ∷ cmd) = do
    gate ← deps.run_tests s.workspace_path (image_of s) (c ∷ cmd)
    pure (if breaks gate then regressed s gate else judged p s result)

  abbrev pub after_run : HealingState → SandboxResult → Py E HealingState
  after_run s result w =
      if is_passed result.verdict
      then gated s result (or_else s.regression_cmd (related_tests_cmd s w)) w
      else (returned (judged p s result), w)

  unfoldable pub validate_node : HealingState → Py E HealingState
  unfolding related_tests_cmd default_test_command judged regressed invalid_state breaks
  validate_node s =
      let run : Py E HealingState = (do
        result ←
            deps.run_tests s.workspace_path (image_of s)
              (or_else s.reproduce_cmd default_test_command)
        after_run s result) in
      if truthy s.workspace_path then run else pure (invalid_state p s)

  unfoldable pub rollback_node : HealingState → Py E HealingState
  unfolding rolled_back
  rollback_node s =
      let reset : Py E HealingState = (do
        rescue (deps.reset_hard s.workspace_path) (λ _. pure tt)
        pure (rolled_back p s)) in
      if truthy s.workspace_path then reset else pure (rolled_back p s)
