-- ===== src/Orchestrator/Nodes/Context.antt =====
-- The pure helpers of src/orchestrator/nodes.py: what the agents are told of the state.
use self_healing_system_tfg.Base.{
  ℕ, Bool, true, false, not, List, [], ◌∷◌, ◌++◌, Option, none, some, map, ◌==◌, if◌then◌else◌,
  keep, last_n,
}
use self_healing_system_tfg.Python.Text.{Text, text, truthy, strip, join, str_nat}
use self_healing_system_tfg.Domain.Enums.{verdict_value}
use self_healing_system_tfg.Domain.Signature.{
  ErrorKind, crash, test, ErrorSignature, signature_text,
}
use self_healing_system_tfg.Domain.Models.{
  FailingTest, Patch, SandboxResult, FailedAttempt, TriggerEvent, FixContext,
}
use self_healing_system_tfg.Domain.State.{HealingState}
use self_healing_system_tfg.Orchestrator.Routers.{is_passed, went_green, is_other_error}

-- `_DEFAULT_TEST_COMMAND`
unfoldable pub default_test_command : List Text
unfolding text
default_test_command =
    text "python" ∷ text "-m" ∷ text "pytest" ∷ text "-x" ∷ text "--tb=short" ∷ []

abbrev pub retry_tail_budget : ℕ
retry_tail_budget = 1200

-- `state.get(key, default)`
abbrev pub get_or : {A : Type 0} → Option A → A → A
get_or none d = d
get_or (some a) d = a

abbrev pub or_else {ℓ} : {A : Type ℓ} → List A → List A → List A
or_else xs ys = if truthy xs then xs else ys

abbrev pub diff_of : Option Patch → Text
diff_of none = []
diff_of (some patch) = patch.diff_text

-- `_current_cycle_attempts`
unfoldable pub current_cycle_attempts : HealingState → List FailedAttempt
current_cycle_attempts s = keep (λ a. a.cycle_index == s.error_cycle_index) s.failed_attempts

-- The lines below the summary: a marker and the end of the captured output.
unfoldable pub tail_lines : Option SandboxResult → List Text
unfolding text strip
tail_lines none = []
tail_lines (some r) =
    if truthy (strip r.logs_tail)
    then text "Output (tail):" ∷ last_n retry_tail_budget r.logs_tail ∷ []
    else []

-- `_describe_attempt_for_retry`
unfoldable pub describe_attempt_for_retry : FailedAttempt → Text
unfolding tail_lines join
describe_attempt_for_retry a = join (10 ∷ []) (a.error_summary ∷ tail_lines a.sandbox_result)

abbrev exit_code_text : Option ℕ → Text
exit_code_text none = text "None"
exit_code_text (some n) = str_nat n

-- The reason that a sandbox result gives, if it is not a pass.
abbrev sandbox_reason : Option SandboxResult → Text
sandbox_reason none = text "unknown failure"
sandbox_reason (some r) =
    if is_passed r.verdict
    then text "unknown failure"
    else text "sandbox verdict="
      ++ verdict_value r.verdict
      ++ text " (exit_code="
      ++ exit_code_text r.exit_code
      ++ text ")"

abbrev has_patch : Option Patch → Bool
has_patch none = false
has_patch (some _) = true

-- `_summarise_failure`
unfoldable pub summarise_failure : HealingState → Text
summarise_failure s =
    if not (has_patch s.current_patch)
    then text "corrector produced no fix"
    else if s.regression_detected
    then text "fix cleared the target test but broke previously-passing tests (regression)"
    else sandbox_reason s.current_sandbox_result

-- `_residual_signature`
unfoldable pub residual_signature : (Text → Text) → HealingState → Option ErrorSignature
residual_signature sha s =
    if went_green s.current_sandbox_result
    then none
    else if is_other_error sha s.post_fix_signature s.current_error_signature
    then s.post_fix_signature
    else none

abbrev pub signature_or_unknown : (Text → Text) → Option ErrorSignature → Text
signature_or_unknown sha none = text "unknown error"
signature_or_unknown sha (some sig) = signature_text sha sig

-- `_fallback_commit_message`
unfoldable pub fallback_commit_message : (Text → Text) → Text → Option ErrorSignature → Text
fallback_commit_message sha incident_id sig =
    text "fix(self-healing): auto-patch for incident "
    ++ incident_id
    ++ text "\n\nResolved error: "
    ++ signature_or_unknown sha sig
    ++ text "\n"

-- `_incident_from_trigger`
unfoldable pub incident_from_trigger : TriggerEvent → Text
incident_from_trigger t = elim t.crash_report [
  | some report ↦ report.incident_id
  | none ↦ elim t.failing_test [ some failing ↦ failing.node_id | none ↦ text "unknown" ]
]

abbrev reproducer : ErrorKind → Option FailingTest → Option Text
reproducer test (some failing) = some failing.node_id
reproducer _ _ = none

-- `_build_fix_context`
unfoldable pub build_fix_context : HealingState → FixContext
unfolding current_cycle_attempts describe_attempt_for_retry text
build_fix_context s = record {
  incident_id = get_or s.current_incident_id (text "unknown");
  failure_output = s.current_failure_output;
  reproduce_cmd = s.reproduce_cmd;
  reproducer_node_id = reproducer (get_or s.entry_kind crash) s.failing_test;
  source_excerpts = [];
  previous_attempts = map describe_attempt_for_retry (current_cycle_attempts s);
  fix_diff = diff_of s.current_patch;
}
