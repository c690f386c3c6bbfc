-- ===== src/Orchestrator/Nodes/Commit.antt =====
-- `report_commit_node` and `post_mortem_node`: what a session leaves behind.
use self_healing_system_tfg.Base.{
  ◌+◌, Bool, true, false, [], ◌∷◌, ◌++◌, Option, none, some, map, ltb,
}
use self_healing_system_tfg.Python.Text.{Text, text, str_nat}
use self_healing_system_tfg.Python.Effects.{Py, pure, rescue, ◌>>=◌}
use self_healing_system_tfg.Python.Platform.{Platform}
use self_healing_system_tfg.Domain.Signature.{crash, ErrorSignature, signature_text}
use self_healing_system_tfg.Domain.Models.{RegressionTest, ResolvedError, new_resolved_error}
use self_healing_system_tfg.Domain.State.{HealingState}
use self_healing_system_tfg.Ports.{Dependencies}
use self_healing_system_tfg.Orchestrator.Routers.{or_default}
use self_healing_system_tfg.Orchestrator.Nodes.Context.{
  get_or, or_else, diff_of, current_cycle_attempts, describe_attempt_for_retry, residual_signature,
  signature_or_unknown, fallback_commit_message, incident_from_trigger,
}
use self_healing_system_tfg.Orchestrator.Nodes.Repair.{log_line}

abbrev test_path_of : Option RegressionTest → Option Text
test_path_of none = none
test_path_of (some t) = some t.path

abbrev incident_of : HealingState → Text
incident_of s = get_or s.current_incident_id (text "unknown")

-- `ErrorSignature(kind=fallback_kind)` where no signature is known.
abbrev signature_of : HealingState → ErrorSignature
signature_of s =
    get_or s.current_error_signature (record {
      kind = get_or s.entry_kind crash;
      exc_type = [];
      location = [];
      normalized_msg = [];
    })

module _ (p : Platform) (s : HealingState) where
  unfoldable pub resolved_error : Text → ResolvedError
  unfolding new_resolved_error
  resolved_error sha =
      new_resolved_error p.pydantic_strip (signature_of s) sha
        (test_path_of s.current_regression_test)

  -- The part of the update that every commit makes.
  unfoldable pub recorded : Text → HealingState
  unfolding resolved_error text signature_text
  recorded sha = record s {
    resolved_errors = s.resolved_errors ++ resolved_error sha ∷ [];
    is_resolved = true;
    logs = log_line s (
        text "report_commit.sha="
        ++ sha
        ++ text " resolved="
        ++ signature_text p.sha256_hex (signature_of s));
  }

  -- The chain goes on: the scratch of the healed error is reset, and the next error is current.
  unfoldable pub advanced : HealingState → ErrorSignature → HealingState
  unfolding text str_nat
  advanced r residual = record r {
    should_continue = true;
    current_error_signature = some residual;
    current_failure_output = s.post_fix_output;
    current_incident_id =
        some (incident_of s ++ text "-chain" ++ str_nat (s.error_cycle_index + 1));
    error_cycle_index = s.error_cycle_index + 1;
    attempt_count = 0;
    current_patch = none;
    current_sandbox_result = none;
    current_regression_test = none;
    post_fix_signature = none;
    post_fix_output = [];
  }

  abbrev pub finish_or_advance : HealingState → Option ErrorSignature → Bool → HealingState
  finish_or_advance r (some residual) true = advanced r residual
  finish_or_advance r _ _ = record r { should_continue = false }

  -- `(cycle_index + 1) < budget`
  abbrev pub budget_left : Bool
  budget_left = ltb (s.error_cycle_index + 1) (or_default s.error_cycle_budget 1)

  -- The merged update of `report_commit_node`, for a commit's hash.
  unfoldable pub committed : Text → HealingState
  unfolding recorded advanced residual_signature
  committed sha = finish_or_advance (recorded sha) (residual_signature p.sha256_hex s) budget_left

-- The merged update of `post_mortem_node`.
unfoldable pub reported : HealingState → Text → HealingState
unfolding text
reported s path = record s {
  post_mortem_path = some path;
  is_resolved = false;
  logs = log_line s (text "post_mortem.report=" ++ path);
}

module _ {E : Type 0} (p : Platform) (deps : Dependencies E) where
  unfoldable pub report_commit_node : HealingState → Py E HealingState
  unfolding current_cycle_attempts describe_attempt_for_retry fallback_commit_message committed text
      signature_text
  report_commit_node s =
      let compose : Py E Text =
        deps.compose_commit_message (incident_of s)
          (signature_or_unknown p.sha256_hex s.current_error_signature) (diff_of s.current_patch)
          (map describe_attempt_for_retry (current_cycle_attempts s))
          (test_path_of s.current_regression_test) in
      let fallback =
        fallback_commit_message p.sha256_hex (incident_of s) s.current_error_signature in
      do
        message ← rescue compose (λ _. pure fallback)
        sha ←
            deps.commit s.workspace_path message deps.settings.git_author_name
              deps.settings.git_author_email
        pure (committed p s sha)

  unfoldable pub post_mortem_node : HealingState → Py E HealingState
  unfolding incident_from_trigger reported
  post_mortem_node s =
      let incident = or_else (get_or s.current_incident_id []) (incident_from_trigger s.trigger) in
      let compose : Py E Text =
        deps.compose_post_mortem incident s.trigger s.failed_attempts s.resolved_errors in
      do
        narrative ← rescue compose (λ _. pure [])
        path ← deps.write_post_mortem incident s.trigger s.failed_attempts narrative
        pure (reported s path)
