-- ===== src/Domain/State.antt =====
-- src/core/domain/state.py: the state that the graph hands from node to node.
-- A key that is missing reads as its default: `none`, the empty text, the empty list, 0 or false,
-- where every reader of the program uses that default; the others are `Option`.
use self_healing_system_tfg.Base.{ℕ, Bool, List, Option}
use self_healing_system_tfg.Python.Text.{Text}
use self_healing_system_tfg.Domain.Signature.{ErrorKind, ErrorSignature}
use self_healing_system_tfg.Domain.Models.{
  CrashReport, FailingTest, Patch, SandboxResult, FailedAttempt, TriggerEvent, RegressionTest,
  ResolvedError,
}

pub record HealingState : Type 0 where
  pub trigger : TriggerEvent
  pub workspace_path : Text
  pub session_id : Text
  pub entry_kind : Option ErrorKind
  pub reproduce_cmd : List Text
  pub regression_cmd : List Text
  pub regression_test_path : Text
  pub max_retries : Option ℕ
  pub error_cycle_budget : Option ℕ
  pub sandbox_image : Option Text
  pub crash_report : Option CrashReport
  pub failing_test : Option FailingTest
  pub current_incident_id : Option Text
  pub current_error_signature : Option ErrorSignature
  pub current_failure_output : Text
  pub current_patch : Option Patch
  pub current_sandbox_result : Option SandboxResult
  pub current_regression_test : Option RegressionTest
  pub post_fix_signature : Option ErrorSignature
  pub post_fix_output : Text
  pub regression_detected : Bool
  pub should_continue : Bool
  pub attempt_count : ℕ
  pub error_cycle_index : ℕ
  pub failed_attempts : List FailedAttempt
  pub resolved_errors : List ResolvedError
  pub logs : List Text
  pub is_resolved : Bool
  pub post_mortem_path : Option Text
