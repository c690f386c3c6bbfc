-- ===== src/Ports.antt =====
-- src/core/ports and src/orchestrator/dependencies.py: what the orchestrator asks of its
-- collaborators. Each port's method is an action on the world; the adapters fill the record.
use self_healing_system_tfg.Base.{List, Option}
use self_healing_system_tfg.Config.{Settings}
use self_healing_system_tfg.Python.Text.{Text}
use self_healing_system_tfg.Python.Effects.{Py}
use self_healing_system_tfg.Domain.Models.{
  Patch, SandboxResult, FailedAttempt, TriggerEvent, FixContext, RegressionTest, ResolvedError,
}

-- `Dependencies`, with the one method of each port, or the two.
-- `uuid_hex` is `uuid.uuid4().hex`.
pub record Dependencies (E : Type 0) : Type 0 where
  pub settings : Settings
  pub fix : FixContext → Py E (Option Patch)
  pub write_regression_test : FixContext → Py E RegressionTest
  pub compose_commit_message :
      (incident_id error_signature diff_text : Text)
      → (prior_attempts : List Text) → (test_path : Option Text) → Py E Text
  pub compose_post_mortem :
      (incident_id : Text) → TriggerEvent → List FailedAttempt → List ResolvedError → Py E Text
  pub run_tests : (workspace_path image : Text) → (command : List Text) → Py E SandboxResult
  pub commit : (workspace_path message author_name author_email : Text) → Py E Text
  pub reset_hard : (workspace_path : Text) → Py E (Unit {0})
  pub write_post_mortem :
      (incident_id : Text) → TriggerEvent → List FailedAttempt → (narrative : Text) → Py E Text
  pub uuid_hex : Py E Text
