-- ===== src/Domain/Models.antt =====
-- src/core/domain/models.py. Timestamps and durations are left out: no decision reads them.
-- A model with `str_strip_whitespace` is built by a function that strips its texts; the others
-- (`_CodeFrozenModel`) keep them.
use self_healing_system_tfg.Base.{ℕ, List, Option, none, some}
use self_healing_system_tfg.Python.Text.{Text}
use self_healing_system_tfg.Domain.Enums.{
  TriggerType, production_crash, test_failure, SandboxVerdict,
}
use self_healing_system_tfg.Domain.Signature.{ErrorSignature}

pub record CrashReport : Type 0 where
  pub incident_id : Text
  pub service_name : Text
  pub stack_trace : Text
  pub commit_sha : Text

pub record FailingTest : Type 0 where
  pub node_id : Text
  pub source : Text
  pub last_failure_output : Text

pub record Patch : Type 0 where
  pub diff_text : Text
  pub author_agent : Text

pub record SandboxResult : Type 0 where
  pub verdict : SandboxVerdict
  pub exit_code : Option ℕ
  pub logs_tail : Text

pub record FailedAttempt : Type 0 where
  pub attempt_index : ℕ
  pub cycle_index : ℕ
  pub patch : Option Patch
  pub sandbox_result : Option SandboxResult
  pub error_summary : Text

pub record TriggerEvent : Type 0 where
  pub trigger_type : TriggerType
  pub crash_report : Option CrashReport
  pub failing_test : Option FailingTest

pub record SourceExcerpt : Type 0 where
  pub file_path : Text
  pub content : Text

pub record FixContext : Type 0 where
  pub incident_id : Text
  pub failure_output : Text
  pub reproduce_cmd : List Text
  pub reproducer_node_id : Option Text
  pub source_excerpts : List SourceExcerpt
  pub previous_attempts : List Text
  pub fix_diff : Text

pub record RegressionTest : Type 0 where
  pub path : Text
  pub node_id : Text
  pub source : Text

pub record ResolvedError : Type 0 where
  pub signature : ErrorSignature
  pub commit_sha : Text
  pub test_path : Option Text

-- The constructors of the stripping models, over pydantic's stripping.
module _ (strip : Text → Text) where
  unfoldable pub new_crash_report : Text → Text → Text → Text → CrashReport
  new_crash_report incident service trace sha = record {
    incident_id = strip incident;
    service_name = strip service;
    stack_trace = strip trace;
    commit_sha = strip sha;
  }

  unfoldable pub new_failing_test : Text → Text → Text → FailingTest
  new_failing_test node source output = record {
    node_id = strip node;
    source = strip source;
    last_failure_output = strip output;
  }

  unfoldable pub new_patch : Text → Text → Patch
  new_patch diff author = record { diff_text = strip diff; author_agent = strip author }

  unfoldable pub new_sandbox_result : SandboxVerdict → Option ℕ → Text → SandboxResult
  new_sandbox_result verdict code logs = record {
    verdict = verdict;
    exit_code = code;
    logs_tail = strip logs;
  }

  unfoldable pub new_failed_attempt :
      ℕ → ℕ → Option Patch → Option SandboxResult → Text → FailedAttempt
  new_failed_attempt index cycle patch result summary = record {
    attempt_index = index;
    cycle_index = cycle;
    patch = patch;
    sandbox_result = result;
    error_summary = strip summary;
  }

  unfoldable pub new_resolved_error : ErrorSignature → Text → Option Text → ResolvedError
  new_resolved_error sig sha path = record {
    signature = sig;
    commit_sha = strip sha;
    test_path = elim path [ some t ↦ some (strip t) | none ↦ none ];
  }

-- `TriggerEvent(...)`: `model_post_init` raises, and there is no value, unless the payload that the
-- type calls for is there.
unfoldable pub new_trigger :
    TriggerType → Option CrashReport → Option FailingTest → Option TriggerEvent
new_trigger production_crash none test = none
new_trigger test_failure report none = none
new_trigger kind report test =
    some (record { trigger_type = kind; crash_report = report; failing_test = test })
