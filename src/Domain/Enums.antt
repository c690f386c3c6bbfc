-- ===== src/Domain/Enums.antt =====
-- src/core/domain/enums.py, with the values of the string enumerations.
use self_healing_system_tfg.Python.Text.{Text, text}

pub data TriggerType : Type 0 where
  production_crash test_failure : TriggerType

pub data SandboxVerdict : Type 0 where
  passed failed timeout infrastructure_error : SandboxVerdict

pub data RoutingDecision : Type 0 where
  to_fix to_validation to_immunize to_rollback to_post_mortem finish : RoutingDecision

-- `verdict.value`
unfoldable pub verdict_value : SandboxVerdict → Text
unfolding text
verdict_value passed = text "passed"
verdict_value failed = text "failed"
verdict_value timeout = text "timeout"
verdict_value infrastructure_error = text "infrastructure_error"

-- `trigger_type.value`
unfoldable pub trigger_value : TriggerType → Text
unfolding text
trigger_value production_crash = text "production_crash"
trigger_value test_failure = text "test_failure"
