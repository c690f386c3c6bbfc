-- ===== src/Orchestrator/Routers.antt =====
-- src/orchestrator/routers.py: the conditional edges, as functions of the state.
use self_healing_system_tfg.Base.{ℕ, Bool, true, false, not, Option, none, some, ltb, if◌then◌else◌}
use self_healing_system_tfg.Python.Text.{Text}
use self_healing_system_tfg.Domain.Enums.{
  SandboxVerdict, passed, RoutingDecision, to_fix, to_validation, to_immunize, to_rollback,
  to_post_mortem, finish,
}
use self_healing_system_tfg.Domain.Signature.{ErrorSignature, matches}
use self_healing_system_tfg.Domain.Models.{SandboxResult}
use self_healing_system_tfg.Domain.State.{HealingState}

abbrev pub has : {A : Type 0} → Option A → Bool
has none = false
has (some _) = true

-- `verdict is SandboxVerdict.PASSED`
abbrev pub is_passed : SandboxVerdict → Bool
is_passed passed = true
is_passed _ = false

-- `result is not None and result.verdict is SandboxVerdict.PASSED`
abbrev pub went_green : Option SandboxResult → Bool
went_green none = false
went_green (some r) = is_passed r.verdict

-- `post is not None and not post.matches(current)`
abbrev pub is_other_error : (Text → Text) → Option ErrorSignature → Option ErrorSignature → Bool
is_other_error sha none current = false
is_other_error sha (some post) current = not (matches sha post current)

abbrev pub or_default : Option ℕ → ℕ → ℕ
or_default none d = d
or_default (some n) d = n

unfoldable pub route_after_fix : HealingState → RoutingDecision
route_after_fix s = if has s.current_patch then to_validation else to_rollback

unfoldable pub route_after_validate : (Text → Text) → HealingState → RoutingDecision
route_after_validate sha s =
    if s.regression_detected
    then to_rollback
    else if went_green s.current_sandbox_result
    then to_immunize
    else if is_other_error sha s.post_fix_signature s.current_error_signature
    then to_immunize
    else to_rollback

unfoldable pub route_after_commit : HealingState → RoutingDecision
route_after_commit s = if s.should_continue then to_fix else finish

unfoldable pub route_after_rollback : HealingState → RoutingDecision
route_after_rollback s =
    if ltb s.attempt_count (or_default s.max_retries 3) then to_fix else to_post_mortem
