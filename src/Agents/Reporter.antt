-- ===== src/Agents/Reporter.antt =====
-- src/agents/llm_reporter.py: commit messages and post-mortems by a language model, best-effort.
use self_healing_system_tfg.Base.{
  ◌≡◌, List, [], ◌∷◌, ◌++◌, Option, none, some, if◌then◌else◌, take, length, map,
}
use self_healing_system_tfg.Python.Text.{Text, text, truthy, strip, join, str_nat}
use self_healing_system_tfg.Python.Effects.{
  Exn, runtime_error, returned, World, Py, pure, throw, rescue, ◌>>=◌,
}
use self_healing_system_tfg.Python.Effects.Raises.{
  RaisesOnly, Never, raises_returned, handled-RaisesOnly, resume-RaisesOnly, Never-returns,
}
use self_healing_system_tfg.Domain.Enums.{trigger_value}
use self_healing_system_tfg.Domain.Models.{TriggerEvent, FailedAttempt, ResolvedError}
use self_healing_system_tfg.Agents.Prompts.{commit_prompt, post_mortem_prompt}
use self_healing_system_tfg.Agents.Llm.{
  LiteLlm, acomplete, acomplete-RaisesOnly, IsRuntimeError, IsMissing, IsRead,
}

-- The fields that `LLMReporter.__init__` stores.
pub record LlmReporter : Type 0 where
  pub model_name : Text
  pub temperature : Text
  pub timeout_seconds : Text

-- `_fallback_commit`
unfoldable pub fallback_commit : Text → Text → Text
unfolding text
fallback_commit incident_id error_signature =
    text "fix(self-healing): resolve "
    ++ error_signature
    ++ text "\n\nAuto-healed incident "
    ++ incident_id
    ++ text " by the self-healing pipeline.\n"

abbrev test_line : Option Text → Text
test_line none = []
test_line (some path) =
    if truthy path then text "Regression test added: " ++ path ++ text "\n" else []

unfoldable pub commit_request : Text → Text → Text → List Text → Option Text → Text
unfolding str_nat text
commit_request incident_id error_signature diff_text prior_attempts test_path =
    text "Incident: "
    ++ incident_id
    ++ text "\nError fixed: "
    ++ error_signature
    ++ text "\nAttempts before success: "
    ++ str_nat (length prior_attempts)
    ++ text "\n"
    ++ test_line test_path
    ++ text "\n## Diff of the fix\n```diff\n"
    ++ take 6000 diff_text
    ++ text "\n```\n"

abbrev attempt_line : FailedAttempt → Text
attempt_line a = text "- attempt " ++ str_nat a.attempt_index ++ text ": " ++ a.error_summary

unfoldable pub post_mortem_request :
    Text → TriggerEvent → List FailedAttempt → List ResolvedError → Text
unfolding str_nat text join trigger_value
post_mortem_request incident_id trigger attempts resolved =
    text "Incident: "
    ++ incident_id
    ++ text "\nTrigger: "
    ++ trigger_value trigger.trigger_type
    ++ text "\nErrors healed earlier in the chain: "
    ++ str_nat (length resolved)
    ++ text "\nFailed attempts on the final error: "
    ++ str_nat (length attempts)
    ++ text "\n\n## Attempt summaries\n"
    ++ join (text "\n") (map attempt_line attempts)
    ++ text "\n"

module _ {E : Type 0} (api : LiteLlm E) where
  -- `acomplete` with the Reporter's settings and a prompt of two messages.
  abbrev ask : LlmReporter → Text → Text → Py E Text
  ask reporter prompt user =
      acomplete api reporter.model_name
        (record { role = text "system"; content = prompt }
          ∷ record { role = text "user"; content = user }
          ∷ [])
        reporter.temperature reporter.timeout_seconds

  -- `except RuntimeError: return fallback`
  abbrev except_runtime_error : Text → Exn → Py E Text
  except_runtime_error fallback (runtime_error m) = pure fallback
  except_runtime_error fallback e = throw e

  -- `LLMReporter.compose_commit_message`
  unfoldable pub llm_compose_commit_message :
      LlmReporter
      → (incident_id error_signature diff_text : Text) → List Text
      → Option Text
      → Py E Text
  unfolding acomplete commit_request fallback_commit commit_prompt strip text
  llm_compose_commit_message reporter incident_id error_signature diff_text prior_attempts
        test_path =
      let fallback = fallback_commit incident_id error_signature in
      let user = commit_request incident_id error_signature diff_text prior_attempts test_path in
      let body : Py E Text = (do
        message ← ask reporter commit_prompt user
        pure (if truthy (strip message) then strip message else fallback)) in
      rescue body (except_runtime_error fallback)

  -- `LLMReporter.compose_post_mortem`
  unfoldable pub llm_compose_post_mortem :
      LlmReporter → Text → TriggerEvent → List FailedAttempt → List ResolvedError → Py E Text
  unfolding acomplete post_mortem_request post_mortem_prompt strip text
  llm_compose_post_mortem reporter incident_id trigger attempts resolved =
      let body : Py E Text = (do
        narrative ←
            ask reporter post_mortem_prompt
              (post_mortem_request incident_id trigger attempts resolved)
        pure (strip narrative)) in
      rescue body (except_runtime_error [])

  module _ (imports : (w : World E) → RaisesOnly IsMissing (api.import_litellm w))
      (reads : (r : api.Response) → IsRead (api.content_of r)) where
    swallowed :
        (fallback : Text) (e : Exn) (w : World E)
        → IsRuntimeError e
        → RaisesOnly Never (except_runtime_error fallback e w)
    swallowed fallback (runtime_error m) w h = raises_returned _ _ w
    swallowed fallback e w h = absurd h

    pub commit_message-RaisesOnly :
        (reporter : LlmReporter) (incident_id error_signature diff_text : Text)
        → (prior_attempts : List Text) (test_path : Option Text) (w : World E)
        → RaisesOnly Never (
            llm_compose_commit_message reporter incident_id error_signature diff_text prior_attempts
              test_path w)
    unfolding llm_compose_commit_message
    commit_message-RaisesOnly reporter incident_id error_signature diff_text prior test_path w =
        handled-RaisesOnly IsRuntimeError _ _ _
          (resume-RaisesOnly _ _ _ (acomplete-RaisesOnly api imports reads _ _ _ _ w)
            λ message w1. raises_returned _ _ w1)
          (swallowed (fallback_commit incident_id error_signature))

    pub post_mortem-RaisesOnly :
        (reporter : LlmReporter) (incident_id : Text) (trigger : TriggerEvent)
        → (attempts : List FailedAttempt) (resolved : List ResolvedError) (w : World E)
        → RaisesOnly Never
            (llm_compose_post_mortem reporter incident_id trigger attempts resolved w)
    unfolding llm_compose_post_mortem
    post_mortem-RaisesOnly reporter incident_id trigger attempts resolved w =
        handled-RaisesOnly IsRuntimeError _ _ _
          (resume-RaisesOnly _ _ _ (acomplete-RaisesOnly api imports reads _ _ _ _ w)
            λ narrative w1. raises_returned _ _ w1)
          (swallowed [])

    -- Both methods of the Reporter return a text, also if the completion fails, times out or comes back in
    -- another shape; if importing litellm raises `ImportError` only, and reading a response raises only an
    -- AttributeError, an IndexError or a KeyError.
    pub llm_reporter_returns :
        (reporter : LlmReporter) (incident_id error_signature diff_text : Text)
        → (prior_attempts : List Text) (test_path : Option Text) (trigger : TriggerEvent)
        → (attempts : List FailedAttempt) (resolved : List ResolvedError) (w : World E)
        → ((t : Text) × (w' : World E) × (llm_compose_commit_message reporter incident_id
                error_signature diff_text prior_attempts test_path w
              ≡ (returned t, w')))
          × ((t : Text) × (w' : World E) × (llm_compose_post_mortem reporter incident_id trigger
                  attempts resolved w
                ≡ (returned t, w')))
    llm_reporter_returns reporter incident_id error_signature diff_text prior test_path trigger
          attempts resolved w =
        (
          Never-returns _ (
              commit_message-RaisesOnly reporter incident_id error_signature diff_text prior
                test_path w),
          Never-returns _ (post_mortem-RaisesOnly reporter incident_id trigger attempts resolved w),
        )
