-- ===== src/Orchestrator/Nodes/Bootstrap.antt =====
-- `bootstrap_node`: the session's budgets, its reproduction command and the first fingerprint.
use self_healing_system_tfg.Base.{
  false, List, [], ◌∷◌, ◌++◌, Option, none, some, take, if◌then◌else◌,
}
use self_healing_system_tfg.Python.Text.{Text, text, truthy}
use self_healing_system_tfg.Python.Effects.{Py, pure, ◌>>=◌, ◌>>◌}
use self_healing_system_tfg.Python.Platform.{Platform}
use self_healing_system_tfg.Domain.Enums.{TriggerType, production_crash, test_failure}
use self_healing_system_tfg.Domain.Signature.{ErrorKind, crash, test, kind_text}
use self_healing_system_tfg.Domain.Signature.Parse.{parse_error}
use self_healing_system_tfg.Domain.Models.{TriggerEvent}
use self_healing_system_tfg.Domain.State.{HealingState}
use self_healing_system_tfg.Ports.{Dependencies}
use self_healing_system_tfg.Orchestrator.Nodes.Context.{
  default_test_command, get_or, or_else, incident_from_trigger,
}
use self_healing_system_tfg.Orchestrator.Nodes.Session.{ensure_session_test_file}

unfoldable pub entry_kind_of : TriggerType → ErrorKind
entry_kind_of production_crash = crash
entry_kind_of test_failure = test

-- The failure output of the payload: the crash report comes first.
unfoldable pub failure_output_of : TriggerEvent → Text
failure_output_of t = elim t.crash_report [
  | some report ↦ report.stack_trace
  | none ↦ elim t.failing_test [ some failing ↦ failing.last_failure_output | none ↦ [] ]
]

unfoldable pub default_reproduce_cmd : ErrorKind → List Text
unfolding default_test_command text
default_reproduce_cmd test = default_test_command
default_reproduce_cmd crash = text "python" ∷ text "main.py" ∷ []

abbrev pub or_old : {A : Type 0} → Option A → Option A → Option A
or_old (some a) old = some a
or_old none old = old

module _ {E : Type 0} (p : Platform) (deps : Dependencies E) where
  -- `state.get("session_id") or uuid.uuid4().hex[:12]`
  unfoldable pub session_id_of : HealingState → Py E Text
  session_id_of s =
      let fresh : Py E Text = (do hex ← deps.uuid_hex; pure (take 12 hex)) in
      if truthy s.session_id then pure s.session_id else fresh

  abbrev session_file_of : HealingState → Text → Text
  session_file_of s session_id =
      or_else s.regression_test_path (text "tests/test_selfheal_" ++ session_id ++ text ".py")

  -- Only a crash entry gets a session file.
  abbrev pub prepare_session_file : ErrorKind → Text → Text → Text → Py E (Unit {0})
  prepare_session_file crash workspace path session_id =
      ensure_session_test_file workspace path session_id
  prepare_session_file test workspace path session_id = pure tt

  -- The merged update, for a session id.
  unfoldable pub bootstrapped : HealingState → Text → HealingState
  unfolding entry_kind_of failure_output_of default_reproduce_cmd incident_from_trigger parse_error
      text kind_text
  bootstrapped s session_id =
      let kind = entry_kind_of s.trigger.trigger_type in
      let output = failure_output_of s.trigger in
      record s {
        session_id = session_id;
        entry_kind = some kind;
        reproduce_cmd = or_else s.reproduce_cmd (default_reproduce_cmd kind);
        regression_test_path = session_file_of s session_id;
        max_retries = some (get_or s.max_retries deps.settings.max_retries);
        error_cycle_budget = some (get_or s.error_cycle_budget deps.settings.error_cycle_budget);
        sandbox_image = some (get_or s.sandbox_image deps.settings.sandbox_image);
        crash_report = or_old s.trigger.crash_report s.crash_report;
        failing_test = or_old s.trigger.failing_test s.failing_test;
        current_incident_id = some (incident_from_trigger s.trigger);
        current_error_signature = parse_error p.unicode output kind s.workspace_path;
        current_failure_output = output;
        attempt_count = 0;
        error_cycle_index = 0;
        is_resolved = false;
        logs =
            s.logs
            ++ (text "bootstrap.entry="
                ++ kind_text kind
                ++ text " incident="
                ++ incident_from_trigger s.trigger)
              ∷ [];
      }

  unfoldable pub bootstrap_node : HealingState → Py E HealingState
  unfolding session_id_of entry_kind_of ensure_session_test_file bootstrapped text
  bootstrap_node s = do
    session_id ← session_id_of s
    prepare_session_file (entry_kind_of s.trigger.trigger_type) s.workspace_path
        (session_file_of s session_id) session_id
    pure (bootstrapped s session_id)
