-- ===== src/Orchestrator/Nodes/Immunize.antt =====
-- `immunize_node`: a regression test for a healed crash, kept only if it passes on a green tree.
pub mod Undo
use self_healing_system_tfg.Base.{
  Bool, true, false, List, [], ◌∷◌, ◌++◌, Option, none, some, map, if◌then◌else◌, ◌||◌,
}
use self_healing_system_tfg.Python.Text.{Text, text, text_eq, truthy, join, text_repr}
use self_healing_system_tfg.Python.Effects.{
  Exn, test_generation, Py, pure, throw, rescue, ◌>>=◌, ◌>>◌,
}
use self_healing_system_tfg.Python.Platform.{Platform}
use self_healing_system_tfg.Domain.Signature.{ErrorKind, crash, test}
use self_healing_system_tfg.Domain.Models.{RegressionTest}
use self_healing_system_tfg.Domain.State.{HealingState}
use self_healing_system_tfg.Ports.{Dependencies}
use self_healing_system_tfg.Orchestrator.Routers.{is_passed, went_green}
use self_healing_system_tfg.Orchestrator.Nodes.Context.{get_or, or_else, build_fix_context}
use self_healing_system_tfg.Orchestrator.Nodes.Repair.{log_line}
use self_healing_system_tfg.Orchestrator.Nodes.Session.{
  read_session_text, restore_session_text, append_regression_test,
}

-- `cmd[0] in _PY_INTERPRETERS`
unfoldable pub is_interpreter : Text → Bool
unfolding text_eq text
is_interpreter c = text_eq c (text "python") || text_eq c (text "python3") || text_eq c (text "py")

abbrev arguments : List Text → List Text
arguments [] = []
arguments (c ∷ cmd) = if is_interpreter c then cmd else c ∷ cmd

-- `_smoke_invocation`
unfoldable pub smoke_invocation : Platform → List Text → Text
unfolding is_interpreter text text_repr join
smoke_invocation p reproduce_cmd =
    let cmd = or_else reproduce_cmd (text "python" ∷ text "main.py" ∷ []) in
    let args = join (text ", ") (map (text_repr p.unicode.printable) (arguments cmd)) in
    if truthy args then text "[sys.executable, " ++ args ++ text "]" else text "[sys.executable]"

-- `_build_smoke_test_source`
unfoldable pub build_smoke_test_source : Platform → List Text → Text
unfolding smoke_invocation text
build_smoke_test_source p reproduce_cmd =
    text "def test_reproduce_command_exits_zero():\n"
    ++ text "    import subprocess\n"
    ++ text "    import sys\n"
    ++ text "    result = subprocess.run("
    ++ smoke_invocation p reproduce_cmd
    ++ text ", capture_output=True, text=True)\n"
    ++ text "    assert result.returncode == 0, result.stderr\n"

-- The merged update of `immunize_node`.
unfoldable pub with_test : HealingState → Option RegressionTest → Text → HealingState
with_test s kept line = record s { current_regression_test = kept; logs = log_line s line }

abbrev kept_line : RegressionTest → Text → Text
kept_line kept kind = text "immunize.test=" ++ kept.node_id ++ kind

module _ {E : Type 0} (p : Platform) (deps : Dependencies E) (s : HealingState) where
  abbrev new_test : Text → Text → RegressionTest
  new_test node_id source = record {
    path = s.regression_test_path;
    node_id = node_id;
    source = source;
  }

  -- Drop the appended test unless it passed.
  abbrev pub keep_if_passed : Option Text → Text → Text → Bool → Py E (Option RegressionTest)
  keep_if_passed before node_id source true = pure (some (new_test node_id source))
  keep_if_passed before node_id source false = do
    restore_session_text s.workspace_path s.regression_test_path before
    pure none

  abbrev pub run_gate : Option Text → Text → Text → Py E (Option RegressionTest)
  run_gate before node_id source = do
    res ←
        deps.run_tests s.workspace_path (get_or s.sandbox_image deps.settings.sandbox_image)
          (text "python" ∷ text "-m" ∷ text "pytest" ∷ node_id ∷ text "-x" ∷ text "--tb=short" ∷ [])
    keep_if_passed before node_id source (is_passed res.verdict)

  -- `_gate_and_keep`
  unfoldable pub gate_and_keep : Text → Bool → Py E (Option RegressionTest)
  unfolding read_session_text append_regression_test restore_session_text text
  gate_and_keep source gate = do
    before ← read_session_text s.workspace_path s.regression_test_path
    node_id ← append_regression_test p s.workspace_path s.regression_test_path source
    if gate then run_gate before node_id source else pure (some (new_test node_id source))

  -- `except TestGenerationError`; any other exception goes on up.
  abbrev pub except_test_error : Exn → Py E (Option RegressionTest)
  except_test_error (test_generation m) = pure none
  except_test_error e = throw e

  unfoldable pub targeted_test : Py E (Option RegressionTest)
  unfolding gate_and_keep build_fix_context
  targeted_test =
      let body : Py E (Option RegressionTest) = (do
        draft ← deps.write_regression_test (build_fix_context s)
        gate_and_keep draft.source (went_green s.current_sandbox_result)) in
      rescue body except_test_error

  abbrev pub smoke_result : Option RegressionTest → HealingState
  smoke_result none = with_test s none (text "immunize.no_test")
  smoke_result (some kept) = with_test s (some kept) (kept_line kept (text "(smoke)"))

  -- The smoke test, on a green tree only.
  unfoldable pub smoke_test : Py E HealingState
  unfolding gate_and_keep build_smoke_test_source with_test text
  smoke_test =
      let body : Py E HealingState = (do
        kept ← gate_and_keep (build_smoke_test_source p s.reproduce_cmd) true
        pure (smoke_result kept)) in
      if went_green s.current_sandbox_result then body else pure (smoke_result none)

  abbrev pub after_targeted : Option RegressionTest → Py E HealingState
  after_targeted none = smoke_test
  after_targeted (some kept) = pure (with_test s (some kept) (kept_line kept (text "(targeted)")))

  abbrev pub immunize_entry : ErrorKind → Py E HealingState
  immunize_entry test = pure (with_test s none (text "immunize.skipped(test-entry)"))
  immunize_entry crash = do kept ← targeted_test; after_targeted kept

  unfoldable pub immunize_node : Py E HealingState
  unfolding targeted_test smoke_test with_test text
  immunize_node = immunize_entry (get_or s.entry_kind crash)
