-- ===== src/Orchestrator/Nodes/Total.antt =====
-- The exceptions that leave a node: those of the collaborators, less what a node catches.
use self_healing_system_tfg.Base.{
  Bool, true, false, Option, none, some, Bool-cases, inl, inr, ◌⊎◌, [], ◌∷◌, List,
}
use self_healing_system_tfg.Python.Text.{Text, truthy}
use self_healing_system_tfg.Python.Effects.{
  Exn, fix_generation, test_generation, docker_sandbox, sandbox_timeout, git_operation, os_error,
  file_not_found, World,
}
use self_healing_system_tfg.Python.Effects.Raises.{
  RaisesOnly, weaken-RaisesOnly, raises_raised, raises_returned, handled-RaisesOnly,
  handled_all-RaisesOnly, if-RaisesOnly, resume-RaisesOnly, Never-RaisesOnly,
}
use self_healing_system_tfg.Python.Platform.{Platform}
use self_healing_system_tfg.Domain.Signature.{ErrorKind, crash, test}
use self_healing_system_tfg.Domain.Models.{
  SandboxResult, RegressionTest, FixContext, TriggerEvent, FailedAttempt,
}
use self_healing_system_tfg.Domain.State.{HealingState}
use self_healing_system_tfg.Ports.{Dependencies}
use self_healing_system_tfg.Orchestrator.Routers.{is_passed, went_green}
use self_healing_system_tfg.Orchestrator.Nodes.Context.{get_or}
use self_healing_system_tfg.Orchestrator.Nodes.Session.Raises.{
  ensure-RaisesOnly, read_session-RaisesOnly, restore-RaisesOnly, append_test-RaisesOnly,
}
use self_healing_system_tfg.Orchestrator.Nodes.Bootstrap.{
  session_id_of, prepare_session_file, bootstrap_node,
}
use self_healing_system_tfg.Orchestrator.Nodes.Repair.{
  except_fix_error, gated, after_run, fix_node, validate_node, rollback_node,
}
use self_healing_system_tfg.Orchestrator.Nodes.Immunize.{
  keep_if_passed, gate_and_keep, except_test_error, targeted_test, smoke_test, after_targeted,
  immunize_entry, immunize_node,
}
use self_healing_system_tfg.Orchestrator.Nodes.Commit.{report_commit_node, post_mortem_node}

abbrev pub IsFixError : Exn → Type 0
IsFixError (fix_generation m) = Unit
IsFixError _ = ⊥

abbrev pub IsTestError : Exn → Type 0
IsTestError (test_generation m) = Unit
IsTestError _ = ⊥

-- What the ports let pass: `SandboxPort.run_tests` documents `DockerSandboxError`, of which
-- `SandboxTimeoutError` is a kind, `GitPort.commit` documents `GitOperationError`, and the writer of
-- reports works on files.
abbrev pub IsPromised : Exn → Type 0
IsPromised (docker_sandbox m) = Unit
IsPromised (sandbox_timeout m) = Unit
IsPromised (git_operation m) = Unit
IsPromised (os_error m) = Unit
IsPromised (file_not_found m) = Unit
IsPromised _ = ⊥

-- The collaborators raise only `P`, the Corrector and the Tester also their own errors. The composer of
-- messages and the reset may raise anything.
pub record MeetsPorts {E : Type 0} (P : Exn → Type 0) (deps : Dependencies E) : Type 0 where
  pub fixes : (c : FixContext) (w : World E) → RaisesOnly (λ e. IsFixError e ⊎ P e) (deps.fix c w)
  pub tests :
      (c : FixContext) (w : World E)
      → RaisesOnly (λ e. IsTestError e ⊎ P e) (deps.write_regression_test c w)
  pub runs :
      (workspace image : Text) (cmd : List Text) (w : World E)
      → RaisesOnly P (deps.run_tests workspace image cmd w)
  pub commits :
      (workspace message name email : Text) (w : World E)
      → RaisesOnly P (deps.commit workspace message name email w)
  pub reports :
      (id : Text) (t : TriggerEvent) (attempts : List FailedAttempt) (narrative : Text)
      (w : World E)
      → RaisesOnly P (deps.write_post_mortem id t attempts narrative w)
  pub names : (w : World E) → RaisesOnly P (deps.uuid_hex w)

module _ {E : Type 0} (p : Platform) (deps : Dependencies E) (P : Exn → Type 0)
    (meets : MeetsPorts P deps) (s : HealingState) where
  id-RaisesOnly : (w : World E) → RaisesOnly P (session_id_of p deps s w)
  unfolding session_id_of
  id-RaisesOnly w = elim (Bool-cases (truthy s.session_id)) [
    | inl given ↦ rw given (raises_returned _ _ w)
    | inr missing ↦
        rw missing (resume-RaisesOnly _ _ _ (meets.names w) λ hex w'. raises_returned _ _ w')
  ]

  prepare-RaisesOnly :
      (kind : ErrorKind) (workspace path id : Text) (w : World E)
      → RaisesOnly P (prepare_session_file p deps kind workspace path id w)
  prepare-RaisesOnly crash workspace path id w =
      Never-RaisesOnly P _ (ensure-RaisesOnly workspace path id w)
  prepare-RaisesOnly test workspace path id w = raises_returned _ _ w

  pub bootstrap-RaisesOnly : (w : World E) → RaisesOnly P (bootstrap_node p deps s w)
  unfolding bootstrap_node
  bootstrap-RaisesOnly w = resume-RaisesOnly _ _ _ (id-RaisesOnly w) λ id w1.
      resume-RaisesOnly _ _ _ (prepare-RaisesOnly _ _ _ _ w1) λ _ w2. raises_returned _ _ w2

  fix_handler :
      (e : Exn) (w : World E) → IsFixError e ⊎ P e → RaisesOnly P (except_fix_error p deps s e w)
  fix_handler (fix_generation m) w h = raises_returned _ _ w
  fix_handler e w (inr h) = raises_raised _ _ _ w h
  fix_handler e w (inl h) = absurd h

  pub fix-RaisesOnly : (w : World E) → RaisesOnly P (fix_node p deps s w)
  unfolding fix_node
  fix-RaisesOnly w =
      handled-RaisesOnly (λ e. IsFixError e ⊎ P e) P _ _
        (resume-RaisesOnly _ _ _ (meets.fixes _ w) λ patch w1. raises_returned _ _ w1) fix_handler

  gated-RaisesOnly :
      (r : SandboxResult) (cmd : List Text) (w : World E) → RaisesOnly P (gated p deps s r cmd w)
  gated-RaisesOnly r [] w = raises_returned _ _ w
  gated-RaisesOnly r (c ∷ cmd) w =
      resume-RaisesOnly _ _ _ (meets.runs _ _ _ w) λ gate w1. raises_returned _ _ w1

  after_run-RaisesOnly : (r : SandboxResult) (w : World E) → RaisesOnly P (after_run p deps s r w)
  after_run-RaisesOnly r w =
      if-RaisesOnly _ (is_passed r.verdict) _ _ (gated-RaisesOnly r _ w) (raises_returned _ _ w)

  pub validate-RaisesOnly : (w : World E) → RaisesOnly P (validate_node p deps s w)
  unfolding validate_node
  validate-RaisesOnly w = elim (Bool-cases (truthy s.workspace_path)) [
    | inl given ↦
        rw given (resume-RaisesOnly _ _ _ (meets.runs _ _ _ w) λ r w1. after_run-RaisesOnly r w1)
    | inr missing ↦ rw missing (raises_returned _ _ w)
  ]

  pub rollback-RaisesOnly : (w : World E) → RaisesOnly P (rollback_node p deps s w)
  unfolding rollback_node
  rollback-RaisesOnly w = elim (Bool-cases (truthy s.workspace_path)) [
    | inl given ↦ rw given (
        resume-RaisesOnly _ _ _ (handled_all-RaisesOnly _ _ _ λ e w1. raises_returned _ _ w1)
          λ _ w2. raises_returned _ _ w2)
    | inr missing ↦ rw missing (raises_returned _ _ w)
  ]

  keep-RaisesOnly :
      (before : Option Text) (node_id source : Text) (green : Bool) (w : World E)
      → RaisesOnly P (keep_if_passed p deps s before node_id source green w)
  keep-RaisesOnly before node_id source true w = raises_returned _ _ w
  keep-RaisesOnly before node_id source false w =
      resume-RaisesOnly _ _ _
        (Never-RaisesOnly P _ (restore-RaisesOnly s.workspace_path s.regression_test_path before w))
        λ _ w1. raises_returned _ _ w1

  gate-RaisesOnly :
      (source : Text) (gate : Bool) (w : World E)
      → RaisesOnly P (gate_and_keep p deps s source gate w)
  unfolding gate_and_keep
  gate-RaisesOnly source gate w =
      resume-RaisesOnly _ _ _
        (Never-RaisesOnly P _ (read_session-RaisesOnly s.workspace_path s.regression_test_path w))
        λ before w1.
          resume-RaisesOnly _ _ _
            (Never-RaisesOnly P _
              (append_test-RaisesOnly p s.workspace_path s.regression_test_path source w1))
            λ node_id w2. elim (Bool-cases gate) [
              | inl gating ↦ rw gating (
                  resume-RaisesOnly _ _ _ (meets.runs _ _ _ w2)
                    λ r w3. keep-RaisesOnly before node_id source (is_passed r.verdict) w3)
              | inr free ↦ rw free (raises_returned _ _ w2)
            ]

  test_handler :
      (e : Exn) (w : World E) → IsTestError e ⊎ P e → RaisesOnly P (except_test_error p deps s e w)
  test_handler (test_generation m) w h = raises_returned _ _ w
  test_handler e w (inr h) = raises_raised _ _ _ w h
  test_handler e w (inl h) = absurd h

  targeted-RaisesOnly : (w : World E) → RaisesOnly P (targeted_test p deps s w)
  unfolding targeted_test
  targeted-RaisesOnly w =
      handled-RaisesOnly (λ e. IsTestError e ⊎ P e) P _ _
        (resume-RaisesOnly _ _ _ (meets.tests _ w) λ draft w1.
          weaken-RaisesOnly P _ _
            (gate-RaisesOnly draft.source (went_green s.current_sandbox_result) w1) (λ e h. inr h))
        test_handler

  smoke-RaisesOnly : (w : World E) → RaisesOnly P (smoke_test p deps s w)
  unfolding smoke_test
  smoke-RaisesOnly w = elim (Bool-cases (went_green s.current_sandbox_result)) [
    | inl green ↦
        rw green
          (resume-RaisesOnly _ _ _ (gate-RaisesOnly _ true w) λ kept w1. raises_returned _ _ w1)
    | inr red ↦ rw red (raises_returned _ _ w)
  ]

  after_targeted-RaisesOnly :
      (kept : Option RegressionTest) (w : World E) → RaisesOnly P (after_targeted p deps s kept w)
  after_targeted-RaisesOnly none w = smoke-RaisesOnly w
  after_targeted-RaisesOnly (some kept) w = raises_returned _ _ w

  entry-RaisesOnly :
      (kind : ErrorKind) (w : World E) → RaisesOnly P (immunize_entry p deps s kind w)
  entry-RaisesOnly test w = raises_returned _ _ w
  entry-RaisesOnly crash w =
      resume-RaisesOnly _ _ _ (targeted-RaisesOnly w) λ kept w1. after_targeted-RaisesOnly kept w1

  pub immunize-RaisesOnly : (w : World E) → RaisesOnly P (immunize_node p deps s w)
  unfolding immunize_node
  immunize-RaisesOnly w = entry-RaisesOnly (get_or s.entry_kind crash) w

  pub commit-RaisesOnly : (w : World E) → RaisesOnly P (report_commit_node p deps s w)
  unfolding report_commit_node
  commit-RaisesOnly w =
      resume-RaisesOnly _ _ _ (handled_all-RaisesOnly _ _ _ λ e w1. raises_returned _ _ w1)
        λ message w2.
          resume-RaisesOnly _ _ _ (meets.commits _ _ _ _ w2) λ sha w3. raises_returned _ _ w3

  pub post_mortem-RaisesOnly : (w : World E) → RaisesOnly P (post_mortem_node p deps s w)
  unfolding post_mortem_node
  post_mortem-RaisesOnly w =
      resume-RaisesOnly _ _ _ (handled_all-RaisesOnly _ _ _ λ e w1. raises_returned _ _ w1)
        λ narrative w2.
          resume-RaisesOnly _ _ _ (meets.reports _ _ _ _ w2) λ path w3. raises_returned _ _ w3
