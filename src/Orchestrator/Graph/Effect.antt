-- ===== src/Orchestrator/Graph/Effect.antt =====
-- The effect of each node on the state, whatever its collaborators answer: a relation that the
-- nodes' code implements, and on which the invariants are proved.
use self_healing_system_tfg.Base.{
  ◌≡◌, refl, true, List, [], ◌∷◌, Option, none, some, inl, inr, Bool-cases, if◌then◌else◌,
}
use self_healing_system_tfg.Python.Text.{Text, truthy}
use self_healing_system_tfg.Python.Effects.{Exn, fix_generation, World, returned}
use self_healing_system_tfg.Python.Effects.Ends.{
  EndsAt, ends_returned, ends_raised, resume-EndsAt, handled-EndsAt, EndsAt-elim,
}
use self_healing_system_tfg.Python.Platform.{Platform}
use self_healing_system_tfg.Domain.Signature.{ErrorKind, crash, test}
use self_healing_system_tfg.Domain.Models.{Patch, SandboxResult, RegressionTest}
use self_healing_system_tfg.Domain.State.{HealingState}
use self_healing_system_tfg.Ports.{Dependencies}
use self_healing_system_tfg.Orchestrator.Routers.{is_passed, went_green}
use self_healing_system_tfg.Orchestrator.Nodes.Context.{get_or}
use self_healing_system_tfg.Orchestrator.Nodes.Bootstrap.{bootstrap_node, bootstrapped}
use self_healing_system_tfg.Orchestrator.Nodes.Repair.{
  with_patch, patched, except_fix_error, judged, gated, after_run, regressed, invalid_state, breaks,
  rolled_back, fix_node, validate_node, rollback_node,
}
use self_healing_system_tfg.Orchestrator.Nodes.Immunize.{
  with_test, smoke_result, smoke_test, after_targeted, immunize_entry, immunize_node,
}
use self_healing_system_tfg.Orchestrator.Nodes.Commit.{
  committed, reported, report_commit_node, post_mortem_node,
}
use self_healing_system_tfg.Orchestrator.Graph.{
  Node, bootstrap, fix, validate, immunize, report_commit, rollback, post_mortem, run_node,
}

module _ {E : Type 0} (p : Platform) (deps : Dependencies E) where
  pub data Effect (s t : HealingState) : Node → Type 0 where
    started : (id : Text) → t ≡ bootstrapped p deps s id → Effect s t bootstrap
    fixed : (patch : Option Patch) (line : Text) → t ≡ with_patch s patch line → Effect s t fix
    unvalidated : t ≡ invalid_state p s → Effect s t validate
    gate_broke :
        (gate : SandboxResult) → breaks gate ≡ true → t ≡ regressed s gate → Effect s t validate
    validated : (result : SandboxResult) → t ≡ judged p s result → Effect s t validate
    immunized :
        (kept : Option RegressionTest) (line : Text)
        → t ≡ with_test s kept line
        → Effect s t immunize
    commit_made : (sha : Text) → t ≡ committed p s sha → Effect s t report_commit
    undone : t ≡ rolled_back p s → Effect s t rollback
    written : (path : Text) → t ≡ reported s path → Effect s t post_mortem

  module _ (s : HealingState) where
    bootstrap-Effect :
        (w : World E) → EndsAt (λ t. Effect s t bootstrap) (bootstrap_node p deps s w)
    unfolding bootstrap_node
    bootstrap-Effect w =
        resume-EndsAt _ _ _
          λ id w'. resume-EndsAt _ _ _ λ _ w''. ends_returned _ _ w'' (started id refl)

    fix_result :
        (patch : Option Patch) (w : World E)
        → EndsAt (λ t. Effect s t fix) (returned (patched s patch), w)
    fix_result none w = ends_returned _ _ w (fixed none _ refl)
    fix_result (some patch) w = ends_returned _ _ w (fixed (some patch) _ refl)

    fix_handler :
        (e : Exn) (w : World E) → EndsAt (λ t. Effect s t fix) (except_fix_error p deps s e w)
    fix_handler (fix_generation m) w = ends_returned _ _ w (fixed none _ refl)
    fix_handler e w = ends_raised _ _ w

    fix-Effect : (w : World E) → EndsAt (λ t. Effect s t fix) (fix_node p deps s w)
    unfolding fix_node
    fix-Effect w = handled-EndsAt _ _ _ (resume-EndsAt _ _ _ fix_result) fix_handler

    gate_result :
        (result gate : SandboxResult) (w : World E)
        → EndsAt
            (λ t. Effect s t validate)
            (returned (if breaks gate then regressed s gate else judged p s result), w)
    gate_result result gate w = elim (Bool-cases (breaks gate)) [
      | inl broke ↦ ends_returned _ _ w (rw broke (gate_broke gate broke refl))
      | inr held ↦ ends_returned _ _ w (rw held (validated result refl))
    ]

    gated-Effect :
        (result : SandboxResult) (cmd : List Text) (w : World E)
        → EndsAt (λ t. Effect s t validate) (gated p deps s result cmd w)
    gated-Effect result [] w = ends_returned _ _ w (validated result refl)
    gated-Effect result (c ∷ cmd) w = resume-EndsAt _ _ _ (gate_result result)

    after_run-Effect :
        (result : SandboxResult) (w : World E)
        → EndsAt (λ t. Effect s t validate) (after_run p deps s result w)
    after_run-Effect result w = elim (Bool-cases (is_passed result.verdict)) [
      | inl green ↦ rw green (gated-Effect result _ w)
      | inr red ↦ rw red (ends_returned _ _ w (validated result refl))
    ]

    validate-Effect : (w : World E) → EndsAt (λ t. Effect s t validate) (validate_node p deps s w)
    unfolding validate_node
    validate-Effect w = elim (Bool-cases (truthy s.workspace_path)) [
      | inl given ↦ rw given (resume-EndsAt _ _ _ after_run-Effect)
      | inr missing ↦ rw missing (ends_returned _ _ w (unvalidated refl))
    ]

    rollback-Effect : (w : World E) → EndsAt (λ t. Effect s t rollback) (rollback_node p deps s w)
    unfolding rollback_node
    rollback-Effect w = elim (Bool-cases (truthy s.workspace_path)) [
      | inl given ↦ rw given (resume-EndsAt _ _ _ λ _ w'. ends_returned _ _ w' (undone refl))
      | inr missing ↦ rw missing (ends_returned _ _ w (undone refl))
    ]

    smoke_result-Effect :
        (kept : Option RegressionTest) (w : World E)
        → EndsAt (λ t. Effect s t immunize) (returned (smoke_result p deps s kept), w)
    smoke_result-Effect none w = ends_returned _ _ w (immunized none _ refl)
    smoke_result-Effect (some kept) w = ends_returned _ _ w (immunized (some kept) _ refl)

    smoke-Effect : (w : World E) → EndsAt (λ t. Effect s t immunize) (smoke_test p deps s w)
    unfolding smoke_test
    smoke-Effect w = elim (Bool-cases (went_green s.current_sandbox_result)) [
      | inl green ↦ rw green (resume-EndsAt _ _ _ smoke_result-Effect)
      | inr red ↦ rw red (smoke_result-Effect none w)
    ]

    after_targeted-Effect :
        (kept : Option RegressionTest) (w : World E)
        → EndsAt (λ t. Effect s t immunize) (after_targeted p deps s kept w)
    after_targeted-Effect none w = smoke-Effect w
    after_targeted-Effect (some kept) w = ends_returned _ _ w (immunized (some kept) _ refl)

    entry-Effect :
        (kind : ErrorKind) (w : World E)
        → EndsAt (λ t. Effect s t immunize) (immunize_entry p deps s kind w)
    entry-Effect test w = ends_returned _ _ w (immunized none _ refl)
    entry-Effect crash w = resume-EndsAt _ _ _ after_targeted-Effect

    immunize-Effect : (w : World E) → EndsAt (λ t. Effect s t immunize) (immunize_node p deps s w)
    unfolding immunize_node
    immunize-Effect w = entry-Effect (get_or s.entry_kind crash) w

    commit-Effect :
        (w : World E) → EndsAt (λ t. Effect s t report_commit) (report_commit_node p deps s w)
    unfolding report_commit_node
    commit-Effect w =
        resume-EndsAt _ _ _
          λ message w'. resume-EndsAt _ _ _ λ sha w''. ends_returned _ _ w'' (commit_made sha refl)

    post_mortem-Effect :
        (w : World E) → EndsAt (λ t. Effect s t post_mortem) (post_mortem_node p deps s w)
    unfolding post_mortem_node
    post_mortem-Effect w =
        resume-EndsAt _ _ _
          λ narrative w'. resume-EndsAt _ _ _ λ path w''. ends_returned _ _ w'' (written path refl)

    run_node-EndsAt : (n : Node) (w : World E) → EndsAt (λ t. Effect s t n) (run_node p deps n s w)
    unfolding run_node
    run_node-EndsAt bootstrap w = bootstrap-Effect w
    run_node-EndsAt fix w = fix-Effect w
    run_node-EndsAt validate w = validate-Effect w
    run_node-EndsAt immunize w = immunize-Effect w
    run_node-EndsAt report_commit w = commit-Effect w
    run_node-EndsAt rollback w = rollback-Effect w
    run_node-EndsAt post_mortem w = post_mortem-Effect w

  -- A node that returns has changed the state by its effect, and by nothing else.
  pub run_node-Effect :
      (s t : HealingState) (n : Node) (w w' : World E)
      → run_node p deps n s w ≡ (returned t, w')
      → Effect s t n
  run_node-Effect s t n w w' h = EndsAt-elim _ (run_node-EndsAt s n w) h
