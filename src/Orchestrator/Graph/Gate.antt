-- ===== src/Orchestrator/Graph/Gate.antt =====
-- What `report_commit` can rely on: the gate on the protected tests, in the visit of `validate` that
-- led there.
use self_healing_system_tfg.Base.{
  ℕ, ◌≡◌, refl, true, false, not, ◌&&◌, List, [], ◌∷◌, Option, none, some, inl, inr, ◌⊎◌,
  Bool-cases, ap, subst, arith, ltb,
}
use self_healing_system_tfg.Python.Text.{Text, truthy}
use self_healing_system_tfg.Python.Effects.{World, returned}
use self_healing_system_tfg.Python.Effects.Ends.{
  EndsAt, ends_returned, resume-EndsAt_ran, EndsAt-elim,
}
use self_healing_system_tfg.Python.Platform.{Platform}
use self_healing_system_tfg.Domain.Enums.{SandboxVerdict, passed, RoutingDecision}
use self_healing_system_tfg.Domain.Models.{SandboxResult, new_sandbox_result}
use self_healing_system_tfg.Domain.State.{HealingState}
use self_healing_system_tfg.Ports.{Dependencies}
use self_healing_system_tfg.Orchestrator.Routers.{
  has, or_default, is_passed, went_green, is_other_error, route_after_fix, route_after_validate,
  route_after_commit, route_after_rollback,
}
use self_healing_system_tfg.Orchestrator.Nodes.Context.{default_test_command, or_else}
use self_healing_system_tfg.Orchestrator.Nodes.Repair.{
  judged, regressed, invalid_state, breaks, is_five, related_tests_cmd, image_of, gated, after_run,
  validate_node,
}
use self_healing_system_tfg.Orchestrator.Nodes.Immunize.{with_test}
use self_healing_system_tfg.Orchestrator.Nodes.Commit.{committed, budget_left}
use self_healing_system_tfg.Orchestrator.Graph.{
  Node, bootstrap, fix, validate, immunize, report_commit, rollback, post_mortem, Target, goto,
  fix_edges, validate_edges, commit_edges, rollback_edges, successor, run_node,
}
use self_healing_system_tfg.Orchestrator.Graph.Effect.{Effect, immunized, run_node-Effect}
use self_healing_system_tfg.Orchestrator.Graph.Visits.{
  Visits, begun, went_on, IsClean, IsProgress, if_decision, commit_visit-IsProgress,
}

passed_verdict : (v : SandboxVerdict) → is_passed v ≡ true → v ≡ passed
passed_verdict passed h = refl
passed_verdict v h = absurd (ground arith)

five_code : (code : Option ℕ) → is_five code ≡ true → code ≡ some 5
five_code none h = absurd (ground arith)
five_code (some n) h = ap some (ground (arith, h))

-- A protected test that does not break: a pass, or pytest's code for "no tests collected".
abbrev pub HasHeld : SandboxResult → Type 0
HasHeld gate = (gate.verdict ≡ passed) ⊎ (gate.exit_code ≡ some 5)

breaks-HasHeld : (gate : SandboxResult) → breaks gate ≡ false → HasHeld gate
unfolding breaks
breaks-HasHeld gate h = elim (Bool-cases (is_passed gate.verdict)) [
  | inl green ↦ inl (passed_verdict _ green)
  | inr red ↦ elim (Bool-cases (is_five gate.exit_code)) [
    | inl five ↦ inr (five_code _ five)
    | inr other_code ↦ absurd (ground (arith, red, other_code, h))
  ]
]

module _ {E : Type 0} (p : Platform) (deps : Dependencies E) where
  -- In the world `w`, the reproduction of `s` passed with `result`; right after it, there were no protected
  -- tests to run, or their run held.
  pub record IsGated (s : HealingState) (w : World E) (result : SandboxResult) : Type 0 where
    pub after : World E
    pub reproduced :
        deps.run_tests s.workspace_path
          (image_of p deps s)
          (or_else s.reproduce_cmd default_test_command)
          w
        ≡ (returned result, after)
    pub green : result.verdict ≡ passed
    pub held :
        (or_else s.regression_cmd (related_tests_cmd p deps s after) ≡ [])
        ⊎ ((gate : SandboxResult) × (w' : World E) × (deps.run_tests s.workspace_path
                (image_of p deps s)
                (or_else s.regression_cmd (related_tests_cmd p deps s after))
                after
              ≡ (returned gate, w'))
            × HasHeld gate)

  abbrev Passing : HealingState → World E → HealingState → Type 0
  Passing s w t =
      (t.current_patch ≡ s.current_patch)
      × (result : SandboxResult) × (t.current_sandbox_result ≡ some result)
      × IsGated s w result

  abbrev Judgement : HealingState → World E → HealingState → Type 0
  Judgement s w t =
      (t.regression_detected ≡ true)
      ⊎ ((went_green t.current_sandbox_result ≡ false) ⊎ Passing s w t)

  module _ (s : HealingState) (w : World E) (result : SandboxResult) (w1 : World E)
      (ran : deps.run_tests s.workspace_path
          (image_of p deps s)
          (or_else s.reproduce_cmd default_test_command)
          w
        ≡ (returned result, w1)) where
    gate-Judgement :
        (cmd : List Text)
        → is_passed result.verdict ≡ true
        → or_else s.regression_cmd (related_tests_cmd p deps s w1) ≡ cmd
        → EndsAt (Judgement s w) (gated p deps s result cmd w1)
    unfolding judged regressed
    gate-Judgement [] passes e = ends_returned _ _ _ (
        inr (
          inr (
            refl,
            result,
            refl,
            record { after = w1; reproduced = ran; green = passed_verdict _ passes; held = inl e },
          )))
    gate-Judgement (c ∷ cmd) passes e = resume-EndsAt_ran _ _ _ λ gate w2 ran_gate.
        elim (Bool-cases (breaks gate)) [
          | inl broke ↦ rw broke (ends_returned _ _ _ (inl refl))
          | inr whole ↦ rw whole (
              ends_returned _ _ _ (
                inr (
                  inr (
                    refl,
                    result,
                    refl,
                    record {
                      after = w1;
                      reproduced = ran;
                      green = passed_verdict _ passes;
                      held = inr (gate, w2, (rw e ran_gate), breaks-HasHeld gate whole);
                    },
                  ))))
        ]

    run-Judgement : EndsAt (Judgement s w) (after_run p deps s result w1)
    unfolding judged
    run-Judgement = elim (Bool-cases (is_passed result.verdict)) [
      | inl green ↦ rw green (gate-Judgement _ green refl)
      | inr red ↦ rw red (ends_returned _ _ _ (inr (inl red)))
    ]

  validate-Judgement :
      (s : HealingState) (w : World E) → EndsAt (Judgement s w) (validate_node p deps s w)
  unfolding validate_node invalid_state new_sandbox_result
  validate-Judgement s w = elim (Bool-cases (truthy s.workspace_path)) [
    | inl given ↦ rw given (resume-EndsAt_ran _ _ _ (run-Judgement s w))
    | inr missing ↦ rw missing (ends_returned _ _ w (inr (inl refl)))
  ]

  -- Where the state that is to be committed comes from: a visit of `validate` that went on with the same
  -- patch and passed its gate; or the program fails with another error than before.
  abbrev pub IsEarned : HealingState → World E → HealingState → Type 0
  IsEarned s0 w0 s =
      ((s1 : HealingState) × (w1 : World E) × Visits p deps s0 w0 validate s1 w1
        × (s.current_patch ≡ s1.current_patch)
        × (result : SandboxResult) × (s.current_sandbox_result ≡ some result)
        × IsGated s1 w1 result)
      ⊎ (is_other_error p.sha256_hex s.post_fix_signature s.current_error_signature ≡ true)

  abbrev Earns : HealingState → World E → Node → HealingState → Type 0
  Earns s0 w0 immunize s = IsEarned s0 w0 s
  Earns s0 w0 report_commit s = IsEarned s0 w0 s
  Earns s0 w0 _ s = Unit

  abbrev Due : HealingState → World E → HealingState → Target → Type 0
  Due s0 w0 t (goto m) = Earns s0 w0 m t
  Due s0 w0 t _ = Unit

  module _ (s0 : HealingState) (w0 : World E) where
    judged-Due :
        (s t : HealingState) (w : World E)
        → Visits p deps s0 w0 validate s w
        → Judgement s w t
        → t.regression_detected ≡ false
        → went_green t.current_sandbox_result ≡ true
        → IsEarned s0 w0 t
    judged-Due s t w visit (inl broke) whole green = absurd (ground (arith, broke, whole))
    judged-Due s t w visit (inr (inl red)) whole green = absurd (ground (arith, red, green))
    judged-Due s t w visit (inr (inr (same, result, is_result, gate))) whole green =
        inl (s, w, visit, same, result, is_result, gate)

    validate-Due :
        (s t : HealingState) (w : World E)
        → Visits p deps s0 w0 validate s w
        → Judgement s w t
        → Due s0 w0 t (successor p.sha256_hex validate t)
    unfolding successor route_after_validate validate_edges
    validate-Due s t w visit says =
        let due : RoutingDecision → Type 0 = λ d. Due s0 w0 t (validate_edges d) in
        if_decision due t.regression_detected _ _ (λ _. tt)
          λ whole.
            if_decision due (went_green t.current_sandbox_result) _ _
              (λ green. judged-Due s t w visit says whole green)
              λ _.
                if_decision due
                  (is_other_error p.sha256_hex t.post_fix_signature t.current_error_signature) _ _
                  (λ differs. inr differs) (λ _. tt)

    immunize-Due :
        (s t : HealingState) → IsEarned s0 w0 s → Effect p deps s t immunize → IsEarned s0 w0 t
    unfolding with_test
    immunize-Due s t (inl earned) (immunized kept line e) = rw e (inl earned)
    immunize-Due s t (inr differs) (immunized kept line e) = rw e (inr differs)

    step-Due :
        (n : Node) (s t : HealingState) (w w' : World E)
        → Visits p deps s0 w0 n s w
        → Earns s0 w0 n s
        → run_node p deps n s w ≡ (returned t, w')
        → Due s0 w0 t (successor p.sha256_hex n t)
    unfolding successor run_node fix_edges commit_edges rollback_edges route_after_fix
        route_after_commit route_after_rollback
    step-Due bootstrap s t w w' visit h ran = tt
    step-Due fix s t w w' visit h ran =
        if_decision (λ d. Due s0 w0 t (fix_edges d)) (has t.current_patch) _ _ (λ _. tt) (λ _. tt)
    step-Due validate s t w w' visit h ran =
        validate-Due s t w visit (EndsAt-elim _ (validate-Judgement s w) ran)
    step-Due immunize s t w w' visit h ran =
        immunize-Due s t h (run_node-Effect p deps s t immunize w w' ran)
    step-Due report_commit s t w w' visit h ran =
        if_decision (λ d. Due s0 w0 t (commit_edges d)) t.should_continue _ _ (λ _. tt) (λ _. tt)
    step-Due rollback s t w w' visit h ran =
        if_decision (λ d. Due s0 w0 t (rollback_edges d))
          (ltb t.attempt_count (or_default t.max_retries 3)) _ _ (λ _. tt) (λ _. tt)
    step-Due post_mortem s t w w' visit h ran = tt

    visit-Earns :
        {n : Node} {s : HealingState} {w : World E} → Visits p deps s0 w0 n s w → Earns s0 w0 n s
    visit-Earns begun = tt
    visit-Earns (went_on n m s t w w' visit ran taken) =
        subst (Due s0 w0 t) taken (step-Due n s t w w' visit (visit-Earns visit) ran)

  -- Whenever a session that begins clean comes to `report_commit`, there is a patch, no broken protected
  -- test is recorded, and either the program fails with another error than before, or the state comes from a
  -- visit of `validate` with the same patch, in which the reproduction passed and, right after it, there was
  -- no protected test to run or the run of the protected tests passed or ended with pytest's code 5;
  -- and the commit goes on to the next error exactly if the program does not pass and the budget of
  -- errors allows it. The protected tests are run after a pass only: of the case of another error, no run
  -- of them is stated.
  pub commit_visit-IsEarned :
      (s0 s : HealingState) (w0 w : World E)
      → IsClean s0
      → Visits p deps s0 w0 report_commit s w
      → IsProgress p.sha256_hex s
        × IsEarned s0 w0 s
        × ((sha : Text)
            → (committed p s sha).should_continue
              ≡ not (went_green s.current_sandbox_result) && budget_left p s)
  commit_visit-IsEarned s0 s w0 w clean visit =
      let (moved, goes_on) = commit_visit-IsProgress p deps s0 s w0 w clean visit in
      (moved, visit-Earns s0 w0 visit, goes_on)
