-- ===== src/Orchestrator/Graph/Visits.antt =====
-- The nodes that a session visits, in order, and what each of them can rely on.
use self_healing_system_tfg.Base.{
  ◌≡◌, refl, Bool, true, false, not, ◌&&◌, Option, none, some, inl, inr, ◌⊎◌, ltb, Bool-cases, ap,
  ◌∙◌, subst, if◌then◌else◌, ◌+◌,
}
use self_healing_system_tfg.Python.Text.{Text}
use self_healing_system_tfg.Python.Effects.{World, returned}
use self_healing_system_tfg.Python.Platform.{Platform}
use self_healing_system_tfg.Domain.Enums.{RoutingDecision, to_fix, to_post_mortem}
use self_healing_system_tfg.Domain.Signature.{ErrorSignature}
use self_healing_system_tfg.Domain.State.{HealingState}
use self_healing_system_tfg.Ports.{Dependencies}
use self_healing_system_tfg.Orchestrator.Routers.{
  has, or_default, went_green, is_other_error, route_after_fix, route_after_validate,
  route_after_commit, route_after_rollback,
}
use self_healing_system_tfg.Orchestrator.Nodes.Context.{residual_signature}
use self_healing_system_tfg.Orchestrator.Nodes.Bootstrap.{bootstrapped}
use self_healing_system_tfg.Orchestrator.Nodes.Repair.{
  judged, regressed, invalid_state, rolled_back,
}
use self_healing_system_tfg.Orchestrator.Nodes.Immunize.{with_test}
use self_healing_system_tfg.Orchestrator.Nodes.Commit.{
  recorded, advanced, finish_or_advance, budget_left, committed,
}
use self_healing_system_tfg.Orchestrator.Graph.{
  Node, bootstrap, fix, validate, immunize, report_commit, rollback, Target, goto, fix_edges,
  validate_edges, commit_edges, rollback_edges, successor, run_node,
}
use self_healing_system_tfg.Orchestrator.Graph.Effect.{
  Effect, started, fixed, unvalidated, gate_broke, validated, immunized, commit_made, undone,
  written, run_node-Effect,
}

-- `Visits s₀ w₀ n s w`: a session that starts at `s₀` in the world `w₀` comes to the node `n`, with
-- the state `s`, in the world `w`.
pub data Visits {E : Type 0} (p : Platform) (deps : Dependencies E) (s0 : HealingState)
    (w0 : World E) : Node → HealingState → World E → Type 0 where
  begun : Visits p deps s0 w0 bootstrap s0 w0
  went_on :
      (n m : Node) (s t : HealingState) (w w' : World E)
      → Visits p deps s0 w0 n s w
      → run_node p deps n s w ≡ (returned t, w')
      → successor p.sha256_hex n t ≡ goto m
      → Visits p deps s0 w0 m t w'

-- Nothing is left of an earlier attempt.
pub record IsClean (s : HealingState) : Type 0 where
  pub no_patch : s.current_patch ≡ none
  pub no_result : s.current_sandbox_result ≡ none
  pub no_signature : s.post_fix_signature ≡ none
  pub no_regression : s.regression_detected ≡ false

-- There is a patch, no broken protected test is recorded, and the program passes or fails with another
-- error than before.
pub record IsProgress (sha : Text → Text) (s : HealingState) : Type 0 where
  pub patch_given : has s.current_patch ≡ true
  pub whole : s.regression_detected ≡ false
  pub moved :
      (went_green s.current_sandbox_result ≡ true)
      ⊎ (is_other_error sha s.post_fix_signature s.current_error_signature ≡ true)

abbrev Stands : (Text → Text) → Node → HealingState → Type 0
Stands sha validate s = has s.current_patch ≡ true
Stands sha immunize s = IsProgress sha s
Stands sha report_commit s = IsProgress sha s
Stands sha rollback s = Unit
Stands sha _ s = IsClean s

-- What a node owes to the edge that is taken.
abbrev Owes : (Text → Text) → HealingState → Target → Type 0
Owes sha t (goto m) = Stands sha m t
Owes sha t _ = Unit

pub if_decision :
    (P : RoutingDecision → Type 0) (b : Bool) (x y : RoutingDecision)
    → (b ≡ true → P x)
    → (b ≡ false → P y)
    → P (if b then x else y)
if_decision P true x y h k = h refl
if_decision P false x y h k = k refl

fix-Owes : (sha : Text → Text) (t : HealingState) → Owes sha t (successor sha fix t)
unfolding successor route_after_fix fix_edges
fix-Owes sha t =
    if_decision (λ d. Owes sha t (fix_edges d)) (has t.current_patch) _ _ (λ patched. patched)
      (λ _. tt)

validate-Owes :
    (sha : Text → Text) (t : HealingState)
    → has t.current_patch ≡ true
    → Owes sha t (successor sha validate t)
unfolding successor route_after_validate validate_edges
validate-Owes sha t patched =
    let owes : RoutingDecision → Type 0 = λ d. Owes sha t (validate_edges d) in
    if_decision owes t.regression_detected _ _ (λ _. tt)
      λ whole.
        if_decision owes (went_green t.current_sandbox_result) _ _
          (λ green. record { patch_given = patched; whole = whole; moved = inl green })
          λ _.
            if_decision owes (is_other_error sha t.post_fix_signature t.current_error_signature) _ _
              (λ differs. record { patch_given = patched; whole = whole; moved = inr differs })
              (λ _. tt)

-- A rollback leaves nothing of the attempt.
rollback-Owes :
    (p : Platform) (s : HealingState)
    → Owes p.sha256_hex (rolled_back p s) (successor p.sha256_hex rollback (rolled_back p s))
unfolding rolled_back successor route_after_rollback rollback_edges
rollback-Owes p s =
    let owes : RoutingDecision → Type 0 =
      λ d. Owes p.sha256_hex (rolled_back p s) (rollback_edges d) in
    if_decision owes (ltb (s.attempt_count + 1) (or_default s.max_retries 3)) to_fix to_post_mortem
      (λ _. record { no_patch = refl; no_result = refl; no_signature = refl; no_regression = refl })
      (λ _. record { no_patch = refl; no_result = refl; no_signature = refl; no_regression = refl })

is_other_error-has :
    (sha : Text → Text) (post current : Option ErrorSignature)
    → is_other_error sha post current ≡ true
    → has post ≡ true
is_other_error-has sha none current h = h
is_other_error-has sha (some e) current h = refl

module _ (p : Platform) (s : HealingState) (moved : IsProgress p.sha256_hex s) where
  finish-Owes :
      (sha : Text) (residual : Option ErrorSignature) (more : Bool)
      → let t = finish_or_advance p s (recorded p s sha) residual more in
        Owes p.sha256_hex t (successor p.sha256_hex report_commit t)
  unfolding successor recorded advanced route_after_commit commit_edges
  finish-Owes sha (some e) true = record {
    no_patch = refl;
    no_result = refl;
    no_signature = refl;
    no_regression = moved.whole;
  }
  finish-Owes sha (some e) false = tt
  finish-Owes sha none more = tt

  commit-Owes :
      (sha : Text)
      → Owes p.sha256_hex
          (committed p s sha)
          (successor p.sha256_hex report_commit (committed p s sha))
  unfolding committed
  commit-Owes sha = finish-Owes sha (residual_signature p.sha256_hex s) (budget_left p s)

  finish_goes_on :
      (sha : Text) (residual : Option ErrorSignature) (more : Bool)
      → (finish_or_advance p s (recorded p s sha) residual more).should_continue
        ≡ has residual && more
  unfolding recorded advanced
  finish_goes_on sha (some e) true = refl
  finish_goes_on sha (some e) false = refl
  finish_goes_on sha none more = refl

  -- There is an error left exactly if the program does not pass.
  has-residual : has (residual_signature p.sha256_hex s) ≡ not (went_green s.current_sandbox_result)
  unfolding residual_signature
  has-residual = elim (Bool-cases (went_green s.current_sandbox_result)) [
    | inl green ↦ rw green
    | inr red ↦ elim moved.moved [
      | inl green ↦ cc
      | inr differs ↦ rw (red, differs) (is_other_error-has p.sha256_hex _ _ differs)
    ]
  ]

  committed_goes_on :
      (sha : Text)
      → (committed p s sha).should_continue
        ≡ not (went_green s.current_sandbox_result) && budget_left p s
  unfolding committed
  committed_goes_on sha =
      finish_goes_on sha (residual_signature p.sha256_hex s) (budget_left p s)
      ∙ ap (λ b. b && budget_left p s) has-residual

module _ {E : Type 0} (p : Platform) (deps : Dependencies E) where
  step-Owes :
      (s t : HealingState) (n : Node)
      → Stands p.sha256_hex n s
      → Effect p deps s t n
      → Owes p.sha256_hex t (successor p.sha256_hex n t)
  unfolding successor invalid_state regressed judged bootstrapped with_test
  step-Owes s t n h (started id e) = rw e record {
    no_patch = h.no_patch;
    no_result = h.no_result;
    no_signature = h.no_signature;
    no_regression = h.no_regression;
  }
  step-Owes s t n h (fixed patch line e) = fix-Owes _ t
  step-Owes s t n h (unvalidated e) = validate-Owes _ t (rw e h)
  step-Owes s t n h (gate_broke gate broke e) = validate-Owes _ t (rw e h)
  step-Owes s t n h (validated result e) = validate-Owes _ t (rw e h)
  step-Owes s t n h (immunized kept line e) =
      rw e record { patch_given = h.patch_given; whole = h.whole; moved = h.moved }
  step-Owes s t n h (commit_made sha e) = rw e (commit-Owes p s h sha)
  step-Owes s t n h (undone e) = rw e (rollback-Owes p s)
  step-Owes s t n h (written path e) = tt

  visit-Stands :
      {s0 : HealingState} {w0 : World E} {n : Node} {s : HealingState} {w : World E}
      → IsClean s0
      → Visits p deps s0 w0 n s w
      → Stands p.sha256_hex n s
  visit-Stands clean begun = clean
  visit-Stands clean (went_on n m s t w w' visit ran taken) =
      subst (Owes p.sha256_hex t) taken
        (step-Owes s t n (visit-Stands clean visit) (run_node-Effect p deps s t n w w' ran))

  -- Whenever a session that began clean comes to `fix`, nothing is left of an earlier attempt.
  pub fix_visit-IsClean :
      (s0 s : HealingState) (w0 w : World E) → IsClean s0 → Visits p deps s0 w0 fix s w → IsClean s
  fix_visit-IsClean s0 s w0 w clean visit = visit-Stands clean visit

  -- Whenever such a session comes to `report_commit`, its state is progress; then the commit goes on
  -- to the next error exactly if the program does not pass and the budget of errors allows it.
  pub commit_visit-IsProgress :
      (s0 s : HealingState) (w0 w : World E)
      → IsClean s0
      → Visits p deps s0 w0 report_commit s w
      → IsProgress p.sha256_hex s
        × ((sha : Text)
            → (committed p s sha).should_continue
              ≡ not (went_green s.current_sandbox_result) && budget_left p s)
  commit_visit-IsProgress s0 s w0 w clean visit =
      let moved = visit-Stands clean visit in (moved, committed_goes_on p s moved)
