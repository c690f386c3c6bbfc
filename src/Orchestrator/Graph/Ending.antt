-- ===== src/Orchestrator/Graph/Ending.antt =====
-- How a session ends: what it leaves in the final state, and the invariant that each node keeps for it.
use self_healing_system_tfg.Base.{
  ◌+◌, ◌<◌, ◌≡◌, refl, Bool, true, false, [], Option, none, some, arith, ◌≤◌, ltb, ltb→lt,
  if◌then◌else◌, length, length-append, inl, inr, ◌⊎◌,
}
use self_healing_system_tfg.Python.Text.{Text}
use self_healing_system_tfg.Python.Platform.{Platform}
use self_healing_system_tfg.Domain.Enums.{
  RoutingDecision, to_fix, to_immunize, to_rollback, to_post_mortem,
}
use self_healing_system_tfg.Domain.Signature.{ErrorSignature}
use self_healing_system_tfg.Domain.Models.{Patch, RegressionTest}
use self_healing_system_tfg.Domain.State.{HealingState}
use self_healing_system_tfg.Ports.{Dependencies}
use self_healing_system_tfg.Orchestrator.Routers.{
  has, or_default, went_green, is_other_error, route_after_validate, route_after_rollback,
}
use self_healing_system_tfg.Orchestrator.Nodes.Context.{current_cycle_attempts, residual_signature}
use self_healing_system_tfg.Orchestrator.Nodes.Bootstrap.{bootstrapped}
use self_healing_system_tfg.Orchestrator.Nodes.Repair.{with_patch, rolled_back}
use self_healing_system_tfg.Orchestrator.Nodes.Immunize.{with_test}
use self_healing_system_tfg.Orchestrator.Nodes.Commit.{
  recorded, advanced, finish_or_advance, budget_left, committed, reported,
}
use self_healing_system_tfg.Orchestrator.Graph.{
  Node, bootstrap, fix, validate, immunize, report_commit, rollback, post_mortem, Target, goto,
  end_of_graph, dangling, validate_edges, rollback_edges, successor,
}
use self_healing_system_tfg.Orchestrator.Graph.Bound.{retries}
use self_healing_system_tfg.Orchestrator.Graph.Ledger.{IsKept, rolled_back-IsKept, advanced-IsKept}

-- The session healed an error and had nothing left to do, or nothing left to spend on it.
pub record IsHealed (t : HealingState) : Type 0 where
  pub healed_last : t.is_resolved ≡ true
  pub commits : length t.resolved_errors ≡ t.error_cycle_index + 1
  pub attempts : t.attempt_count < retries t

-- The session gave an error up: it was tried as often as allowed, and there is a report.
pub record IsEscalated (t : HealingState) : Type 0 where
  pub unresolved : t.is_resolved ≡ false
  pub report : has t.post_mortem_path ≡ true
  pub commits : length t.resolved_errors ≡ t.error_cycle_index
  pub attempts : t.attempt_count ≡ retries t

abbrev pub HasEnded : HealingState → Type 0
HasEnded t = IsHealed t ⊎ IsEscalated t

-- The invariant, when a node is about to run.
abbrev pub Holds : Node → HealingState → Type 0
Holds bootstrap s = ⊥
Holds post_mortem s = IsKept s × (s.attempt_count ≡ retries s)
Holds _ s = IsKept s × (s.attempt_count < retries s)

-- What a node owes to the edge that is taken; there is no way to owe it to a missing edge.
abbrev pub Next : Target → HealingState → Type 0
Next (goto m) t = Holds m t
Next end_of_graph t = HasEnded t
Next dangling t = ⊥

-- A decision between two edges owes what the one that is taken owes.
if-Next :
    (b : Bool) (edges : RoutingDecision → Target) (x y : RoutingDecision) (t : HealingState)
    → (b ≡ true → Next (edges x) t)
    → (b ≡ false → Next (edges y) t)
    → Next (edges (if b then x else y)) t
if-Next true edges x y t h k = h refl
if-Next false edges x y t h k = k refl

pub IsKept-same :
    (s t : HealingState)
    → t.failed_attempts ≡ s.failed_attempts
    → t.error_cycle_index ≡ s.error_cycle_index
    → t.attempt_count ≡ s.attempt_count
    → t.resolved_errors ≡ s.resolved_errors
    → IsKept s
    → IsKept t
unfolding current_cycle_attempts
IsKept-same s t failures cycle attempts resolved kept = record {
  numbered = rw (failures, cycle, attempts) kept.numbered;
  below = rw (failures, cycle) kept.below;
  healed = rw (resolved, cycle) kept.healed;
}

-- Whatever `validate` finds, it leaves the counters; each leaf of the decision has an edge.
pub validate-Next :
    (sha : Text → Text) (t : HealingState)
    → IsKept t
    → t.attempt_count < retries t
    → Next (successor sha validate t) t
unfolding successor validate_edges route_after_validate
validate-Next sha t kept early =
    let held : IsKept t × (t.attempt_count < retries t) = (kept, early) in
    if-Next t.regression_detected validate_edges to_rollback _ t (λ _. held)
      λ _.
        if-Next (went_green t.current_sandbox_result) validate_edges to_immunize _ t (λ _. held)
          λ _.
            if-Next (is_other_error sha t.post_fix_signature t.current_error_signature)
              validate_edges to_immunize to_rollback t (λ _. held) (λ _. held)

-- After a rollback there is a retry, or the error was tried as often as allowed.
after_rollback :
    (sha : Text → Text) (t : HealingState)
    → IsKept t
    → 0 < t.attempt_count
    → t.attempt_count ≤ retries t
    → Next (successor sha rollback t) t
unfolding successor rollback_edges route_after_rollback
after_rollback sha t kept tried within =
    if-Next (ltb t.attempt_count (or_default t.max_retries 3)) rollback_edges to_fix to_post_mortem
      t (λ more. (kept, omega (arith, ltb→lt _ _ more))) (λ spent. (kept, ground (arith, spent)))

module _ (p : Platform) (s : HealingState) (kept : IsKept s)
    (early : s.attempt_count < retries s) where
  pub fix-Next :
      (patch : Option Patch) (line : Text)
      → Next (successor p.sha256_hex fix (with_patch s patch line)) (with_patch s patch line)
  unfolding successor with_patch
  fix-Next none line = (IsKept-same s _ refl refl refl refl kept, early)
  fix-Next (some patch) line = (IsKept-same s _ refl refl refl refl kept, early)

  finish-Next :
      (sha : Text) (residual : Option ErrorSignature) (more : Bool)
      → let t = finish_or_advance p s (recorded p s sha) residual more in
        Next (successor p.sha256_hex report_commit t) t
  unfolding successor recorded advanced
  finish-Next sha (some e) true = (advanced-IsKept p s kept sha e, omega arith)
  finish-Next sha none more = inl record {
    healed_last = refl;
    commits = omega (arith, length-append s.resolved_errors, kept.healed);
    attempts = early;
  }
  finish-Next sha (some e) false = inl record {
    healed_last = refl;
    commits = omega (arith, length-append s.resolved_errors, kept.healed);
    attempts = early;
  }

  pub commit-Next :
      (sha : Text)
      → Next (successor p.sha256_hex report_commit (committed p s sha)) (committed p s sha)
  unfolding committed
  commit-Next sha = finish-Next sha (residual_signature p.sha256_hex s) (budget_left p s)

  pub immunize-Next :
      (test : Option RegressionTest) (line : Text)
      → Next (successor p.sha256_hex immunize (with_test s test line)) (with_test s test line)
  unfolding successor with_test
  immunize-Next test line = (IsKept-same s _ refl refl refl refl kept, early)

  pub rollback-Next : Next (successor p.sha256_hex rollback (rolled_back p s)) (rolled_back p s)
  unfolding rolled_back
  rollback-Next =
      after_rollback p.sha256_hex (rolled_back p s) (rolled_back-IsKept p s kept) (omega arith)
        (omega arith)

pub written-HasEnded :
    (s : HealingState) (path : Text)
    → IsKept s
    → s.attempt_count ≡ retries s
    → HasEnded (reported s path)
unfolding reported
written-HasEnded s path kept spent =
    inr record { unresolved = refl; report = refl; commits = kept.healed; attempts = spent }

-- The first error's account is empty.
pub bootstrap-Next :
    {E : Type 0} (p : Platform) (deps : Dependencies E) (s : HealingState) (id : Text)
    → s.failed_attempts ≡ []
    → s.resolved_errors ≡ []
    → Next (successor p.sha256_hex bootstrap (bootstrapped p deps s id)) (bootstrapped p deps s id)
unfolding successor bootstrapped current_cycle_attempts
bootstrap-Next p deps s id untried unhealed =
    (record { numbered = rw untried; below = rw untried tt; healed = rw unhealed }, omega arith)
