-- ===== src/Orchestrator/Graph/Bound.antt =====
-- A bound on the nodes that a session runs, from its two budgets.
use self_healing_system_tfg.Base.{
  ℕ, zero, suc, ◌+◌, ◌-◌, ◌*◌, ◌≤◌, ◌<◌, max, ◌≡◌, ◌≢◌, refl, Bool, true, false, Option, none, some,
  arith, ltb→lt,
}
use self_healing_system_tfg.Python.Text.{Text}
use self_healing_system_tfg.Python.Effects.{Outcome, returned, raised, World, Py, resume}
use self_healing_system_tfg.Python.Platform.{Platform}
use self_healing_system_tfg.Domain.Signature.{ErrorSignature}
use self_healing_system_tfg.Domain.Models.{Patch, RegressionTest}
use self_healing_system_tfg.Domain.State.{HealingState}
use self_healing_system_tfg.Ports.{Dependencies}
use self_healing_system_tfg.Orchestrator.Routers.{or_default}
use self_healing_system_tfg.Orchestrator.Nodes.Context.{get_or, residual_signature}
use self_healing_system_tfg.Orchestrator.Nodes.Bootstrap.{bootstrapped}
use self_healing_system_tfg.Orchestrator.Nodes.Repair.{
  with_patch, judged, regressed, invalid_state, rolled_back,
}
use self_healing_system_tfg.Orchestrator.Nodes.Immunize.{with_test}
use self_healing_system_tfg.Orchestrator.Nodes.Commit.{
  recorded, advanced, finish_or_advance, budget_left, committed,
}
use self_healing_system_tfg.Orchestrator.Graph.{
  Node, bootstrap, fix, validate, immunize, report_commit, rollback, post_mortem, goto, Target,
  end_of_graph, dangling, successor, follow, run, invoke,
}
use self_healing_system_tfg.Orchestrator.Graph.Effect.{
  Effect, started, fixed, unvalidated, gate_broke, validated, immunized, commit_made, undone,
  written, run_node-Effect,
}

-- The attempts left from attempt `a` of error `c` on, for `r` retries and a budget of `b` errors.
left : (r b a c : ℕ) → ℕ
left r b a c = (b - (c + 1)) * r + (r - a)

left_pos : (r b a c : ℕ) → a < r → 0 < left r b a c
unfolding left
left_pos r b a c h = omega arith

left_retry : (r b a c : ℕ) → a + 1 < r → left r b (a + 1) c < left r b a c
unfolding left
left_retry r b a c h = omega arith

left_advance : (r b a c : ℕ) → a < r → c + 1 < b → left r b 0 (c + 1) < left r b a c
unfolding left
left_advance r b a c h k =
    let e : b - (c + 1) ≡ suc (b - (c + 1 + 1)) = omega arith in rw e (omega arith)

left_start : (r b : ℕ) → left r b 0 0 ≤ max 1 b * r
unfolding left
left_start r zero = omega arith
left_start r (suc b) = grind arith

abbrev pub retries : HealingState → ℕ
retries s = max 1 (or_default s.max_retries 3)

abbrev left_of : HealingState → ℕ
left_of s = left (retries s) (or_default s.error_cycle_budget 1) s.attempt_count s.error_cycle_index

-- The most nodes that a run can still visit, the present one included.
pub rank : Node → HealingState → ℕ
rank fix s = 4 * left_of s + 1
rank validate s = 4 * left_of s
rank immunize s = 4 * left_of s - 1
rank report_commit s = 4 * left_of s - 2
rank rollback s = 4 * left_of s - 1
rank post_mortem s = 1
rank bootstrap s = 0

abbrev IsReady : HealingState → Type 0
IsReady s = s.attempt_count < retries s

abbrev pub Fits : Node → HealingState → Type 0
Fits bootstrap s = ⊥
Fits post_mortem s = Unit
Fits _ s = IsReady s

-- What a step has to show: the next node fits, and fewer nodes are left.
abbrev pub Shrinks : Node → HealingState → Node → HealingState → Type 0
Shrinks n s m t = Fits m t × (rank m t < rank n s)

module _ (p : Platform) (s : HealingState) (ready : IsReady s) where
  abbrev budget : ℕ
  budget = or_default s.error_cycle_budget 1

  pos : 0 < left_of s
  pos = left_pos (retries s) budget s.attempt_count s.error_cycle_index ready

  fix-Shrinks :
      (patch : Option Patch) (line : Text) (m : Node)
      → successor p.sha256_hex fix (with_patch s patch line) ≡ goto m
      → Shrinks fix s m (with_patch s patch line)
  unfolding successor with_patch rank
  fix-Shrinks none line m h = ground arith
  fix-Shrinks (some patch) line m h = ground arith

  -- Whatever `validate` finds, it leaves the counters and the budgets.
  validate-Shrinks :
      (t : HealingState)
      → left_of t ≡ left_of s
      → IsReady t
      → (m : Node) → successor p.sha256_hex validate t ≡ goto m
      → Shrinks validate s m t
  unfolding successor rank
  validate-Shrinks t same r m h = ground (arith, pos)

  immunize-Shrinks :
      (kept : Option RegressionTest) (line : Text) (m : Node)
      → successor p.sha256_hex immunize (with_test s kept line) ≡ goto m
      → Shrinks immunize s m (with_test s kept line)
  unfolding successor with_test rank
  immunize-Shrinks kept line m h = ground (arith, pos)

  finish-Shrinks :
      (sha : Text) (residual : Option ErrorSignature) (more : Bool)
      → (more ≡ true → s.error_cycle_index + 1 < budget)
      → (m : Node)
      → let t = finish_or_advance p s (recorded p s sha) residual more in
        successor p.sha256_hex report_commit t ≡ goto m → Shrinks report_commit s m t
  unfolding successor recorded advanced rank
  finish-Shrinks sha none more within m h = ground arith
  finish-Shrinks sha (some e) false within m h = ground arith
  finish-Shrinks sha (some e) true within m h = ground (
    arith,
    within refl,
    left_advance (retries s) budget s.attempt_count s.error_cycle_index ready (within refl),
  )

  commit-Shrinks :
      (sha : Text) (m : Node)
      → successor p.sha256_hex report_commit (committed p s sha) ≡ goto m
      → Shrinks report_commit s m (committed p s sha)
  unfolding committed
  commit-Shrinks sha m h =
      finish-Shrinks sha (residual_signature p.sha256_hex s) (budget_left p s)
        (λ more. ltb→lt _ _ more) m h

  rollback-Shrinks :
      (m : Node)
      → successor p.sha256_hex rollback (rolled_back p s) ≡ goto m
      → Shrinks rollback s m (rolled_back p s)
  unfolding successor rolled_back rank
  rollback-Shrinks m h =
      ground (arith, pos, left_retry (retries s) budget s.attempt_count s.error_cycle_index)

ends_here :
    (sha : Text → Text) (t : HealingState) (m : Node) → ¬ (successor sha post_mortem t ≡ goto m)
unfolding successor
ends_here sha t m h = cc

pub rank_pos : (n : Node) (s : HealingState) → Fits n s → 0 < rank n s
unfolding rank
rank_pos bootstrap s f = absurd f
rank_pos fix s f = omega arith
rank_pos post_mortem s f = omega arith
rank_pos n s f = omega (
  arith,
  left_pos (retries s) (or_default s.error_cycle_budget 1) s.attempt_count s.error_cycle_index f,
)

module _ {E : Type 0} (p : Platform) (deps : Dependencies E) where
  pub step-Shrinks :
      (s t : HealingState) (n m : Node)
      → Fits n s
      → Effect p deps s t n
      → successor p.sha256_hex n t ≡ goto m
      → Shrinks n s m t
  unfolding invalid_state regressed judged
  step-Shrinks s t n m f (started id e) h = absurd f
  step-Shrinks s t n m f (fixed patch line e) h = rw e (fix-Shrinks p s f patch line m (rw e at h))
  step-Shrinks s t n m f (unvalidated e) h = validate-Shrinks p s f t (rw e refl) (rw e f) m h
  step-Shrinks s t n m f (gate_broke gate broke e) h =
      validate-Shrinks p s f t (rw e refl) (rw e f) m h
  step-Shrinks s t n m f (validated result e) h = validate-Shrinks p s f t (rw e refl) (rw e f) m h
  step-Shrinks s t n m f (immunized kept line e) h =
      rw e (immunize-Shrinks p s f kept line m (rw e at h))
  step-Shrinks s t n m f (commit_made sha e) h = rw e (commit-Shrinks p s f sha m (rw e at h))
  step-Shrinks s t n m f (undone e) h = rw e (rollback-Shrinks p s f m (rw e at h))
  step-Shrinks s t n m f (written path e) h = absurd (ends_here p.sha256_hex t m h)

  -- The run did not stop for want of fuel.
  abbrev pub IsComplete : Outcome (Option HealingState) × World E → Type 0
  IsComplete o = o.0 ≢ returned none

  pub resume-IsComplete :
      (o : Outcome HealingState × World E) (rest : HealingState → Py E (Option HealingState))
      → ((t : HealingState) (w : World E) → o ≡ (returned t, w) → IsComplete (rest t w))
      → IsComplete (resume o rest)
  unfolding resume
  resume-IsComplete (returned t, w) rest h = h t w refl
  resume-IsComplete (raised e, w) rest h = λ q. cc

  pub follow-IsComplete :
      (target : Target) (t : HealingState) (w : World E)
      (rest : Node → HealingState → Py E (Option HealingState))
      → ((m : Node) → target ≡ goto m → IsComplete (rest m t w))
      → IsComplete (follow p deps target t rest w)
  follow-IsComplete (goto m) t w rest h = h m refl
  follow-IsComplete end_of_graph t w rest h = λ q. cc
  follow-IsComplete dangling t w rest h = λ q. cc

  -- A run never stops for want of fuel, once the fuel is the rank.
  run-IsComplete :
      (fuel : ℕ) (n : Node) (s : HealingState) (w : World E)
      → Fits n s
      → rank n s ≤ fuel
      → IsComplete (run p deps fuel n s w)
  unfolding run
  run-IsComplete zero n s w f h = absurd (omega (arith, rank_pos n s f))
  run-IsComplete (suc fuel) n s w f h = resume-IsComplete _ _ λ t w' ran.
      follow-IsComplete _ t w' (run p deps fuel) λ m to_m.
        let (fits, less) = step-Shrinks s t n m f (run_node-Effect p deps s t n w w' ran) to_m in
        run-IsComplete fuel m t w' fits (omega arith)

  -- The most nodes that a session visits: 4 for each attempt, `bootstrap` and `post_mortem`.
  abbrev pub session_bound : HealingState → ℕ
  session_bound s =
      2
      + 4
        * (max 1 (get_or s.error_cycle_budget deps.settings.error_cycle_budget)
            * max 1 (get_or s.max_retries deps.settings.max_retries))

  bootstrapped_fits :
      (s : HealingState) (id : Text)
      → IsReady (bootstrapped p deps s id) × (rank fix (bootstrapped p deps s id) < session_bound s)
  unfolding bootstrapped rank
  bootstrapped_fits s id = (
    omega arith,
    omega (
      arith,
      left_start (max 1 (get_or s.max_retries deps.settings.max_retries))
          (get_or s.error_cycle_budget deps.settings.error_cycle_budget),
    ),
  )

  pub bootstrap-Shrinks :
      (s t : HealingState) (m : Node)
      → Effect p deps s t bootstrap
      → successor p.sha256_hex bootstrap t ≡ goto m
      → Fits m t × (rank m t < session_bound s)
  unfolding successor
  bootstrap-Shrinks s t m (started id e) h = rw e (ground (arith, bootstrapped_fits s id))

  -- A session that may visit as many nodes as its bound never stops for want of fuel: it ends at an
  -- `END` edge, or with an exception, whatever the collaborators answer.
  pub invoke_completes :
      (fuel : ℕ) (s : HealingState) (w : World E)
      → session_bound s ≤ fuel
      → (invoke p deps fuel s w).0 ≢ returned none
  unfolding invoke run
  invoke_completes zero s w h = absurd (omega arith)
  invoke_completes (suc fuel) s w h = resume-IsComplete _ _ λ t w' ran.
      follow-IsComplete _ t w' (run p deps fuel) λ m to_m.
        let (fits, less) =
          bootstrap-Shrinks s t m (run_node-Effect p deps s t bootstrap w w' ran) to_m in
        run-IsComplete fuel m t w' fits (omega arith)
