-- ===== src/Orchestrator/Graph/Outcome.antt =====
-- How a session ends: the invariant along a run of the graph.
use self_healing_system_tfg.Base.{ℕ, zero, suc, ◌≡◌, [], Option, some, subst}
use self_healing_system_tfg.Python.Effects.{returned, World, Py, resume-eq-returned}
use self_healing_system_tfg.Python.Platform.{Platform}
use self_healing_system_tfg.Domain.State.{HealingState}
use self_healing_system_tfg.Ports.{Dependencies}
use self_healing_system_tfg.Orchestrator.Nodes.Repair.{judged, regressed, invalid_state}
use self_healing_system_tfg.Orchestrator.Graph.{
  Node, bootstrap, Target, goto, end_of_graph, dangling, successor, run_node, follow, run, invoke,
}
use self_healing_system_tfg.Orchestrator.Graph.Effect.{
  Effect, started, fixed, unvalidated, gate_broke, validated, immunized, commit_made, undone,
  written, run_node-Effect,
}
use self_healing_system_tfg.Orchestrator.Graph.Ending.{
  HasEnded, Holds, Next, validate-Next, IsKept-same, written-HasEnded, bootstrap-Next, fix-Next,
  commit-Next, immunize-Next, rollback-Next,
}

module _ {E : Type 0} (p : Platform) (deps : Dependencies E) where
  pub step-Next :
      (s t : HealingState) (n : Node)
      → Holds n s
      → Effect p deps s t n
      → Next (successor p.sha256_hex n t) t
  unfolding invalid_state regressed judged successor
  step-Next s t n h (started id e) = absurd h
  step-Next s t n h (fixed patch line e) = rw e (fix-Next p s h.0 h.1 patch line)
  step-Next s t n h (unvalidated e) =
      validate-Next _ t (IsKept-same s t (rw e) (rw e) (rw e) (rw e) h.0) (rw e h.1)
  step-Next s t n h (gate_broke gate broke e) =
      validate-Next _ t (IsKept-same s t (rw e) (rw e) (rw e) (rw e) h.0) (rw e h.1)
  step-Next s t n h (validated result e) =
      validate-Next _ t (IsKept-same s t (rw e) (rw e) (rw e) (rw e) h.0) (rw e h.1)
  step-Next s t n h (immunized kept line e) = rw e (immunize-Next p s h.0 h.1 kept line)
  step-Next s t n h (commit_made sha e) = rw e (commit-Next p s h.0 h.1 sha)
  step-Next s t n h (undone e) = rw e (rollback-Next p s h.0 h.1)
  step-Next s t n h (written path e) = rw e (written-HasEnded s path h.0 h.1)

  follow_ended :
      (target : Target) (t u : HealingState) (w w' : World E)
      (rest : Node → HealingState → Py E (Option HealingState))
      → Next target t
      → ((m : Node) → Holds m t → rest m t w ≡ (returned (some u), w') → HasEnded u)
      → follow p deps target t rest w ≡ (returned (some u), w')
      → HasEnded u
  follow_ended (goto m) t u w w' rest next h ran = h m next ran
  follow_ended end_of_graph t u w w' rest next h ran =
      let same : t ≡ u = cc in subst HasEnded same next
  follow_ended dangling t u w w' rest next h ran = absurd next

  run_ended :
      (fuel : ℕ) (n : Node) (s u : HealingState) (w w' : World E)
      → Holds n s
      → run p deps fuel n s w ≡ (returned (some u), w')
      → HasEnded u
  unfolding run
  run_ended zero n s u w w' h ran = cc
  run_ended (suc fuel) n s u w w' h ran =
      let (t, w1, first, after) = resume-eq-returned (run_node p deps n s w) _ ran in
      follow_ended _ t u w1 w' (run p deps fuel)
        (step-Next s t n h (run_node-Effect p deps s t n w w1 first))
        (λ m held rest. run_ended fuel m t u w1 w' held rest) after

  pub begin-Next :
      (s t : HealingState)
      → s.failed_attempts ≡ []
      → s.resolved_errors ≡ []
      → Effect p deps s t bootstrap
      → Next (successor p.sha256_hex bootstrap t) t
  begin-Next s t untried unhealed (started id e) =
      rw e (bootstrap-Next p deps s id untried unhealed)

  -- A session that begins with no failed attempt and no resolved error, and that ends with a state,
  -- has either healed the last error, with one commit more than the error index and fewer failed
  -- attempts on it than `max 1 max_retries`, or escalated it: not resolved, with a report, one commit
  -- for each earlier error, and exactly `max 1 max_retries` failed attempts on it.
  pub invoke_ends :
      (fuel : ℕ) (s t : HealingState) (w w' : World E)
      → s.failed_attempts ≡ []
      → s.resolved_errors ≡ []
      → invoke p deps fuel s w ≡ (returned (some t), w')
      → HasEnded t
  unfolding invoke run
  invoke_ends zero s t w w' untried unhealed ran = cc
  invoke_ends (suc fuel) s t w w' untried unhealed ran =
      let (s1, w1, first, after) = resume-eq-returned (run_node p deps bootstrap s w) _ ran in
      follow_ended _ s1 t w1 w' (run p deps fuel)
        (begin-Next s s1 untried unhealed (run_node-Effect p deps s s1 bootstrap w w1 first))
        (λ m held rest. run_ended fuel m s1 t w1 w' held rest) after
