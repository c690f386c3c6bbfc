-- ===== src/Observability/Session.antt =====
-- A session of the watched graph of src/orchestrator/graph.py ends within the bound of the plain one.
use self_healing_system_tfg.Base.{ℕ, zero, suc, ◌≤◌, ◌≡◌, ◌≢◌, sym, ◌∙◌, ap, [], ◌++◌, none, arith}
use self_healing_system_tfg.Python.Text.{text}
use self_healing_system_tfg.Python.Effects.{Outcome, returned, World}
use self_healing_system_tfg.Python.Platform.{Platform}
use self_healing_system_tfg.Domain.State.{HealingState}
use self_healing_system_tfg.Ports.{Dependencies}
use self_healing_system_tfg.Orchestrator.Graph.{Node, bootstrap, run_node}
use self_healing_system_tfg.Orchestrator.Graph.Effect.{Effect, run_node-Effect}
use self_healing_system_tfg.Orchestrator.Graph.Bound.{
  rank, rank_pos, Fits, IsComplete, step-Shrinks, resume-IsComplete, follow-IsComplete,
  bootstrap-Shrinks, session_bound,
}
use self_healing_system_tfg.Observability.{instrument_node}
use self_healing_system_tfg.Observability.Watched.{span_outcome}
use self_healing_system_tfg.Observability.Ports.{
  Telemetry, node_name, watched_node, watched_run, watched_invoke,
}

-- A call with a known outcome.
at_world : {E A : Type 0} (o : Outcome A × World E) {x : Outcome A} → o.0 ≡ x → o ≡ (x, o.1)
at_world (a, w) h = ap (λ y. (y, w)) h

module _ {E : Type 0} (t : Telemetry E) (p : Platform) (deps : Dependencies E) where
  -- A watched node that returns has changed the state as the node does.
  watched_node-Effect :
      (s u : HealingState) (n : Node) (w w' : World E)
      → watched_node t p deps n s w ≡ (returned u, w')
      → Effect p deps s u n
  unfolding watched_node instrument_node
  watched_node-Effect s u n w w' h =
      let same : (run_node p deps n s w).0 ≡ returned u =
        sym (
          span_outcome t.type_name t.sink (text "node." ++ node_name n) [] (λ _. [])
            (run_node p deps n s) w)
        ∙ ap (λ o. o.0) h in
      run_node-Effect p deps s u n w _ (at_world (run_node p deps n s w) same)

  watched_run-IsComplete :
      (fuel : ℕ) (n : Node) (s : HealingState) (w : World E)
      → Fits n s
      → rank n s ≤ fuel
      → IsComplete p deps (watched_run t p deps fuel n s w)
  unfolding watched_run
  watched_run-IsComplete zero n s w f h = absurd (omega (arith, rank_pos n s f))
  watched_run-IsComplete (suc fuel) n s w f h = resume-IsComplete p deps _ _ λ u w' ran.
      follow-IsComplete p deps _ u w' (watched_run t p deps fuel) λ m to_m.
        let (fits, less) =
          step-Shrinks p deps s u n m f (watched_node-Effect s u n w w' ran) to_m in
        watched_run-IsComplete fuel m u w' fits (omega arith)

  -- The watched graph, as the scripts run it, never stops for want of fuel once it may visit as many
  -- nodes as the bound of the session, whatever the sink and the collaborators do.
  pub watched_invoke_completes :
      (fuel : ℕ) (s : HealingState) (w : World E)
      → session_bound p deps s ≤ fuel
      → (watched_invoke t p deps fuel s w).0 ≢ returned none
  unfolding watched_invoke watched_run
  watched_invoke_completes zero s w h = absurd (omega arith)
  watched_invoke_completes (suc fuel) s w h = resume-IsComplete p deps _ _ λ u w' ran.
      follow-IsComplete p deps _ u w' (watched_run t p deps fuel) λ m to_m.
        let (fits, less) =
          bootstrap-Shrinks p deps s u m (watched_node-Effect s u bootstrap w w' ran) to_m in
        watched_run-IsComplete fuel m u w' fits (omega arith)
