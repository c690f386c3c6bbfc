-- ===== src/Orchestrator/Graph/Total.antt =====
-- A session ends: in a final state, or by an exception of a collaborator that no node catches.
use self_healing_system_tfg.Base.{◌⊎◌, ℕ, zero, suc, ◌≡◌, [], Option, some}
use self_healing_system_tfg.Python.Effects.{Exn, Outcome, World, Py, returned, raised}
use self_healing_system_tfg.Python.Effects.Raises.{
  RaisesOnly, resume-RaisesOnly_of, raises_returned,
}
use self_healing_system_tfg.Python.Platform.{Platform}
use self_healing_system_tfg.Domain.State.{HealingState}
use self_healing_system_tfg.Ports.{Dependencies}
use self_healing_system_tfg.Orchestrator.Nodes.Total.{
  MeetsPorts, bootstrap-RaisesOnly, fix-RaisesOnly, validate-RaisesOnly, rollback-RaisesOnly,
  immunize-RaisesOnly, commit-RaisesOnly, post_mortem-RaisesOnly,
}
use self_healing_system_tfg.Orchestrator.Graph.{
  Node, bootstrap, fix, validate, immunize, report_commit, rollback, post_mortem, Target, goto,
  end_of_graph, dangling, successor, run_node, follow, run, invoke,
}
use self_healing_system_tfg.Orchestrator.Graph.Effect.{run_node-Effect}
use self_healing_system_tfg.Orchestrator.Graph.Ending.{HasEnded, Holds, Next}
use self_healing_system_tfg.Orchestrator.Graph.Outcome.{step-Next, begin-Next}

module _ {E : Type 0} (p : Platform) (deps : Dependencies E) (P : Exn → Type 0)
    (meets : MeetsPorts P deps) where
  node-RaisesOnly :
      (n : Node) (s : HealingState) (w : World E) → RaisesOnly P (run_node p deps n s w)
  unfolding run_node
  node-RaisesOnly bootstrap s w = bootstrap-RaisesOnly p deps P meets s w
  node-RaisesOnly fix s w = fix-RaisesOnly p deps P meets s w
  node-RaisesOnly validate s w = validate-RaisesOnly p deps P meets s w
  node-RaisesOnly immunize s w = immunize-RaisesOnly p deps P meets s w
  node-RaisesOnly report_commit s w = commit-RaisesOnly p deps P meets s w
  node-RaisesOnly rollback s w = rollback-RaisesOnly p deps P meets s w
  node-RaisesOnly post_mortem s w = post_mortem-RaisesOnly p deps P meets s w

  -- After a node, the run goes on or ends: no edge is missing.
  follow-RaisesOnly :
      (target : Target) (t : HealingState) (w : World E)
      (rest : Node → HealingState → Py E (Option HealingState))
      → Next target t
      → ((m : Node) → Holds m t → RaisesOnly P (rest m t w))
      → RaisesOnly P (follow p deps target t rest w)
  follow-RaisesOnly (goto m) t w rest next h = h m next
  follow-RaisesOnly end_of_graph t w rest next h = raises_returned _ _ w
  follow-RaisesOnly dangling t w rest next h = absurd next

  run-RaisesOnly :
      (fuel : ℕ) (n : Node) (s : HealingState) (w : World E)
      → Holds n s
      → RaisesOnly P (run p deps fuel n s w)
  unfolding run
  run-RaisesOnly zero n s w h = raises_returned _ _ w
  run-RaisesOnly (suc fuel) n s w h = resume-RaisesOnly_of _ _ _ (node-RaisesOnly n s w) λ t w' ran.
      follow-RaisesOnly (successor p.sha256_hex n t) t w' (run p deps fuel)
        (step-Next p deps s t n h (run_node-Effect p deps s t n w w' ran))
        λ m held. run-RaisesOnly fuel m t w' held

  -- Of a session that begins with no failed attempt and no resolved error, only the exceptions `P` of
  -- its collaborators leave.
  pub invoke-RaisesOnly :
      (fuel : ℕ) (s : HealingState) (w : World E)
      → s.failed_attempts ≡ []
      → s.resolved_errors ≡ []
      → RaisesOnly P (invoke p deps fuel s w)
  unfolding invoke run
  invoke-RaisesOnly zero s w untried unhealed = raises_returned _ _ w
  invoke-RaisesOnly (suc fuel) s w untried unhealed =
      resume-RaisesOnly_of _ _ _ (node-RaisesOnly bootstrap s w) λ t w' ran.
        follow-RaisesOnly (successor p.sha256_hex bootstrap t) t w' (run p deps fuel)
          (begin-Next p deps s t untried unhealed (run_node-Effect p deps s t bootstrap w w' ran))
          λ m held. run-RaisesOnly fuel m t w' held

-- How a session ends: it returns a final state in which the error is healed or escalated, or it raises
-- an exception of `P`.
abbrev pub EndsWell :
    {E : Type 0} → (Exn → Type 0) → Outcome (Option HealingState) × World E → Type 0
EndsWell {E = E} P o =
    ((t : HealingState) × (w : World E) × (o ≡ (returned (some t), w)) × HasEnded t)
    ⊎ ((e : Exn) × (w : World E) × (o ≡ (raised e, w)) × P e)
