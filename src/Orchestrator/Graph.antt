-- ===== src/Orchestrator/Graph.antt =====
-- src/orchestrator/graph.py: the nodes, the edges between them, and a run of the compiled graph.
pub mod Effect
pub mod Bound
pub mod Ledger
pub mod Ending
pub mod Outcome
pub mod Visits
pub mod Gate
pub mod Total
use self_healing_system_tfg.Base.{ℕ, zero, suc, [], Option, none, some}
use self_healing_system_tfg.Python.Text.{Text, text}
use self_healing_system_tfg.Python.Effects.{Exn, other, runtime_error, Py, pure, throw, ◌>>=◌}
use self_healing_system_tfg.Python.Platform.{Platform}
use self_healing_system_tfg.Domain.Enums.{
  RoutingDecision, to_fix, to_validation, to_immunize, to_rollback, to_post_mortem, finish,
}
use self_healing_system_tfg.Domain.State.{HealingState}
use self_healing_system_tfg.Ports.{Dependencies}
use self_healing_system_tfg.Orchestrator.Routers.{
  route_after_fix, route_after_validate, route_after_commit, route_after_rollback,
}
use self_healing_system_tfg.Orchestrator.Nodes.Bootstrap.{bootstrap_node}
use self_healing_system_tfg.Orchestrator.Nodes.Repair.{fix_node, validate_node, rollback_node}
use self_healing_system_tfg.Orchestrator.Nodes.Immunize.{immunize_node}
use self_healing_system_tfg.Orchestrator.Nodes.Commit.{report_commit_node, post_mortem_node}

-- LangGraph's `GraphRecursionError`, which is a `RecursionError` and so a `RuntimeError`.
abbrev pub recursion_error : Exn
recursion_error = runtime_error (text "Recursion limit reached without hitting a stop condition.")

-- The final state, or the error of a run that came to its limit.
abbrev pub final_or_raise : {E : Type 0} → Option HealingState → Py E HealingState
final_or_raise none = throw recursion_error
final_or_raise (some s) = pure s

pub data Node : Type 0 where
  bootstrap fix validate immunize report_commit rollback post_mortem : Node

-- Where an edge leads; `dangling` is a decision that the node's table does not hold.
pub data Target : Type 0 where
  goto : Node → Target
  end_of_graph dangling : Target

-- The tables that `add_conditional_edges` is given.
unfoldable pub fix_edges : RoutingDecision → Target
fix_edges to_validation = goto validate
fix_edges to_rollback = goto rollback
fix_edges _ = dangling

unfoldable pub validate_edges : RoutingDecision → Target
validate_edges to_immunize = goto immunize
validate_edges to_rollback = goto rollback
validate_edges _ = dangling

unfoldable pub commit_edges : RoutingDecision → Target
commit_edges to_fix = goto fix
commit_edges finish = end_of_graph
commit_edges _ = dangling

unfoldable pub rollback_edges : RoutingDecision → Target
rollback_edges to_fix = goto fix
rollback_edges to_post_mortem = goto post_mortem
rollback_edges _ = dangling

-- The edges of `build_graph`, after a node has left the state `s`.
unfoldable pub successor : (Text → Text) → Node → HealingState → Target
unfolding fix_edges validate_edges commit_edges rollback_edges route_after_fix route_after_validate
    route_after_commit route_after_rollback
successor sha bootstrap s = goto fix
successor sha fix s = fix_edges (route_after_fix s)
successor sha validate s = validate_edges (route_after_validate sha s)
successor sha immunize s = goto report_commit
successor sha report_commit s = commit_edges (route_after_commit s)
successor sha rollback s = rollback_edges (route_after_rollback s)
successor sha post_mortem s = end_of_graph

module _ {E : Type 0} (p : Platform) (deps : Dependencies E) where
  unfoldable pub run_node : Node → HealingState → Py E HealingState
  run_node bootstrap = bootstrap_node p deps
  run_node fix = fix_node p deps
  run_node validate = validate_node p deps
  run_node immunize = immunize_node p deps
  run_node report_commit = report_commit_node p deps
  run_node rollback = rollback_node p deps
  run_node post_mortem = post_mortem_node p deps

  -- What follows a node, for the rest of a run: `none` is a run that the fuel did not last for.
  abbrev pub follow :
      Target
      → HealingState
      → (Node → HealingState → Py E (Option HealingState))
      → Py E (Option HealingState)
  follow (goto n) s rest = rest n s
  follow end_of_graph s rest = pure (some s)
  follow dangling s rest = throw (other [])

  -- A run from a node on, for at most `fuel` nodes.
  unfoldable pub run : ℕ → Node → HealingState → Py E (Option HealingState)
  run zero n s = pure none
  run (suc fuel) n s = do s' ← run_node n s; follow (successor p.sha256_hex n s') s' (run fuel)

  -- A run of the compiled graph from its entry: the final state, or `none` at the limit of steps.
  unfoldable pub invoke : ℕ → HealingState → Py E (Option HealingState)
  unfolding run
  invoke fuel s = run fuel bootstrap s

  -- `graph.ainvoke(state)`, with the limit of steps.
  unfoldable pub ainvoke : ℕ → HealingState → Py E HealingState
  unfolding invoke
  ainvoke limit s = do end ← invoke limit s; final_or_raise end
