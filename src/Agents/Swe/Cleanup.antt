-- ===== src/Agents/Swe/Cleanup.antt =====
-- The cleanup of containers raises nothing, whatever `docker` does.
use self_healing_system_tfg.Base.{List, [], ◌∷◌}
use self_healing_system_tfg.Python.Text.{Text, truthy}
use self_healing_system_tfg.Python.Effects.{World}
use self_healing_system_tfg.Python.Effects.Raises.{
  RaisesOnly, Never, raises_returned, handled_all-RaisesOnly, choice-RaisesOnly, resume-RaisesOnly,
}
use self_healing_system_tfg.Agents.Swe.Run.{
  SweTools, list_docker_containers, kill_container, kill_all, kill_new_containers,
  cleanup_all_containers,
}

module _ {E : Type 0} (tools : SweTools E) where
  pub list-RaisesOnly : (w : World E) → RaisesOnly Never (list_docker_containers tools w)
  unfolding list_docker_containers
  list-RaisesOnly w = handled_all-RaisesOnly _ _ _ λ e w1. raises_returned _ _ w1

  kill_all-RaisesOnly : (ids : List Text) (w : World E) → RaisesOnly Never (kill_all tools ids w)
  unfolding kill_all kill_container
  kill_all-RaisesOnly [] w = raises_returned _ _ w
  kill_all-RaisesOnly (cid ∷ cids) w =
      resume-RaisesOnly _ _ _ (handled_all-RaisesOnly _ _ _ λ e w1. raises_returned _ _ w1)
        λ _ w1. kill_all-RaisesOnly cids w1

  pub kill_new-RaisesOnly :
      (ids : List Text) (w : World E) → RaisesOnly Never (kill_new_containers tools ids w)
  unfolding kill_new_containers
  kill_new-RaisesOnly ids w =
      resume-RaisesOnly _ _ _ (list-RaisesOnly w) λ now w1. kill_all-RaisesOnly _ w1

  pub cleanup_all-RaisesOnly : (w : World E) → RaisesOnly Never (cleanup_all_containers tools w)
  unfolding cleanup_all_containers
  cleanup_all-RaisesOnly w = resume-RaisesOnly _ _ _ (list-RaisesOnly w) λ ids w1.
      resume-RaisesOnly _ _ _
        (choice-RaisesOnly _ (truthy ids) _ _ w1 (kill_new-RaisesOnly [] w1)
          (raises_returned _ _ w1))
        λ _ w2. handled_all-RaisesOnly _ _ _ λ e w3. raises_returned _ _ w3
