-- ===== src/Agents/Swe/Containers.antt =====
-- The cleanup after a run of the agent spares the containers that were there before it.
use self_healing_system_tfg.Base.{◌≡◌, true, false, List, [], ◌∷◌, Bool-cases, inl, inr}
use self_healing_system_tfg.Python.Text.{Text, text, text_eq}
use self_healing_system_tfg.Python.Text.Lemmas.{text_eq→eq}
use self_healing_system_tfg.Python.Effects.{World}
use self_healing_system_tfg.Python.Effects.Leaves.{Leaves, Leaves-at, resume-Leaves, handled-Leaves}
use self_healing_system_tfg.Orchestrator.Regression.{mem_text}
use self_healing_system_tfg.Agents.Swe.Run.{
  SweTools, list_docker_containers, difference, kill_container, kill_all, kill_new_containers,
}

-- What `docker` does to a container `old` that stands: listing spares it, and stopping or removing
-- another one does too.
pub record SparesOthers {E : Type 0} (tools : SweTools E) (Stands : World E → Type 0) (old : Text)
    : Type 0 where
  pub lists :
      (w : World E)
      → Stands w
      → Leaves Stands (
          tools.docker (text "ps" ∷ text "-q" ∷ text "--filter" ∷ text "name=minisweagent-" ∷ []) w)
  pub stops :
      (cid : Text) (w : World E)
      → text_eq cid old ≡ false
      → Stands w
      → Leaves Stands (tools.docker (text "stop" ∷ cid ∷ []) w)
  pub removes :
      (cid : Text) (w : World E)
      → text_eq cid old ≡ false
      → Stands w
      → Leaves Stands (tools.docker (text "rm" ∷ text "-f" ∷ cid ∷ []) w)

module _ {E : Type 0} (tools : SweTools E) (Stands : World E → Type 0) (old : Text)
    (spares : SparesOthers tools Stands old) where
  -- None of the texts is `old`.
  abbrev IsFree : List Text → Type 0
  IsFree [] = Unit
  IsFree (t ∷ ts) = (text_eq t old ≡ false) × IsFree ts

  -- What is not in a list is not one of its members.
  not_old :
      (cid : Text) (existing : List Text)
      → mem_text old existing ≡ true
      → mem_text cid existing ≡ false
      → text_eq cid old ≡ false
  not_old cid existing h k = elim (Bool-cases (text_eq cid old)) [
    | inl same ↦ absurd (cc (text_eq→eq cid old same, h, k))
    | inr other ↦ other
  ]

  difference-IsFree :
      (now existing : List Text)
      → mem_text old existing ≡ true
      → IsFree (difference tools now existing)
  unfolding difference
  difference-IsFree [] existing h = tt
  difference-IsFree (cid ∷ cids) existing h = elim (Bool-cases (mem_text cid existing)) [
    | inl there ↦ rw there (difference-IsFree cids existing h)
    | inr fresh ↦ rw fresh (not_old cid existing h fresh, difference-IsFree cids existing h)
  ]

  kill-Leaves :
      (cid : Text) (w : World E)
      → text_eq cid old ≡ false
      → Stands w
      → Leaves Stands (kill_container tools cid w)
  unfolding kill_container
  kill-Leaves cid w other h =
      handled-Leaves _ _ _
        (resume-Leaves _ _ _ _ (spares.stops cid w other h) (λ _ k. k)
          λ _ w1 k.
            resume-Leaves _ _ _ _ (spares.removes cid w1 other k) (λ _ l. l)
              λ _ w2 l. Leaves-at _ _ w2 l)
        λ e w3 k. Leaves-at _ _ w3 k

  kill_all-Leaves :
      (ids : List Text) (w : World E) → IsFree ids → Stands w → Leaves Stands (kill_all tools ids w)
  unfolding kill_all
  kill_all-Leaves [] w free h = Leaves-at _ _ w h
  kill_all-Leaves (cid ∷ cids) w free h =
      resume-Leaves _ _ _ _ (kill-Leaves cid w (free.0) h) (λ _ k. k)
        λ _ w1 k. kill_all-Leaves cids w1 (free.1) k

-- A container that was listed before the run, `old`, still stands after the cleanup, whether the
-- cleanup returns or raises, if `docker` touches no container that it is not told to.
pub kill_new_containers-Leaves :
    {E : Type 0} (tools : SweTools E) (Stands : World E → Type 0) (old : Text)
    (existing : List Text) (w : World E)
    → SparesOthers tools Stands old
    → mem_text old existing ≡ true
    → Stands w
    → Leaves Stands (kill_new_containers tools existing w)
unfolding kill_new_containers list_docker_containers
kill_new_containers-Leaves tools Stands old existing w spares listed h =
    resume-Leaves _ _ _ _
      (handled-Leaves _ _ _
        (resume-Leaves _ _ _ _ (spares.lists w h) (λ _ k. k) λ _ w1 k. Leaves-at _ _ w1 k)
        λ e w1 k. Leaves-at _ _ w1 k)
      (λ _ k. k)
      λ now w1 k.
        kill_all-Leaves tools Stands old spares _ w1
          (difference-IsFree tools Stands old spares now existing listed) k
