-- ===== src/Scripts/Heal/Unpublished.antt =====
-- What scripts/heal_and_pr.py does when it publishes nothing.
use self_healing_system_tfg.Base.{ℕ, ◌≡◌, ◌≢◌, refl, ◌⊎◌, inl, inr, Bool, true, false, Option, List}
use self_healing_system_tfg.Python.Text.{Text}
use self_healing_system_tfg.Python.Effects.{returned, World, Py, resume, resume-eq-returned}
use self_healing_system_tfg.Python.Effects.Ends.{EndsAt, EndsAt-elim, ends_returned, resume-EndsAt}
use self_healing_system_tfg.Domain.State.{HealingState}
use self_healing_system_tfg.Adapters.GitHub.{GitHubTools}
use self_healing_system_tfg.Adapters.GitHub.Body.{LlmUsage}
use self_healing_system_tfg.Scripts.Session.{Rig}
use self_healing_system_tfg.Scripts.Heal.{Healing, ended, healed, heal_repo, publish, heal_and_pr}

module _ {E : Type 0} (rig : Rig E) (usage : Py E (Option LlmUsage)) (repo base : Text)
    (draft : Bool) where
  -- A pull request that was asked for and not refused gives 0.
  publish-zero :
      (tools : GitHubTools E) (workspace heal_branch : Text) (final : HealingState)
      (subjects : List Text) (llm : Option LlmUsage) (w : World E)
      → EndsAt
          (λ code. code ≡ 0)
          (publish rig usage tools repo base true draft
            (healed workspace heal_branch final subjects llm)
            w)
  unfolding publish
  publish-zero tools workspace heal_branch final subjects llm w =
      resume-EndsAt _ _ _ λ _ w1. resume-EndsAt _ _ _ λ _ w2. ends_returned _ _ w2 refl

  publish_unasked :
      (tools tools' : GitHubTools E) (open_pr : Bool) (healing : Healing) (w w' : World E)
      (code : ℕ)
      → publish rig usage tools repo base open_pr draft healing w ≡ (returned code, w')
      → (code ≢ 0) ⊎ (open_pr ≡ false)
      → publish rig usage tools' repo base open_pr draft healing w ≡ (returned code, w')
  unfolding publish
  publish_unasked tools tools' open_pr (ended n) w w' code ran quiet = ran
  publish_unasked tools tools' false (healed a b final subjects llm) w w' code ran quiet = ran
  publish_unasked tools tools' true (healed a b final subjects llm) w w' code ran (inl failed) =
      absurd (failed (EndsAt-elim _ (publish-zero tools a b final subjects llm w) ran))
  publish_unasked tools tools' true (healed a b final subjects llm) w w' code ran (inr unasked) =
      absurd (cc unasked)

  module _ (open_pr auto : Bool) (test_node : Option Text) (tools tools' : GitHubTools E)
      (w w' : World E) (code : ℕ) where
    -- A run of `heal_and_pr` that returns a code other than 0, or that was told not to open a pull request,
    -- asks nothing of GitHub: with any other way to push and to post it returns the same code and leaves the
    -- same world.
    pub heal_and_pr_unpublished :
        heal_and_pr rig usage tools repo base open_pr draft test_node auto w ≡ (returned code, w')
        → (code ≢ 0) ⊎ (open_pr ≡ false)
        → heal_and_pr rig usage tools' repo base open_pr draft test_node auto w
          ≡ (returned code, w')
    unfolding heal_and_pr resume
    heal_and_pr_unpublished ran quiet =
        let (healing, w1, first, rest) =
          resume-eq-returned (heal_repo rig usage repo base auto test_node w)
            (publish rig usage tools repo base open_pr draft) ran in
        rw first (publish_unasked tools tools' open_pr healing w1 w' code rest quiet)
