-- ===== src/Scripts/Heal/Settled.antt =====
-- What scripts/heal_and_pr.py has when its session has ended.
use self_healing_system_tfg.Base.{
  ◌≡◌, refl, inl, inr, Bool, true, Option, none, some, ◌++◌, take, ◌≤◌, Bool-cases, arith,
}
use self_healing_system_tfg.Python.Text.{Text, text, truthy}
use self_healing_system_tfg.Python.Effects.{returned, World, Py, pure}
use self_healing_system_tfg.Python.Effects.Ends.{
  EndsAt, EndsAt-elim, ends_returned, resume-EndsAt, choice-EndsAt,
}
use self_healing_system_tfg.Config.{Settings}
use self_healing_system_tfg.Adapters.GitHub.Body.{LlmUsage}
use self_healing_system_tfg.Scripts.Session.{Rig}
use self_healing_system_tfg.Scripts.Detect.{Detected}
use self_healing_system_tfg.Scripts.Heal.{
  Healing, ended, healed, token_of, heal_clone, heal_repo, heal_detected,
}

-- An exit code of at most 2, or a session that was resolved.
abbrev pub IsSettled : Healing → Type 0
IsSettled (ended code) = code ≤ 2
IsSettled (healed workspace heal_branch final subjects llm) = final.is_resolved ≡ true

module _ {E : Type 0} (rig : Rig E) (usage : Py E (Option LlmUsage)) where
  detected-EndsAt :
      (settings : Settings) (repo_dir workspace base heal_branch : Text)
      (detected : Option Detected) (w : World E)
      → EndsAt IsSettled
          (heal_detected rig usage settings repo_dir workspace base heal_branch detected w)
  unfolding heal_detected
  detected-EndsAt settings repo_dir workspace base heal_branch none w =
      ends_returned _ _ w (omega arith)
  detected-EndsAt settings repo_dir workspace base heal_branch (some (trigger, cmd)) w =
      resume-EndsAt _ _ _ λ _ w1. resume-EndsAt _ _ _ λ deps w2. resume-EndsAt _ _ _ λ final w3.
        elim (Bool-cases final.is_resolved) [
          | inl solved ↦ rw solved (
              resume-EndsAt _ _ _
                λ subjects w4. resume-EndsAt _ _ _ λ llm w5. ends_returned _ _ w5 refl)
          | inr given_up ↦ rw given_up (ends_returned _ _ w3 (omega arith))
        ]

  module _ (repo base : Text) (auto : Bool) (test_node : Option Text) where
    clone-EndsAt :
        (settings : Settings) (w : World E)
        → EndsAt IsSettled (heal_clone rig usage settings repo base auto test_node w)
    unfolding heal_clone
    clone-EndsAt settings w = resume-EndsAt _ _ _ λ _ w2. resume-EndsAt _ _ _ λ _ w3.
        resume-EndsAt _ _ _ λ _ w4. resume-EndsAt _ _ _ λ _ w5. resume-EndsAt _ _ _ λ _ w6.
          resume-EndsAt _ _ _ λ hex w7. resume-EndsAt _ _ _ λ _ w8.
            resume-EndsAt _ _ _ λ workspace w9. resume-EndsAt _ _ _ λ detected w10.
              detected-EndsAt _ _ workspace base (text "selfheal/selfheal-" ++ take 8 hex) detected
                w10

    repo-EndsAt : (w : World E) → EndsAt IsSettled (heal_repo rig usage repo base auto test_node w)
    unfolding heal_repo
    repo-EndsAt w = resume-EndsAt _ _ _ λ settings w1.
        choice-EndsAt IsSettled (truthy (token_of rig usage))
          (heal_clone rig usage settings repo base auto test_node) (pure (ended 1)) w1
          (clone-EndsAt settings w1) (ends_returned _ (ended 1) w1 (omega arith))

    -- Before `heal_and_pr` looks at `open_pr` it has an exit code of at most 2 to return or a session that
    -- was resolved: a pull request is never about a session that gave up.
    pub heal_repo-IsSettled :
        (w w' : World E) (healing : Healing)
        → heal_repo rig usage repo base auto test_node w ≡ (returned healing, w')
        → IsSettled healing
    heal_repo-IsSettled w w' healing ran = EndsAt-elim _ (repo-EndsAt w) ran
