-- ===== src/Scripts/Swebench/Predictions.antt =====
-- What `heal_one` does with the predictions, and the rows of a run.
use self_healing_system_tfg.Base.{◌≡◌, inl, inr, Bool, true, false, List, Bool-cases, if◌then◌else◌}
use self_healing_system_tfg.Python.Text.{Text}
use self_healing_system_tfg.Python.Effects.{Outcome, returned, raised, World, Py, resume}
use self_healing_system_tfg.Python.Effects.Ends.{EndsAt, EndsAt-elim, ends_returned, resume-EndsAt}
use self_healing_system_tfg.Domain.State.{HealingState}
use self_healing_system_tfg.Config.{Settings}
use self_healing_system_tfg.Ports.{Dependencies}
use self_healing_system_tfg.Scripts.Select.{Instance, Literals}
use self_healing_system_tfg.Scripts.Session.{Rig}
use self_healing_system_tfg.Scripts.Swebench.Run.{
  HealRow, is_failed, record_result, heal_reproduced, heal_one,
}

-- A second run does what the first does, if the first returns a row that is not resolved.
SameIfUnresolved : {E : Type 0} → Outcome HealRow × World E → Outcome HealRow × World E → Type 0
SameIfUnresolved {E} o o' =
    (row : HealRow) (w : World E)
    → o ≡ (returned row, w)
    → row.resolved ≡ false
    → o' ≡ (returned row, w)

module _ {E : Type 0} where
  same_refl : (o : Outcome HealRow × World E) → SameIfUnresolved o o
  unfolding SameIfUnresolved
  same_refl o row w ran failed = ran

  same_resume :
      {A : Type 0} (o : Outcome A × World E) (rest rest' : A → Py E HealRow)
      → ((a : A) (w : World E) → SameIfUnresolved (rest a w) (rest' a w))
      → SameIfUnresolved (resume o rest) (resume o rest')
  unfolding SameIfUnresolved resume
  same_resume (returned a, w) rest rest' h = h a w
  same_resume (raised e, w) rest rest' h = λ row w1 ran failed. cc

  same_choice :
      (b : Bool) (x x' y : Py E HealRow) (w : World E)
      → SameIfUnresolved (x w) (x' w)
      → SameIfUnresolved ((if b then x else y) w) ((if b then x' else y) w)
  same_choice true x x' y w h = h
  same_choice false x x' y w h = same_refl (y w)

  same_if_resolved :
      (o o' : Outcome HealRow × World E)
      → EndsAt (λ row. row.resolved ≡ true) o
      → SameIfUnresolved o o'
  unfolding SameIfUnresolved
  same_if_resolved o o' h row w ran failed =
      let healed : row.resolved ≡ true = EndsAt-elim _ h ran in absurd (cc (healed, failed))

module _ {E : Type 0} (rig : Rig E) (literals : Literals) (prediction_line : Text → Text → Text)
    (i : Instance) (path path' : Text) where
  result_resolved :
      (test_paths : List Text) (final : HealingState) (w : World E)
      → final.is_resolved ≡ true
      → EndsAt
          (λ row. row.resolved ≡ true)
          (record_result rig literals prediction_line i path test_paths final w)
  unfolding record_result
  result_resolved test_paths final w solved =
      resume-EndsAt _ _ _ λ _ w1. resume-EndsAt _ _ _ λ _ w2. ends_returned _ _ w2 solved

  result_same :
      (test_paths : List Text) (final : HealingState) (w : World E)
      → SameIfUnresolved
          (record_result rig literals prediction_line i path test_paths final w)
          (record_result rig literals prediction_line i path' test_paths final w)
  unfolding record_result
  result_same test_paths final w = elim (Bool-cases final.is_resolved) [
    | inl solved ↦ same_if_resolved _ _ (result_resolved test_paths final w solved)
    | inr given_up ↦ rw given_up (same_refl _)
  ]

  module _ (settings : Settings) (image : Text) where
    reproduced_same :
        (deps : Dependencies E) (workspace : Text) (test_paths : List Text) (logs_tail : Text)
        (w : World E)
        → SameIfUnresolved
            (heal_reproduced rig literals prediction_line deps i settings image path workspace
              test_paths logs_tail w)
            (heal_reproduced rig literals prediction_line deps i settings image path' workspace
              test_paths logs_tail w)
    unfolding heal_reproduced
    reproduced_same deps workspace test_paths logs_tail w =
        same_resume _ _ _ λ final w1. result_same test_paths final w1

    one_same :
        (w : World E)
        → SameIfUnresolved
            (heal_one rig literals prediction_line i settings image path w)
            (heal_one rig literals prediction_line i settings image path' w)
    unfolding heal_one
    one_same w = same_resume _ _ _ λ _ w1. same_resume _ _ _ λ test_paths w2.
        same_resume _ _ _ λ workspace w3. same_resume _ _ _ λ deps w4.
          same_resume _ _ _ λ failure w5.
            same_choice (is_failed failure.verdict) _ _ _ w5
              (reproduced_same deps workspace test_paths failure.logs_tail w5)

    -- A run of `heal_one` that does not resolve its instance records no prediction: with any other file
    -- for the predictions it returns the same row and leaves the same world.
    pub heal_one_unresolved :
        (w w' : World E) (row : HealRow)
        → heal_one rig literals prediction_line i settings image path w ≡ (returned row, w')
        → row.resolved ≡ false
        → heal_one rig literals prediction_line i settings image path' w ≡ (returned row, w')
    unfolding SameIfUnresolved
    heal_one_unresolved w w' row ran failed = one_same w row w' ran failed
