-- ===== src/Scripts/Swebench/Rows.antt =====
-- The rows of a run over instances, and the limit of its sessions.
use self_healing_system_tfg.Base.{
  ◌*◌, ◌≤◌, max, ◌≡◌, ◌≢◌, refl, Bool, true, false, List, [], ◌∷◌, Option, none, arith,
}
use self_healing_system_tfg.Python.Text.{Text}
use self_healing_system_tfg.Python.Effects.{World, returned}
use self_healing_system_tfg.Python.Effects.Ends.{
  EndsAt, EndsAt-elim, ends_returned, resume-EndsAt, resume-EndsAt_of, handled-EndsAt,
}
use self_healing_system_tfg.Python.Effects.Raises.{
  RaisesOnly, Never, raises_returned, handled_all-RaisesOnly, resume-RaisesOnly, Never-returns,
}
use self_healing_system_tfg.Domain.Models.{TriggerEvent}
use self_healing_system_tfg.Config.{Settings}
use self_healing_system_tfg.Ports.{Dependencies}
use self_healing_system_tfg.Observability.Ports.{watched_invoke}
use self_healing_system_tfg.Observability.Session.{watched_invoke_completes}
use self_healing_system_tfg.Agents.Swe.Cleanup.{cleanup_all-RaisesOnly}
use self_healing_system_tfg.Scripts.Select.{Instance, Literals}
use self_healing_system_tfg.Scripts.Session.{Rig, new_state}
use self_healing_system_tfg.Scripts.Swebench.Run.{
  Report, checked, healed, errored, InstanceRow, recursion_limit,
}
use self_healing_system_tfg.Scripts.Swebench.Loop.{run_instance, run_instances}

-- A check gives no row of a session, and a session no row of a check.
abbrev pub FitsMode : Bool → Report → Type 0
FitsMode sanity (checked row) = sanity ≡ true
FitsMode sanity (healed row) = sanity ≡ false
FitsMode sanity (errored reason) = Unit

abbrev pub AreReportsOf : Bool → List Instance → List InstanceRow → Type 0
AreReportsOf sanity [] [] = Unit
AreReportsOf sanity [] (row ∷ rows) = ⊥
AreReportsOf sanity (i ∷ is) [] = ⊥
AreReportsOf sanity (i ∷ is) (row ∷ rows) =
    (row.instance_id ≡ i.instance_id) × (FitsMode sanity row.report × AreReportsOf sanity is rows)

module _ {E : Type 0} (rig : Rig E) (literals : Literals) (prediction_line : Text → Text → Text)
    (image_for : Text → Text) (settings : Settings) (predictions_path : Text) where
  instance-EndsAt :
      (sanity : Bool) (i : Instance) (w : World E)
      → EndsAt
          (λ row. (row.instance_id ≡ i.instance_id) × FitsMode sanity row.report)
          (run_instance rig literals prediction_line image_for settings sanity predictions_path i w)
  unfolding run_instance
  instance-EndsAt true i w =
      resume-EndsAt_of (FitsMode true) _ _ _
        (handled-EndsAt _ _ _ (resume-EndsAt _ _ _ λ row w1. ends_returned _ _ w1 refl)
          λ e w2. ends_returned _ _ w2 tt)
        λ report w3 h. resume-EndsAt _ _ _ λ seconds w4. ends_returned _ _ w4 (refl, h)
  instance-EndsAt false i w =
      resume-EndsAt_of (FitsMode false) _ _ _
        (handled-EndsAt _ _ _ (resume-EndsAt _ _ _ λ row w1. ends_returned _ _ w1 refl)
          λ e w2. ends_returned _ _ w2 tt)
        λ report w3 h. resume-EndsAt _ _ _ λ seconds w4. ends_returned _ _ w4 (refl, h)

  module _ (sanity : Bool) where
    instances-EndsAt :
        (is : List Instance) (w : World E)
        → EndsAt (AreReportsOf sanity is) (
            run_instances rig literals prediction_line image_for settings sanity predictions_path is
              w)
    unfolding run_instances
    instances-EndsAt [] w = ends_returned _ _ w tt
    instances-EndsAt (i ∷ is) w =
        resume-EndsAt_of (λ row. (row.instance_id ≡ i.instance_id) × FitsMode sanity row.report) _ _
          _ (instance-EndsAt sanity i w)
          λ row w1 h. resume-EndsAt _ _ _ λ _ w2.
            resume-EndsAt_of (AreReportsOf sanity is) _ _ _ (instances-EndsAt is w2)
              λ rows w3 hs. ends_returned _ _ w3 (h.0, (h.1, hs))

    module _ (clock : (w : World E) → RaisesOnly Never (rig.machine.elapsed w)) where
      instances-RaisesOnly :
          (is : List Instance) (w : World E)
          → RaisesOnly Never (
              run_instances rig literals prediction_line image_for settings sanity predictions_path
                is w)
      unfolding run_instances run_instance
      instances-RaisesOnly [] w = raises_returned _ _ w
      instances-RaisesOnly (i ∷ is) w =
          resume-RaisesOnly _ _ _
            (resume-RaisesOnly _ _ _ (handled_all-RaisesOnly _ _ _ λ e w1. raises_returned _ _ w1)
              λ report w1. resume-RaisesOnly _ _ _ (clock w1) λ seconds w2. raises_returned _ _ w2)
            λ row w3. resume-RaisesOnly _ _ _ (cleanup_all-RaisesOnly rig.outside.swe w3) λ _ w4.
              resume-RaisesOnly _ _ _ (instances-RaisesOnly is w4) λ rows w5. raises_returned _ _ w5

      -- Whatever the checks or the sessions do, a run comes to one row for each instance, in their order:
      -- the row of a check in a run of checks, the row of a session in a run of sessions, or an error; if
      -- reading the clock raises nothing.
      pub run_instances_returns :
          (is : List Instance) (w : World E)
          → (rows : List InstanceRow) × (w' : World E) × (run_instances rig literals prediction_line
                image_for settings sanity predictions_path is w
              ≡ (returned rows, w'))
            × AreReportsOf sanity is rows
      run_instances_returns is w =
          let (rows, w', ran) = Never-returns _ (instances-RaisesOnly is w) in
          (rows, w', ran, EndsAt-elim _ (instances-EndsAt is w) ran)

module _ {E : Type 0} (rig : Rig E) (deps : Dependencies E) where
  -- The limit of a SWE-bench session is enough: with at most 37 attempts in all, as many for each error
  -- as `max_retries` says, the graph never stops at it, whatever the collaborators do.
  pub recursion_limit_suffices :
      (trigger : TriggerEvent) (workspace : Text) (reproduce_cmd regression_cmd : List Text)
      (image : Option Text) (w : World E)
      → max 1 deps.settings.error_cycle_budget * max 1 deps.settings.max_retries ≤ 37
      → (watched_invoke rig.telemetry rig.platform deps recursion_limit
          (new_state trigger workspace reproduce_cmd regression_cmd image)
          w).0
        ≢ returned none
  unfolding new_state
  recursion_limit_suffices trigger workspace reproduce_cmd regression_cmd image w few =
      watched_invoke_completes rig.telemetry rig.platform deps recursion_limit
        (new_state trigger workspace reproduce_cmd regression_cmd image) w (omega (arith, few))
