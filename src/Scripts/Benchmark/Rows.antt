-- ===== src/Scripts/Benchmark/Rows.antt =====
-- The rows of a benchmark.
use self_healing_system_tfg.Base.{◌≡◌, refl, ◌⊎◌, inl, inr, true, List, [], ◌∷◌, none, Bool-cases}
use self_healing_system_tfg.Python.Text.{Text}
use self_healing_system_tfg.Python.Effects.{Exn, World, returned}
use self_healing_system_tfg.Python.Effects.Ends.{
  EndsAt, EndsAt-elim, ends_returned, resume-EndsAt, resume-EndsAt_of, handled-EndsAt,
}
use self_healing_system_tfg.Python.Effects.Raises.{
  RaisesOnly, Never, raises_returned, handled_all-RaisesOnly, resume-RaisesOnly, Never-returns,
}
use self_healing_system_tfg.Domain.State.{HealingState}
use self_healing_system_tfg.Config.{Settings}
use self_healing_system_tfg.Agents.Swe.Cleanup.{cleanup_all-RaisesOnly}
use self_healing_system_tfg.Scripts.Session.{Rig}
use self_healing_system_tfg.Scripts.Benchmark.Report.{BranchRow, new_row}
use self_healing_system_tfg.Scripts.Benchmark.Run.{failed_row, finish_row, run_branch, run_branches}

-- A row of the branch, with a pull request only if the branch was resolved.
pub record IsRowOf (branch : Text) (row : BranchRow) : Type 0 where
  pub names : row.branch ≡ branch
  pub pr_if_resolved : (row.pr_url ≡ none) ⊎ (row.resolved ≡ true)

-- One row for each branch, in order.
abbrev pub AreRowsOf : List Text → List BranchRow → Type 0
AreRowsOf [] [] = Unit
AreRowsOf [] (row ∷ rows) = ⊥
AreRowsOf (b ∷ bs) [] = ⊥
AreRowsOf (b ∷ bs) (row ∷ rows) = IsRowOf b row × AreRowsOf bs rows

new-IsRowOf : (branch : Text) → IsRowOf branch (new_row branch)
unfolding new_row
new-IsRowOf branch = record { names = refl; pr_if_resolved = inl refl }

module _ {E : Type 0} (rig : Rig E) where
  failed-EndsAt :
      (branch : Text) (row : BranchRow) (e : Exn) (w : World E)
      → IsRowOf branch row
      → EndsAt (IsRowOf branch) (failed_row rig row e w)
  failed-EndsAt branch row e w h =
      ends_returned _ _ w (record { names = h.names; pr_if_resolved = h.pr_if_resolved })

  finish-EndsAt :
      (repo_dir token repo branch : Text) (final : HealingState) (w : World E)
      → EndsAt (IsRowOf branch) (finish_row rig repo_dir token repo (new_row branch) final w)
  unfolding finish_row new_row
  finish-EndsAt repo_dir token repo branch final w = elim (Bool-cases final.is_resolved) [
    | inl healed ↦ rw healed (
        handled-EndsAt _ _ _
          (resume-EndsAt _ _ _
            λ url w1. ends_returned _ _ w1 (record { names = refl; pr_if_resolved = inr refl }))
          λ e w2.
            failed-EndsAt branch
              (record (new_row branch) { resolved = true; attempts = final.attempt_count }) e w2
              (record { names = refl; pr_if_resolved = inl refl }))
    | inr given_up ↦
        rw given_up (ends_returned _ _ w (record { names = refl; pr_if_resolved = inl refl }))
  ]

  module _ (settings : Settings) (repo_dir token repo : Text) where
    branch-EndsAt :
        (branch : Text) (w : World E)
        → EndsAt (IsRowOf branch) (run_branch rig settings repo_dir token repo branch w)
    unfolding run_branch
    branch-EndsAt branch w =
        resume-EndsAt_of (IsRowOf branch) _ _ _
          (handled-EndsAt _ _ _
            (resume-EndsAt _ _ _ λ final w1. finish-EndsAt repo_dir token repo branch final w1)
            λ e w2. failed-EndsAt branch _ e w2 (new-IsRowOf branch))
          λ row w3 h. resume-EndsAt _ _ _ λ seconds w4.
            ends_returned _ _ w4 (record { names = h.names; pr_if_resolved = h.pr_if_resolved })

    branches-EndsAt :
        (bs : List Text) (w : World E)
        → EndsAt (AreRowsOf bs) (run_branches rig settings repo_dir token repo bs w)
    unfolding run_branches
    branches-EndsAt [] w = ends_returned _ _ w tt
    branches-EndsAt (b ∷ bs) w = resume-EndsAt_of (IsRowOf b) _ _ _ (branch-EndsAt b w) λ row w1 h.
        resume-EndsAt _ _ _ λ _ w2.
          resume-EndsAt_of (AreRowsOf bs) _ _ _ (branches-EndsAt bs w2)
            λ rows w3 hs. ends_returned _ _ w3 (h, hs)

    module _ (clock : (w : World E) → RaisesOnly Never (rig.machine.elapsed w)) where
      branches-RaisesOnly :
          (bs : List Text) (w : World E)
          → RaisesOnly Never (run_branches rig settings repo_dir token repo bs w)
      unfolding run_branches run_branch
      branches-RaisesOnly [] w = raises_returned _ _ w
      branches-RaisesOnly (b ∷ bs) w =
          resume-RaisesOnly _ _ _
            (resume-RaisesOnly _ _ _ (handled_all-RaisesOnly _ _ _ λ e w1. raises_returned _ _ w1)
              λ row w1. resume-RaisesOnly _ _ _ (clock w1) λ seconds w2. raises_returned _ _ w2)
            λ row w3. resume-RaisesOnly _ _ _ (cleanup_all-RaisesOnly rig.outside.swe w3) λ _ w4.
              resume-RaisesOnly _ _ _ (branches-RaisesOnly bs w4) λ rows w5. raises_returned _ _ w5

      -- Whatever a session, `git`, `gh` or `docker` does, a benchmark comes to one row for each branch,
      -- in the order of the branches, and a row names a pull request only if its branch was resolved;
      -- if reading the clock raises nothing.
      pub run_branches_returns :
          (bs : List Text) (w : World E)
          → (rows : List BranchRow) × (w' : World E) × (run_branches rig settings repo_dir token
                repo bs w
              ≡ (returned rows, w'))
            × AreRowsOf bs rows
      run_branches_returns bs w =
          let (rows, w', ran) = Never-returns _ (branches-RaisesOnly bs w) in
          (rows, w', ran, EndsAt-elim _ (branches-EndsAt bs w) ran)
