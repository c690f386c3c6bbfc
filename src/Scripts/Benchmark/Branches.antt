-- ===== src/Scripts/Benchmark/Branches.antt =====
-- The branches of a benchmark.
use self_healing_system_tfg.Base.{
  ◌≡◌, refl, Bool, true, false, not, ◌&&◌, List, [], ◌∷◌, Bool-cases, inl, inr,
}
use self_healing_system_tfg.Python.Text.{Text, text_eq, splitlines}
use self_healing_system_tfg.Python.Effects.{World, returned}
use self_healing_system_tfg.Python.Effects.Ends.{EndsAt-elim, ends_returned, resume-EndsAt}
use self_healing_system_tfg.Orchestrator.Regression.{mem_text, text_lt, add_sorted}
use self_healing_system_tfg.Orchestrator.Regression.Order.{IsSorted, add_sorted-IsSorted}
use self_healing_system_tfg.Scripts.Machine.{Machine}
use self_healing_system_tfg.Scripts.Benchmark.{
  skip_branches, is_scenario, branch_of, branches_among, list_remote_branches,
}

-- Each name has one of the two prefixes, and is none of the branches that are skipped.
abbrev pub AllScenarios : List Text → Type 0
AllScenarios [] = Unit
AllScenarios (b ∷ bs) =
    (is_scenario b ≡ true) × (mem_text b skip_branches ≡ false) × AllScenarios bs

pub record IsBranchList (bs : List Text) : Type 0 where
  pub sorted : IsSorted bs
  pub scenarios : AllScenarios bs

add-AllScenarios :
    (b : Text) (bs : List Text)
    → is_scenario b ≡ true
    → mem_text b skip_branches ≡ false
    → AllScenarios bs
    → AllScenarios (add_sorted b bs)
unfolding add_sorted
add-AllScenarios b [] h k a = (h, k, tt)
add-AllScenarios b (c ∷ bs) h k a = elim (Bool-cases (text_lt b c)) [
  | inl before ↦ rw before (h, k, a)
  | inr after ↦ elim (Bool-cases (text_eq b c)) [
    | inl same ↦ rw (after, same) a
    | inr other ↦ rw (after, other) (a.0, a.1, add-AllScenarios b bs h k a.2)
  ]
]

both_true :
    (skipped scenario : Bool)
    → not skipped && scenario ≡ true
    → (scenario ≡ true) × (skipped ≡ false)
both_true true scenario h = absurd (cc h)
both_true false true h = (refl, refl)
both_true false false h = absurd (cc h)

among-IsBranchList : (lines : List Text) → IsBranchList (branches_among lines)
unfolding branches_among
among-IsBranchList [] = record { sorted = tt; scenarios = tt }
among-IsBranchList (line ∷ lines) =
    let name = branch_of line in
    let rest = among-IsBranchList lines in
    elim (Bool-cases (not (mem_text name skip_branches) && is_scenario name)) [
      | inl chosen ↦
          let tests = both_true (mem_text name skip_branches) (is_scenario name) chosen in
          rw chosen record {
            sorted = add_sorted-IsSorted name _ rest.sorted;
            scenarios = add-AllScenarios name _ tests.0 tests.1 rest.scenarios;
          }
      | inr left ↦ rw left rest
    ]

-- The branches that are listed are in order, each once, each has one of the prefixes `bugA/` and
-- `bugB/`, and none is a branch that is skipped.
pub list_remote_branches-IsBranchList :
    {E : Type 0} (m : Machine E) (repo_dir : Text) (bs : List Text) (w w' : World E)
    → list_remote_branches m repo_dir w ≡ (returned bs, w')
    → IsBranchList bs
unfolding list_remote_branches
list_remote_branches-IsBranchList m repo_dir bs w w' ran =
    EndsAt-elim IsBranchList
      (resume-EndsAt _ _ _ λ raw w1. ends_returned _ _ w1 (among-IsBranchList (splitlines raw))) ran
