-- ===== src/Scripts/Swebench/Sanity.antt =====
-- What a row of `sanity_one` says.
use self_healing_system_tfg.Base.{false, ◌≡◌, ◌⊎◌, Bool, true, Option, none, some, ◌↔◌, last_n}
use self_healing_system_tfg.Python.Text.{Text}
use self_healing_system_tfg.Python.Effects.{returned, World, Py}
use self_healing_system_tfg.Domain.Enums.{SandboxVerdict, passed, failed}
use self_healing_system_tfg.Config.{Settings}
use self_healing_system_tfg.Domain.Models.{SandboxResult}
use self_healing_system_tfg.Adapters.Docker.{docker_run_tests}
use self_healing_system_tfg.Scripts.Machine.{Machine}
use self_healing_system_tfg.Scripts.Select.{Instance, Literals, parse_fail_to_pass}
use self_healing_system_tfg.Scripts.Session.{Rig}
use self_healing_system_tfg.Scripts.Swebench.{parse_test_paths, git_apply, pytest_command}
use self_healing_system_tfg.Scripts.Swebench.Run.{SanityRow, unreachable, compared, repo_dir}

-- The instance is usable exactly if its tests failed before the golden patch and passed after it; the
-- last 1500 characters of the second run's output are kept exactly if it is not.
pub record IsComparison (ok fails_before passes_after : Bool) (before after : SandboxVerdict)
    (log : Option Text) (output : Text) : Type 0 where
  pub sound : ok ≡ true → (before ≡ failed) × (after ≡ passed)
  pub complete : before ≡ failed → after ≡ passed → ok ≡ true
  pub first : (fails_before ≡ true) ↔ (before ≡ failed)
  pub second : (passes_after ≡ true) ↔ (after ≡ passed)
  pub ran : (before ≡ passed) ⊎ (before ≡ failed)
  pub explained : ((ok ≡ true) × (log ≡ none)) ⊎ ((ok ≡ false) × (log ≡ some (last_n 1500 output)))

module _ {E : Type 0} (rig : Rig E) (literals : Literals) (i : Instance) (settings : Settings)
    (image : Text) where
  abbrev pub docker_run : Text → Py E SandboxResult
  docker_run workspace =
      docker_run_tests rig.outside.docker rig.platform settings workspace image
        (pytest_command settings.sandbox_python (parse_fail_to_pass literals i.fail_to_pass))

  -- Two runs of the instance's tests in one workspace, with the golden patch applied in between.
  pub record IsTrial (first second : SandboxResult) : Type 0 where
    pub workspace : Text
    pub w1 : World E
    pub w2 : World E
    pub w3 : World E
    pub w4 : World E
    pub ran_first : docker_run workspace w1 ≡ (returned first, w2)
    pub patched : git_apply rig.machine (repo_dir rig literals) i.patch w2 ≡ (returned tt, w3)
    pub ran_second : docker_run workspace w3 ≡ (returned second, w4)

  abbrev pub IsHonestRow : SanityRow → Type 0
  IsHonestRow (unreachable reason paths) = paths ≡ parse_test_paths i.test_patch
  IsHonestRow (compared ok fails_before passes_after before after paths log) =
      (paths ≡ parse_test_paths i.test_patch)
      × ((first : SandboxResult) × (second : SandboxResult) × (before ≡ first.verdict)
          × (after ≡ second.verdict)
          × IsTrial first second
          × IsComparison ok fails_before passes_after before after log second.logs_tail)
