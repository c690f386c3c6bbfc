-- ===== src/Tests/Slice.antt =====
-- An instance of SWE-bench whose tests pass in the sandbox of Tests/Services from the start.
use self_healing_system_tfg.Base.{◌≡◌, refl, true, false, [], ◌++◌, some}
use self_healing_system_tfg.Python.Text.{Text, text, text_eq}
use self_healing_system_tfg.Python.Effects.{returned, resume, handled, finished}
use self_healing_system_tfg.Domain.Enums.{passed}
use self_healing_system_tfg.Adapters.Demo.{default_settings}
use self_healing_system_tfg.Observability.{null_telemetry}
use self_healing_system_tfg.Scripts.Machine.{git}
use self_healing_system_tfg.Scripts.Swebench.{prepare_instance, git_apply, wipe, parse_test_paths}
use self_healing_system_tfg.Scripts.Swebench.Run.{SanityRow, compared, heal_one, skipped_row}
use self_healing_system_tfg.Scripts.Swebench.Predictions.{heal_one_unresolved}
use self_healing_system_tfg.Tests.Services.{box_world}
use self_healing_system_tfg.Tests.Scripts.{box_rig}
use self_healing_system_tfg.Tests.Healing.{no_literals, long_one}

abbrev checked_row : SanityRow
checked_row =
    compared false false true passed passed (parse_test_paths long_one.test_patch) (some [])

abbrev line_of : Text → Text → Text
line_of id patch = id ++ patch

skips :
    heal_one box_rig no_literals line_of long_one default_settings
      (text "image")
      (text "out")
      box_world
    ≡ (returned (skipped_row (text "tests already pass")), box_world)
unfolding heal_one wipe prepare_instance git git_apply resume handled finished null_telemetry text
    text_eq
skips = refl

heal_one_unresolved_example :
    heal_one box_rig no_literals line_of long_one default_settings
      (text "image")
      (text "other")
      box_world
    ≡ (returned (skipped_row (text "tests already pass")), box_world)
unfolding skipped_row
heal_one_unresolved_example =
    heal_one_unresolved box_rig no_literals line_of long_one (text "out") (text "other")
      default_settings (text "image") box_world box_world (skipped_row (text "tests already pass"))
      skips refl
