-- ===== src/Tests/Scripts.antt =====
-- The scripts on a machine on which every command succeeds, and on one that refuses each push.
use self_healing_system_tfg.Base.{◌⊎◌, ◌≡◌, ◌≢◌, refl, true, false, List, [], ◌∷◌, none, arith}
use self_healing_system_tfg.Python.Text.{
  Text, text, text_eq, starts_with, strip, splitlines, has_char,
}
use self_healing_system_tfg.Python.Effects.{
  returned, raised, World, Py, pure, other, runtime_error, resume, handled,
}
use self_healing_system_tfg.Python.Effects.Raises.{RaisesOnly, Never, IsOsError, raises_returned}
use self_healing_system_tfg.Python.Process.{exited}
use self_healing_system_tfg.Adapters.GitHub.Secret.{contains}
use self_healing_system_tfg.Adapters.Demo.{test_platform, default_settings, demo_trigger}
use self_healing_system_tfg.Adapters.Real.{real_dependencies}
use self_healing_system_tfg.Observability.{null_telemetry}
use self_healing_system_tfg.Observability.Context.{with_value, with_value_resets}
use self_healing_system_tfg.Observability.Ports.{Telemetry, watched_invoke}
use self_healing_system_tfg.Observability.Session.{watched_invoke_completes}
use self_healing_system_tfg.Config.{Settings, defaults, load_settings, is_admitted, is_yes}
use self_healing_system_tfg.Ports.{Dependencies}
use self_healing_system_tfg.Agents.Swe.Run.{verify_install}
use self_healing_system_tfg.Scripts.Main.{build_dependencies, build_dependencies-RaisesOnly}
use self_healing_system_tfg.Scripts.Machine.{Machine, ShellResult, git}
use self_healing_system_tfg.Scripts.Session.{Rig, new_state}
use self_healing_system_tfg.Scripts.Benchmark.{
  list_remote_branches, branches_among, branch_of, is_scenario, skip_branches,
}
use self_healing_system_tfg.Scripts.Benchmark.Branches.{
  IsBranchList, list_remote_branches-IsBranchList,
}
use self_healing_system_tfg.Scripts.Benchmark.Report.{BranchRow}
use self_healing_system_tfg.Scripts.Benchmark.Run.{run_branches}
use self_healing_system_tfg.Scripts.Benchmark.Push.{push_fix}
use self_healing_system_tfg.Scripts.Benchmark.Rows.{AreRowsOf, run_branches_returns}
use self_healing_system_tfg.Scripts.Benchmark.Leak.{push_fix_leaks}
use self_healing_system_tfg.Tests.Services.{Box, box_world, box_outside, plain_reading}

abbrev pub answered : Text → ShellResult
answered s = record { returncode = exited 0; stdout = s; stderr = [] }

-- Each command answers with two branches.
abbrev pub box_machine : Machine Box
box_machine = record {
  run = λ _. pure (answered (text "origin/main\norigin/bugA/one"));
  python = text "python";
  project_root = text "/p";
  getenv = λ _. none;
  path_exists = λ _. pure false;
  make_dirs = λ _. pure tt;
  chmod_writable = λ _. pure tt;
  rmtree = λ _ _. pure tt;
  resolve_path = λ path. pure path;
  uuid_hex = pure (text "0123456789abcdef");
  time_stamp = pure (text "20260101_000000");
  elapsed = pure (text "1.0");
}

abbrev refused : ShellResult
refused = record { returncode = exited 1; stdout = []; stderr = text "denied" }

abbrev refusing : Machine Box
refusing = record box_machine { run = λ _. pure refused }

abbrev pub box_telemetry : Telemetry Box
box_telemetry = record {
  sink = null_telemetry;
  current_agent = record { get = λ w. w.env; set = λ agent w. record w { env = agent } };
  type_name = λ _. text "RuntimeError";
}

abbrev pub box_rig : Rig Box
box_rig = record {
  machine = box_machine;
  platform = test_platform;
  outside = box_outside;
  telemetry = box_telemetry;
  reading = plain_reading;
  reports_dir = text "reports";
}

lists :
    list_remote_branches box_machine (text "/w") box_world
    ≡ (returned (text "bugA/one" ∷ []), box_world)
unfolding list_remote_branches git branches_among branch_of is_scenario skip_branches splitlines
    strip has_char starts_with text text_eq resume
lists = refl

list_remote_branches-IsBranchList_example : IsBranchList (text "bugA/one" ∷ [])
list_remote_branches-IsBranchList_example =
    list_remote_branches-IsBranchList box_machine (text "/w") (text "bugA/one" ∷ []) box_world
      box_world lists

run_branches_returns_example :
    (rows : List BranchRow) × (w' : World Box) × (run_branches box_rig default_settings
        (text "/w")
        (text "t")
        (text "o/r")
        (text "bugA/one" ∷ [])
        box_world
      ≡ (returned rows, w'))
    × AreRowsOf (text "bugA/one" ∷ []) rows
run_branches_returns_example =
    run_branches_returns box_rig default_settings (text "/w") (text "t") (text "o/r")
      (λ w. raises_returned _ _ w) (text "bugA/one" ∷ []) box_world

push_fix_leaks_example :
    (msg : Text) × (push_fix refusing
        (text "/w")
        (text "bugA/one")
        (text "ghp")
        (text "o/r")
        box_world
      ≡ (raised (runtime_error msg), box_world))
    × (contains (text "ghp") msg ≡ true)
push_fix_leaks_example =
    push_fix_leaks refusing (text "/w") (text "bugA/one") (text "ghp") (text "o/r") refused
      box_world box_world refl refl

-- A block that sets the variable and raises.
abbrev lost : Py Box (Unit {0})
lost w = (raised (other (text "boom")), record w { env = text "left" })

with_value_resets_example :
    ◌≡◌ {A = Text}
      ((with_value box_telemetry.current_agent (text "tester") lost box_world).1.env)
      []
with_value_resets_example =
    with_value_resets box_telemetry.current_agent (record { get-set = λ a w. refl }) (text "tester")
      lost box_world

watched_invoke_completes_example :
    (watched_invoke box_telemetry test_platform
      (real_dependencies test_platform box_outside default_settings (text "/w"))
      62
      (new_state demo_trigger (text "/w") [] [] none)
      box_world).0
    ≢ returned none
unfolding new_state real_dependencies
watched_invoke_completes_example =
    watched_invoke_completes box_telemetry test_platform
      (real_dependencies test_platform box_outside default_settings (text "/w")) 62
      (new_state demo_trigger (text "/w") [] [] none) box_world (omega arith)

loads_defaults :
    load_settings plain_reading (λ _. none) (text "reports") box_world
    ≡ (returned (defaults (text "reports")), box_world)
unfolding load_settings is_admitted is_yes text text_eq resume strip
loads_defaults = refl

finds_agent : RaisesOnly Never (verify_install box_rig.outside.swe box_world)
unfolding verify_install handled
finds_agent = raises_returned _ _ box_world

-- The mode is `mock`; the offline collaborators here are those of the box.
abbrev box_mock : Settings → Dependencies Box
box_mock s = real_dependencies test_platform box_outside s (text "/w")

build_dependencies-RaisesOnly_example :
    RaisesOnly
      (λ e. Never e ⊎ IsOsError e)
      (build_dependencies box_rig box_mock (defaults (text "reports")) (text "/w") box_world)
build_dependencies-RaisesOnly_example =
    build_dependencies-RaisesOnly box_rig box_mock Never (defaults (text "reports")) (text "/w")
      box_world box_world box_world loads_defaults finds_agent λ u. raises_returned _ _ u
