-- ===== src/Tests/Healing.antt =====
-- The scripts that heal a repository and that run SWE-bench, on a machine on which every command succeeds;
-- and a selection from two instances.
use self_healing_system_tfg.Base.{
  ℕ, ◌≡◌, ◌≢◌, ◌+◌, ◌/◌, refl, inr, true, false, List, [], ◌∷◌, ◌++◌, Option, none, some, length,
  min, ltb, keep, arith, if◌then◌else◌,
}
use mathlib.Core.List.{Perm}
use self_healing_system_tfg.Python.Text.{text, text_eq}
use self_healing_system_tfg.Python.Effects.{
  returned, World, Py, pure, throw, other, resume, handled,
}
use self_healing_system_tfg.Python.Effects.Raises.{raises_returned}
use self_healing_system_tfg.Python.Process.{exited}
use self_healing_system_tfg.Python.Files.{exists, find_file, put_file, mkdir_parent, append_text}
use self_healing_system_tfg.Orchestrator.Nodes.Session.{session_path}
use self_healing_system_tfg.Config.{load_settings, is_admitted, is_yes}
use self_healing_system_tfg.Adapters.GitHub.{GitHubTools}
use self_healing_system_tfg.Adapters.GitHub.Body.{LlmUsage}
use self_healing_system_tfg.Adapters.Demo.{test_platform, default_settings, demo_trigger}
use self_healing_system_tfg.Adapters.Real.{real_dependencies}
use self_healing_system_tfg.Observability.Ports.{watched_invoke}
use self_healing_system_tfg.Scripts.Select.{
  listed, Instance, Literals, malformed, Floats, select, is_cheap,
}
use self_healing_system_tfg.Scripts.Select.Cheapest.{IsOrder, IsByCost, AllCheaper, select_cheapest}
use self_healing_system_tfg.Scripts.Machine.{git, clone_repo, token_url}
use self_healing_system_tfg.Scripts.Session.{Rig, new_state}
use self_healing_system_tfg.Scripts.Heal.{
  ended, heal_clone, heal_detected, heal_repo, heal_and_pr, publish,
}
use self_healing_system_tfg.Scripts.Detect.{find_failure, detect_any_failure, is_green, probe_crash}
use self_healing_system_tfg.Scripts.Heal.Unpublished.{heal_and_pr_unpublished}
use self_healing_system_tfg.Scripts.Heal.Settled.{IsSettled, heal_repo-IsSettled}
use self_healing_system_tfg.Scripts.Swebench.Run.{recursion_limit}
use self_healing_system_tfg.Scripts.Swebench.Rows.{
  AreReportsOf, run_instances_returns, recursion_limit_suffices,
}
use self_healing_system_tfg.Scripts.Swebench.Run.{InstanceRow}
use self_healing_system_tfg.Scripts.Swebench.Loop.{run_instances}
use self_healing_system_tfg.Tests.Services.{Box, box_world, box_outside}
use self_healing_system_tfg.Tests.Scripts.{box_machine, box_rig}

-- Numbers for the floats.
abbrev whole : Floats
whole = record { Float = ℕ; of_nat = λ n. n; plus = λ a b. a + b; over = λ a b. a / b; less = ltb }

whole-IsOrder : IsOrder whole
whole-IsOrder = record {
  asym = λ a b h. grind (arith, h);
  trans = λ a b c h k. grind (arith, h, k);
}

abbrev pub no_literals : Literals
no_literals = record { json_loads = λ _. malformed; literal_eval = λ _. malformed }

abbrev pub long_one : Instance
long_one = record {
  instance_id = text "one";
  repo = text "pallets/flask";
  base_commit = text "abc";
  patch = text "diff --git a/x b/x\n+1\n+2";
  test_patch = text "diff --git a/t b/t\n";
  problem_statement = [];
  fail_to_pass = listed (text "t.py::t" ∷ []);
  pass_to_pass = listed [];
}

abbrev short_one : Instance
short_one = record long_one { instance_id = text "two"; patch = text "diff --git a/x b/x\n" }

abbrev two : List Instance
two = long_one ∷ short_one ∷ []

select_cheapest_example :
    (rest : List Instance) × Perm
      (select whole no_literals 1 1 40 two ++ rest)
      (keep (is_cheap whole no_literals 1 40) two)
    × IsByCost whole (select whole no_literals 1 1 40 two)
    × AllCheaper whole (select whole no_literals 1 1 40 two) rest
    × (length (select whole no_literals 1 1 40 two)
        ≡ min 1 (length (select whole no_literals 1 1 40 two ++ rest)))
select_cheapest_example = select_cheapest whole whole-IsOrder no_literals 1 1 40 two

run_instances_returns_example :
    (rows : List InstanceRow) × (w' : World Box) × (run_instances box_rig no_literals
        (λ i p. i ++ p)
        (λ i. i)
        default_settings
        true
        (text "out")
        two
        box_world
      ≡ (returned rows, w'))
    × AreReportsOf true two rows
run_instances_returns_example =
    run_instances_returns box_rig no_literals (λ i p. i ++ p) (λ i. i) default_settings (text "out")
      true (λ w. raises_returned _ _ w) two box_world

recursion_limit_suffices_example :
    (watched_invoke box_rig.telemetry test_platform
      (real_dependencies test_platform box_outside default_settings (text "/w"))
      recursion_limit
      (new_state demo_trigger (text "/w") [] [] (some (text "image")))
      box_world).0
    ≢ returned none
unfolding real_dependencies
recursion_limit_suffices_example =
    recursion_limit_suffices box_rig
      (real_dependencies test_platform box_outside default_settings (text "/w")) demo_trigger
      (text "/w") [] [] (some (text "image")) box_world (omega arith)

-- A rig with a token, and a GitHub that takes no push.
abbrev github_rig : Rig Box
github_rig = record box_rig {
  machine = record box_machine {
    getenv = λ name. if text_eq name (text "GITHUB_TOKEN") then some (text "ghp") else none;
  };
}

abbrev no_usage : Py Box (Option LlmUsage)
no_usage = pure none

abbrev closed_github : GitHubTools Box
closed_github = record {
  push = λ _. throw (other (text "offline"));
  http_post = λ _ _ _. throw (other (text "offline"));
  decode_error = λ b. b;
}

abbrev open_github : GitHubTools Box
open_github = record closed_github {
  push = λ _. pure (record { returncode = exited 0; stdout = []; stderr = [] });
}

abbrev green_end : World Box
green_end = (heal_repo github_rig no_usage (text "o/r") (text "main") true none box_world).1

-- The token is there, the suite is green and there is no main.py.
finds_nothing :
    heal_repo github_rig no_usage (text "o/r") (text "main") true none box_world
    ≡ (returned (ended 0), green_end)
unfolding heal_repo heal_clone load_settings is_admitted is_yes text text_eq resume handled
    clone_repo git find_failure detect_any_failure is_green probe_crash exists find_file
    heal_detected session_path mkdir_parent append_text put_file token_url
finds_nothing = refl

heal_repo-IsSettled_example : IsSettled (ended 0)
heal_repo-IsSettled_example =
    heal_repo-IsSettled github_rig no_usage (text "o/r") (text "main") true none box_world green_end
      (ended 0) finds_nothing

heals_nothing :
    heal_and_pr github_rig no_usage closed_github
      (text "o/r")
      (text "main")
      false
      true
      none
      true
      box_world
    ≡ (returned 0, green_end)
unfolding heal_and_pr publish resume
heals_nothing = rw finds_nothing refl

heal_and_pr_unpublished_example :
    heal_and_pr github_rig no_usage open_github
      (text "o/r")
      (text "main")
      false
      true
      none
      true
      box_world
    ≡ (returned 0, green_end)
heal_and_pr_unpublished_example =
    heal_and_pr_unpublished github_rig no_usage (text "o/r") (text "main") true false true none
      closed_github open_github box_world green_end 0 heals_nothing (inr refl)
