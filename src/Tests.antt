-- ===== src/Tests.antt =====
-- Runs of the program with the mock collaborators of src/main.py, and the theorems at those runs.
mod Services
mod Forge
mod Watching
mod Scripts
mod Healing
mod Slice
use self_healing_system_tfg.Base.{
  ◌≡◌, ◌≢◌, ◌≤◌, refl, true, false, not, ◌&&◌, [], ◌∷◌, Option, none, some, arith, any, take, map,
  ◌++◌, ◌↔◌, length,
}
use self_healing_system_tfg.Python.Text.{Text, text, has_char}
use self_healing_system_tfg.Ports.{Dependencies}
use self_healing_system_tfg.Orchestrator.Regression.{select_related_tests}
use self_healing_system_tfg.Python.Effects.{Outcome, returned, raised, World}
use self_healing_system_tfg.Domain.Enums.{passed, failed}
use self_healing_system_tfg.Domain.Signature.Samples.{ascii}
use self_healing_system_tfg.Domain.Signature.{crash, ErrorSignature, matches, raw_key}
use self_healing_system_tfg.Domain.Signature.Fingerprint.{IsSameSpot, matches-IsSameSpot}
use self_healing_system_tfg.Domain.Models.{RegressionTest}
use self_healing_system_tfg.Domain.State.{HealingState}
use self_healing_system_tfg.Orchestrator.Routers.{went_green}
use self_healing_system_tfg.Orchestrator.Nodes.Session.{session_path}
use self_healing_system_tfg.Orchestrator.Nodes.Immunize.{gate_and_keep}
use self_healing_system_tfg.Orchestrator.Nodes.Immunize.Undo.{
  LeavesFiles, IsSameFiles, gate_and_keep_undone,
}
use self_healing_system_tfg.Orchestrator.Nodes.Commit.{budget_left, committed}
use self_healing_system_tfg.Orchestrator.Graph.{
  Node, bootstrap, fix, validate, immunize, report_commit, run_node, invoke,
}
use self_healing_system_tfg.Orchestrator.Graph.Bound.{invoke_completes}
use self_healing_system_tfg.Orchestrator.Graph.Gate.{IsEarned, commit_visit-IsEarned}
use self_healing_system_tfg.Orchestrator.Graph.Ending.{HasEnded}
use self_healing_system_tfg.Orchestrator.Graph.Outcome.{invoke_ends}
use self_healing_system_tfg.Orchestrator.Graph.Visits.{
  Visits, begun, went_on, IsClean, IsProgress, fix_visit-IsClean,
}
use self_healing_system_tfg.Adapters.InMemory.{Scripted, verdict_result}
use self_healing_system_tfg.Adapters.InMemory.Replay.{
  again, answers, answers_script, run_leaves_files,
}
use self_healing_system_tfg.Adapters.Reports.{is_safe, sanitise_filename}
use self_healing_system_tfg.Adapters.Reports.Names.{sanitise_filename_safe}
use self_healing_system_tfg.Adapters.Demo.{
  test_platform, mock_dependencies, demo_trigger, initial_state, demo_world, mock_program,
}

-- The demo of src/main.py: two attempts fail and the third heals the crash.
abbrev demo_start : HealingState
demo_start = initial_state demo_trigger (text "/w")

abbrev demo_run : Outcome (Option HealingState) × World Scripted
demo_run = invoke test_platform mock_dependencies 62 demo_start demo_world

abbrev ended_at : Outcome (Option HealingState) × World Scripted → HealingState
ended_at (returned (some s), w) = s
ended_at _ = demo_start

demo_ends : demo_run ≡ (returned (some (ended_at demo_run)), demo_run.1)
unfolding mock_program
demo_ends = refl

invoke_completes_example :
    (invoke test_platform mock_dependencies 62 demo_start demo_world).0 ≢ returned none
invoke_completes_example =
    invoke_completes test_platform mock_dependencies 62 demo_start demo_world (omega arith)

invoke_ends_example : HasEnded (ended_at demo_run)
invoke_ends_example =
    invoke_ends test_platform mock_dependencies 62 demo_start (ended_at demo_run) demo_world
      demo_run.1 refl refl demo_ends

-- A session in which the first patch passes.
abbrev easy_world : World Scripted
easy_world = record demo_world { env = record demo_world.env { queue = []; fail_on_attempts = [] } }

abbrev state_or : HealingState → Outcome HealingState × World Scripted → HealingState
state_or s (returned t, w) = t
state_or s (raised e, w) = s

abbrev node_state : Node → HealingState → World Scripted → HealingState
node_state n s w = state_or s (run_node test_platform mock_dependencies n s w)

abbrev node_world : Node → HealingState → World Scripted → World Scripted
node_world n s w = (run_node test_platform mock_dependencies n s w).1

abbrev booted : HealingState
booted = node_state bootstrap demo_start easy_world

abbrev booted_world : World Scripted
booted_world = node_world bootstrap demo_start easy_world

abbrev tried : HealingState
tried = node_state fix booted booted_world

abbrev tried_world : World Scripted
tried_world = node_world fix booted booted_world

abbrev checked : HealingState
checked = node_state validate tried tried_world

abbrev checked_world : World Scripted
checked_world = node_world validate tried tried_world

abbrev covered : HealingState
covered = node_state immunize checked checked_world

abbrev covered_world : World Scripted
covered_world = node_world immunize checked checked_world

abbrev EasyVisits : Node → HealingState → World Scripted → Type 0
EasyVisits = Visits test_platform mock_dependencies demo_start easy_world

easy_fix : EasyVisits fix booted booted_world
unfolding mock_program
easy_fix = went_on bootstrap fix demo_start booted easy_world booted_world begun refl refl

easy_validate : EasyVisits validate tried tried_world
unfolding mock_program
easy_validate = went_on fix validate booted tried booted_world tried_world easy_fix refl refl

easy_immunize : EasyVisits immunize checked checked_world
unfolding mock_program
easy_immunize =
    went_on validate immunize tried checked tried_world checked_world easy_validate refl refl

easy_commit : EasyVisits report_commit covered covered_world
unfolding mock_program
easy_commit =
    went_on immunize report_commit checked covered checked_world covered_world easy_immunize refl
      refl

start-IsClean : IsClean demo_start
start-IsClean = record {
  no_patch = refl;
  no_result = refl;
  no_signature = refl;
  no_regression = refl;
}

fix_visit-IsClean_example : IsClean booted
fix_visit-IsClean_example =
    fix_visit-IsClean test_platform mock_dependencies demo_start booted easy_world booted_world
      start-IsClean easy_fix

commit_visit-IsEarned_example :
    IsProgress test_platform.sha256_hex covered
    × IsEarned test_platform mock_dependencies demo_start easy_world covered
    × ((sha : Text)
        → (committed test_platform covered sha).should_continue
          ≡ not (went_green covered.current_sandbox_result) && budget_left test_platform covered)
commit_visit-IsEarned_example =
    commit_visit-IsEarned test_platform mock_dependencies demo_start covered easy_world
      covered_world start-IsClean easy_commit

sanitise_filename_safe_example :
    (length (sanitise_filename ascii.alnum (text "../a b")) ≤ 120)
    × (any (λ c. not (is_safe ascii.alnum c)) (sanitise_filename ascii.alnum (text "../a b"))
        ≡ false)
sanitise_filename_safe_example = sanitise_filename_safe ascii.alnum (text "../a b")

-- Signatures of one spot with different messages.
abbrev first_signature : ErrorSignature
first_signature = record {
  kind = crash;
  exc_type = text "TypeError";
  location = text "app.py:run";
  normalized_msg = text "bad";
}

abbrev second_signature : ErrorSignature
second_signature = record first_signature { normalized_msg = text "worse" }

matches-IsSameSpot_example :
    (matches (λ s. s) first_signature (some second_signature) ≡ true)
    ↔ IsSameSpot first_signature second_signature
unfolding text has_char raw_key
matches-IsSameSpot_example =
    matches-IsSameSpot (λ s. s) first_signature second_signature refl refl (λ _. refl)

-- A gate that fails, on a session file that has a content.
abbrev guarded : HealingState
guarded = record demo_start { regression_test_path = text "tests/test_s.py" }

abbrev guarded_world : World Scripted
guarded_world = record demo_world {
  files = (session_path guarded.workspace_path guarded.regression_test_path, text "# header") ∷ [];
}

abbrev refused : Outcome (Option RegressionTest) × World Scripted
refused =
    gate_and_keep test_platform mock_dependencies guarded (text "def test_x(): pass") true
      guarded_world

gate_refuses : refused ≡ (returned none, refused.1)
unfolding mock_program gate_and_keep
gate_refuses = refl

mock-LeavesFiles : LeavesFiles mock_dependencies
mock-LeavesFiles workspace image command w =
    run_leaves_files test_platform workspace image command w

gate_and_keep_undone_example : IsSameFiles guarded_world.files refused.1.files
unfolding text
gate_and_keep_undone_example =
    gate_and_keep_undone test_platform mock_dependencies guarded guarded_world refl refl (λ _. refl)
      mock-LeavesFiles (text "def test_x(): pass") refused.1 gate_refuses

answers_script_example :
    answers test_platform (text "/w") (text "image") [] 3 demo_world
    ≡ take 3 (
        []
        ++ map (verdict_result test_platform) (failed ∷ passed ∷ [])
        ++ again 3 (verdict_result test_platform passed))
answers_script_example = answers_script test_platform (text "/w") (text "image") [] 3 demo_world

-- The mock collaborators, with a reporter that cannot fail.
abbrev safe_dependencies : Dependencies Scripted
safe_dependencies = record mock_dependencies {
  write_post_mortem = λ _ _ _ _ w. (returned (text "report.md"), w);
}

-- Two tests of one changed module.
abbrev tested_world : World Scripted
tested_world = record demo_world {
  files =
      (text "/w/tests/test_app.py", []) ∷ (text "/w/app_test.py", []) ∷ (text "/w/app.py", []) ∷ [];
}

selects :
    select_related_tests test_platform tested_world (text "/w") (text "app.py" ∷ [])
    ≡ text "app_test.py" ∷ text "tests/test_app.py" ∷ []
unfolding select_related_tests text
selects = refl
