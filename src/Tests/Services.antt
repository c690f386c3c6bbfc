-- ===== src/Tests/Services.antt =====
-- The adapters on services that are written out: a daemon with at most one container, a language
-- model that says nothing, and an agent that edits a file.
use self_healing_system_tfg.Base.{
  ℕ, ◌≡◌, refl, ◌≤◌, true, false, List, [], ◌∷◌, Option, none, some, length, inl,
}
use self_healing_system_tfg.Python.Text.{Text, text, text_eq, strip}
use self_healing_system_tfg.Python.Effects.{
  other, Outcome, returned, raised, World, pure, throw, resume, handled, finished,
}
use self_healing_system_tfg.Python.Effects.Raises.{raises_returned}
use self_healing_system_tfg.Python.Effects.Leaves.{Leaves, Leaves-at}
use self_healing_system_tfg.Python.Paths.{parse_path}
use self_healing_system_tfg.Python.Regex.{find_all, find_from, search_from, run_regex, literal}
use self_healing_system_tfg.Python.Process.{Process, exited}
use self_healing_system_tfg.Domain.Signature.Samples.{ascii}
use self_healing_system_tfg.Domain.Models.{SandboxResult, FixContext, Patch, new_patch}
use self_healing_system_tfg.Ports.{Dependencies}
use self_healing_system_tfg.Domain.State.{HealingState}
use self_healing_system_tfg.Config.{
  Settings, Reading, natural, defaults, load_settings, is_admitted, is_yes,
}
use self_healing_system_tfg.Config.Bounds.{IsBounded, load_settings-IsBounded}
use self_healing_system_tfg.Orchestrator.Regression.{mem_text}
use self_healing_system_tfg.Agents.Focus.{
  test_path_of, collect_focus_paths, render_focus_block, collect, candidates, trace_file,
  pytest_path, module_not_found,
}
use self_healing_system_tfg.Agents.Focus.Chosen.{IsSelection, collect_focus_paths-IsSelection}
use self_healing_system_tfg.Agents.Llm.{LiteLlm, misshapen}
use self_healing_system_tfg.Agents.Reporter.{
  LlmReporter, llm_compose_commit_message, llm_compose_post_mortem, llm_reporter_returns,
}
use self_healing_system_tfg.Agents.Swe.{
  MiniSweFixer, AgentMessage, build_task, format_trajectory_tail,
}
use self_healing_system_tfg.Agents.Swe.Tail.{format_trajectory_tail-length}
use self_healing_system_tfg.Agents.Swe.Run.{
  SweTools, swe_fix, run_agent, blocking, capture_diff, kill_new_containers,
}
use self_healing_system_tfg.Agents.Swe.Outcomes.{HasDiff, swe_fix-HasDiff}
use self_healing_system_tfg.Agents.Swe.Containers.{SparesOthers, kill_new_containers-Leaves}
use self_healing_system_tfg.Adapters.Docker.{DockerSdk, docker_run_tests}
use self_healing_system_tfg.Adapters.Docker.Verdict.{IsHonest, docker_run_returns}
use self_healing_system_tfg.Adapters.Docker.Cleanup.{
  Starts, TracksContainers, IsCleaned, without, docker_run_cleans_up,
}
use self_healing_system_tfg.Adapters.Git.{GitPython}
use self_healing_system_tfg.Adapters.Real.{Outside, real_dependencies}
use self_healing_system_tfg.Adapters.Demo.{
  test_platform, default_settings, demo_trigger, initial_state,
}

-- The environment: the containers that run.
abbrev pub Box : Type 0
Box = List ℕ

abbrev pub box_world : World Box
box_world = record {
  files = (text "/w/app.py", text "x = 1") ∷ [];
  denied = λ _ _. false;
  env = [];
}

abbrev started : List ℕ → World Box → Outcome ℕ × World Box
started [] w = (returned 7, record w { env = 7 ∷ [] })
started (c ∷ cs) w = (raised (other (text "full")), w)

abbrev box_docker : DockerSdk Box
box_docker = record {
  has_client = λ _. true;
  import_docker = pure tt;
  from_env = pure tt;
  run_container = λ _ w. started w.env w;
  wait = λ _. pure (some 0);
  logs = λ _. pure [];
  remove = λ c w. (returned tt, record w { env = without c w.env });
  is_late = λ _. false;
  decode = λ b. b;
}

started-Starts : (cs : List ℕ) (w : World Box) → w.env ≡ cs → Starts (λ v. v.env) cs (started cs w)
started-Starts [] w e = (refl, refl)
started-Starts (c ∷ cs) w e = inl e

box-TracksContainers : TracksContainers box_docker (λ w. w.env)
box-TracksContainers = record {
  imports = λ w. refl;
  connects = λ w. refl;
  starts = λ o w. started-Starts w.env w refl;
  waits = λ c w. refl;
  reads = λ c w. refl;
  removes = λ c w. refl;
}

docker_run_cleans_up_example :
    IsCleaned box_docker
      (λ w. w.env)
      box-TracksContainers
      test_platform
      default_settings
      (text "/w")
      (text "image")
      (text "pytest" ∷ [])
      []
      ((docker_run_tests box_docker test_platform default_settings
        (text "/w")
        (text "image")
        (text "pytest" ∷ [])
        box_world).1)
docker_run_cleans_up_example =
    docker_run_cleans_up box_docker (λ w. w.env) box-TracksContainers test_platform default_settings
      (text "/w") (text "image") (text "pytest" ∷ []) box_world

docker_run_returns_example :
    (result : SandboxResult) × (w' : World Box) × (docker_run_tests box_docker test_platform
        default_settings
        (text "/w")
        (text "image")
        (text "pytest" ∷ [])
        box_world
      ≡ (returned result, w'))
    × IsHonest result
docker_run_returns_example =
    docker_run_returns box_docker (λ w. raises_returned _ _ w) test_platform default_settings
      (text "/w") (text "image") (text "pytest" ∷ []) box_world

-- An environment that sets one variable.
abbrev one_variable : Text → Option Text
one_variable name = elim (mem_text name (text "CDD_MAX_RETRIES" ∷ [])) [
  | true ↦ some (text "7")
  | false ↦ none
]

abbrev pub plain_reading : Reading
plain_reading = record {
  read_int = λ _. natural 7;
  is_float = λ _. true;
  is_positive = λ _. true;
  lower = λ s. s;
  resolve = λ s. s;
}

abbrev loaded_settings : Settings
loaded_settings = record (defaults (text "reports")) { max_retries = 7 }

loads :
    load_settings plain_reading one_variable (text "reports") box_world
    ≡ (returned loaded_settings, box_world)
unfolding load_settings resume text text_eq is_admitted is_yes strip
loads = refl

load_settings-IsBounded_example : IsBounded loaded_settings
load_settings-IsBounded_example =
    load_settings-IsBounded plain_reading one_variable (text "reports") box_world box_world
      loaded_settings loads

-- A trace that names the one file of the workspace, twice.
abbrev trace : Text
trace = text "File \"app.py\", line 1\nFile \"/w/app.py\", line 2\n"

collect_focus_paths-IsSelection_example :
    (out : List Text) × (collect_focus_paths ascii some (text "/w") trace none 3 box_world
      ≡ (returned out, box_world))
    × IsSelection ascii some box_world.files
        (parse_path (text "/w"))
        (test_path_of ascii some (parse_path (text "/w")) none)
        3
        out
collect_focus_paths-IsSelection_example =
    collect_focus_paths-IsSelection ascii some (text "/w") trace none 3 (parse_path (text "/w"))
      box_world refl

abbrev two_messages : List AgentMessage
two_messages =
    record { role = some (text "user"); content = text "fix it" }
    ∷ record { role = none; content = text "done" }
    ∷ []

format_trajectory_tail-length_example : length (format_trajectory_tail two_messages) ≤ 2577
format_trajectory_tail-length_example = format_trajectory_tail-length two_messages

-- A language model that is not there, an agent that edits, and a `git` whose diff is one line.
abbrev box_llm : LiteLlm Box
box_llm = record {
  Response = Unit {0};
  import_litellm = pure tt;
  acompletion = λ _ _. throw (other (text "offline"));
  content_of = λ _. misshapen;
  repr_of = λ _. text "()";
}

abbrev shown : Text → Process
shown s = record { returncode = exited 0; stdout = s; stderr = [] }

abbrev box_swe : SweTools Box
box_swe = record {
  Model = Unit {0};
  Environment = Unit {0};
  on_windows = false;
  import_agent = pure tt;
  litellm_model = λ _. pure tt;
  docker_environment = λ _. pure tt;
  local_environment = λ _. pure tt;
  run_agent = λ _ _ _ _.
      pure (record { exit_status = text "Submitted"; shown = text "{}"; messages = two_messages });
  cleanup = λ _. none;
  is_late = λ _. false;
  time_stamp = pure (text "20260101-000000");
  docker = λ _. pure (shown (text "7"));
  git = λ _ _. pure (shown (text "+x = 2"));
  decode = λ b. b;
}

abbrev box_fixer : MiniSweFixer
box_fixer = record {
  model_name = text "model";
  workspace = text "/w";
  container_workdir = text "/workspace";
  python_executable = text "python";
  cost_limit = text "3.0";
  timeout = text "300.0";
  step_limit = 0;
  trajectory_dir = none;
  use_docker = false;
  docker_image = text "python:3.12-slim";
}

abbrev box_context : FixContext
box_context = record {
  incident_id = text "demo-1";
  failure_output = [];
  reproduce_cmd = [];
  reproducer_node_id = none;
  source_excerpts = [];
  previous_attempts = [];
  fix_diff = [];
}

abbrev box_patch : Patch
box_patch = record { diff_text = text "+x = 2"; author_agent = text "MiniSWEFixer" }

fixes :
    swe_fix box_swe test_platform some box_fixer box_context box_world
    ≡ (returned (some box_patch), box_world)
unfolding swe_fix build_task run_agent blocking capture_diff render_focus_block collect_focus_paths
    collect candidates find_all find_from search_from run_regex resume handled finished text text_eq
    new_patch strip parse_path trace_file pytest_path module_not_found literal
fixes = refl

swe_fix-HasDiff_example : HasDiff box_swe test_platform some (text "/w") (some box_patch)
swe_fix-HasDiff_example =
    swe_fix-HasDiff box_swe test_platform some box_fixer box_context (some box_patch) box_world
      box_world fixes

-- `docker` here only answers; container 8 was there before, and container 7 is a new one.
box-SparesOthers : SparesOthers box_swe (λ w. w.env ≡ 8 ∷ []) (text "8")
box-SparesOthers = record {
  lists = λ w h. Leaves-at _ _ w h;
  stops = λ cid w other h. Leaves-at _ _ w h;
  removes = λ cid w other h. Leaves-at _ _ w h;
}

abbrev old_world : World Box
old_world = record box_world { env = 8 ∷ [] }

kill_new_containers-Leaves_example :
    Leaves (λ w. w.env ≡ 8 ∷ []) (kill_new_containers box_swe (text "8" ∷ []) old_world)
unfolding text text_eq
kill_new_containers-Leaves_example =
    kill_new_containers-Leaves box_swe (λ w. w.env ≡ 8 ∷ []) (text "8") (text "8" ∷ []) old_world
      box-SparesOthers refl refl

abbrev box_reporter : LlmReporter
box_reporter = record {
  model_name = text "model";
  temperature = text "0.2";
  timeout_seconds = text "90.0";
}

llm_reporter_returns_example :
    ((t : Text) × (w' : World Box) × (llm_compose_commit_message box_llm box_reporter
          (text "demo-1")
          (text "crash")
          []
          []
          none
          box_world
        ≡ (returned t, w')))
    × ((t : Text) × (w' : World Box) × (llm_compose_post_mortem box_llm box_reporter
            (text "demo-1")
            demo_trigger
            []
            []
            box_world
          ≡ (returned t, w')))
llm_reporter_returns_example =
    llm_reporter_returns box_llm (λ w. raises_returned _ _ w) (λ _. tt) box_reporter (text "demo-1")
      (text "crash") [] [] none demo_trigger [] [] box_world

abbrev box_git : GitPython Box
box_git = record {
  Repo = Unit {0};
  import_git = pure tt;
  repo_at = λ _. pure tt;
  add_all = λ _. pure tt;
  index_commit = λ _ _ _ _. throw (other (text "locked"));
  reset = λ _ _. pure tt;
  clean = λ _ _. pure tt;
}

abbrev pub box_outside : Outside Box
box_outside = record {
  docker = box_docker;
  git = box_git;
  llm = box_llm;
  swe = box_swe;
  resolve = some;
  captured_at = λ _. text "then";
  recorded_at = λ _. text "then";
  uuid_hex = pure (text "0123456789abcdef");
}

abbrev box_dependencies : Dependencies Box
box_dependencies = real_dependencies test_platform box_outside default_settings (text "/w")

abbrev box_start : HealingState
box_start = initial_state demo_trigger (text "/w")
