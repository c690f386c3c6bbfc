-- ===== src/Adapters/Real.antt =====
-- The real mode of src/main.py: the adapters on Docker, GitPython, litellm and mini-swe-agent, and
-- what can leave a session that runs on them. The telemetry around the ports is left out.
use self_healing_system_tfg.Base.{ℕ, ◌≡◌, ◌<◌, ◌⊎◌, Option, some}
use self_healing_system_tfg.Python.Text.{Text, text}
use self_healing_system_tfg.Python.Effects.{Exn, World, Py}
use self_healing_system_tfg.Python.Effects.Raises.{RaisesOnly, Never, IsOsError}
use self_healing_system_tfg.Python.Paths.{PurePath}
use self_healing_system_tfg.Python.Platform.{Platform}
use self_healing_system_tfg.Domain.Models.{CrashReport, FailedAttempt}
use self_healing_system_tfg.Domain.State.{HealingState}
use self_healing_system_tfg.Config.{Settings}
use self_healing_system_tfg.Ports.{Dependencies}
use self_healing_system_tfg.Orchestrator.Graph.{recursion_error}
use self_healing_system_tfg.Orchestrator.Graph.Bound.{session_bound}
use self_healing_system_tfg.Agents.Llm.{LiteLlm, IsMissing, IsRead}
use self_healing_system_tfg.Agents.Tester.{LlmTester, llm_write_regression_test}
use self_healing_system_tfg.Agents.Reporter.{
  LlmReporter, llm_compose_commit_message, llm_compose_post_mortem,
}
use self_healing_system_tfg.Agents.Swe.{MiniSweFixer, given_node}
use self_healing_system_tfg.Agents.Swe.Run.{SweTools, swe_fix}
use self_healing_system_tfg.Agents.Swe.Outcomes.{ToolsRaise}
use self_healing_system_tfg.Adapters.Docker.{DockerSdk, docker_run_tests}
use self_healing_system_tfg.Adapters.Docker.Verdict.{IsImportError}
use self_healing_system_tfg.Adapters.Git.{
  GitPython, git_commit, git_reset_hard, IsGitError, IsNoGit,
}
use self_healing_system_tfg.Adapters.Reports.{file_post_mortem}

-- `_build_real_agents`, with the constructors' defaults.
unfoldable pub real_fixer : Settings → Text → MiniSweFixer
unfolding text
real_fixer s workspace = record {
  model_name = s.llm_model;
  workspace = workspace;
  container_workdir = text "/workspace";
  python_executable = text "python";
  cost_limit = s.sweagent_cost_limit;
  timeout = s.sweagent_timeout_seconds;
  step_limit = s.sweagent_step_limit;
  trajectory_dir = given_node (some s.sweagent_trajectory_dir);
  use_docker = s.sweagent_use_docker;
  docker_image = s.sweagent_docker_image;
}

unfoldable pub real_tester : Settings → Text → LlmTester
unfolding text
real_tester s workspace = record {
  model_name = s.llm_model;
  workspace = workspace;
  temperature = text "0.0";
  timeout_seconds = s.tester_timeout_seconds;
}

unfoldable pub real_reporter : Settings → LlmReporter
unfolding text
real_reporter s = record {
  model_name = s.llm_model;
  temperature = text "0.2";
  timeout_seconds = text "90.0";
}

-- The third-party code that the real mode runs on, the rendering of records in a report, and the
-- resolution of paths.
pub record Outside (E : Type 0) : Type 1 where
  pub docker : DockerSdk E
  pub git : GitPython E
  pub llm : LiteLlm E
  pub swe : SweTools E
  pub resolve : PurePath → Option PurePath
  pub captured_at : CrashReport → Text
  pub recorded_at : FailedAttempt → Text
  pub uuid_hex : Py E Text

-- `_build_dependencies` in real mode.
unfoldable pub real_dependencies :
    {E : Type 0} → Platform → Outside E → Settings → Text → Dependencies E
unfolding real_fixer real_tester real_reporter swe_fix llm_write_regression_test
    llm_compose_commit_message llm_compose_post_mortem docker_run_tests git_commit git_reset_hard
    file_post_mortem
real_dependencies p out s workspace = record {
  settings = s;
  fix = swe_fix out.swe p out.resolve (real_fixer s workspace);
  write_regression_test =
      llm_write_regression_test p.unicode out.resolve out.llm (real_tester s workspace);
  compose_commit_message = llm_compose_commit_message out.llm (real_reporter s);
  compose_post_mortem = llm_compose_post_mortem out.llm (real_reporter s);
  run_tests = docker_run_tests out.docker p s;
  commit = git_commit out.git;
  reset_hard = git_reset_hard out.git;
  write_post_mortem =
      file_post_mortem p.unicode.alnum out.captured_at out.recorded_at s.reports_dir;
  uuid_hex = out.uuid_hex;
}

-- What the third-party code raises: a missing package is an `ImportError` to the adapters of Docker,
-- GitPython and litellm, and a response of litellm is read, or is not as it is documented to be, which is
-- one of the three exceptions that are caught; else these may fail in any way. The agent's tools raise
-- only `Q`, and making an identifier raises nothing.
pub record IsKnown {E : Type 0} (Q : Exn → Type 0) (out : Outside E) : Type 0 where
  pub docker_imports : (w : World E) → RaisesOnly IsImportError (out.docker.import_docker w)
  pub git_imports : (w : World E) → RaisesOnly IsNoGit (out.git.import_git w)
  pub llm_imports : (w : World E) → RaisesOnly IsMissing (out.llm.import_litellm w)
  pub llm_reads : (r : out.llm.Response) → IsRead (out.llm.content_of r)
  pub agent : ToolsRaise out.swe Q
  pub names : (w : World E) → RaisesOnly Never (out.uuid_hex w)

-- What can leave a session: a failed commit, a report that cannot be written, and the agent's `Q`.
abbrev pub EscapesAs : (Exn → Type 0) → Exn → Type 0
EscapesAs Q e = Q e ⊎ (IsGitError e ⊎ IsOsError e)

-- LangGraph's error at the limit of steps, when the limit is below the bound of the session.
abbrev pub IsOutOfSteps : ℕ → ℕ → Exn → Type 0
IsOutOfSteps bound limit e = (e ≡ recursion_error) × (limit < bound)

module _ {E : Type 0} (p : Platform) (deps : Dependencies E) (P : Exn → Type 0) (limit : ℕ)
    (s : HealingState) where
  abbrev Leaving : Exn → Type 0
  Leaving e = P e ⊎ IsOutOfSteps (session_bound p deps s) limit e
