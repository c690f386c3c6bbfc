-- ===== src/Adapters/InMemory.antt =====
-- The deterministic adapters: src/agents/mock_fixer.py, mock_tester.py, mock_reporter_agent.py,
-- src/infrastructure/docker_sandbox/in_memory_sandbox.py and git_ops/in_memory_git.py.
-- The synthetic latencies are left out.
pub mod Replay
use self_healing_system_tfg.Base.{
  ℕ, zero, suc, ◌+◌, ◌-◌, List, [], ◌∷◌, ◌++◌, Option, none, some, any, ◌==◌, if◌then◌else◌, length,
  take,
}
use self_healing_system_tfg.Python.Text.{Text, text, truthy, str_nat}
use self_healing_system_tfg.Python.Effects.{fix_generation, returned, raised, Py}
use self_healing_system_tfg.Python.Platform.{Platform}
use self_healing_system_tfg.Domain.Enums.{SandboxVerdict, verdict_value}
use self_healing_system_tfg.Domain.Models.{
  Patch, SandboxResult, FailedAttempt, TriggerEvent, FixContext, RegressionTest, ResolvedError,
  new_patch, new_sandbox_result,
}
use self_healing_system_tfg.Orchestrator.Routers.{is_passed}

-- The objects' fields: the sandbox's two queues and its default, git's book-keeping, and the attempts
-- on which the Corrector is told to fail.
pub record Scripted : Type 0 where
  pub results : List SandboxResult
  pub queue : List SandboxVerdict
  pub default_verdict : SandboxVerdict
  pub commits : List Text
  pub reset_count : ℕ
  pub fail_on_attempts : List ℕ

-- The diff of `MockFixer`.
unfoldable pub mock_diff : Text
unfolding text
mock_diff =
    text "--- a/src/example.py\n+++ b/src/example.py\n@@ -1,3 +1,3 @@\n def add(a, b):\n"
    ++ text "-    return a - b  # bug\n+    return a + b\n"

-- `f"{n:08d}"`
abbrev zeros : ℕ → Text
zeros zero = []
zeros (suc n) = b'0' ∷ zeros n

unfoldable pub sha_text : ℕ → Text
unfolding text str_nat
sha_text n = text "sha_" ++ zeros (8 - length (str_nat n)) ++ str_nat n

abbrev exit_code_of : SandboxVerdict → ℕ
exit_code_of v = if is_passed v then 0 else 1

module _ (p : Platform) where
  -- `MockFixer.fix`
  unfoldable pub mock_fix : FixContext → Py Scripted (Option Patch)
  unfolding mock_diff new_patch text str_nat
  mock_fix context w =
      let attempt = length context.previous_attempts in
      if any (λ n. n == attempt) w.env.fail_on_attempts
      then (
        raised (fix_generation (text "scripted fixer failure on attempt " ++ str_nat attempt)),
        w,
      )
      else (returned (some (new_patch p.pydantic_strip mock_diff (text "MockFixer"))), w)

  -- `MockTester.write_regression_test`, for an incident id on one line.
  unfoldable pub mock_write_test : FixContext → Py Scripted RegressionTest
  unfolding text
  mock_write_test context w =
      let digest = take 8 (p.sha256_hex context.failure_output) in
      let func = text "test_selfheal_" ++ digest in
      let source =
        text "def "
        ++ func
        ++ text "() -> None:\n    # Immunization test for incident "
        ++ context.incident_id
        ++ text "\n    # (digest "
        ++ digest
        ++ text "); passes now that the bug is fixed.\n    assert True\n" in
      (returned (record { path = []; node_id = text "::" ++ func; source = source }), w)

  abbrev test_path_line : Option Text → Text
  test_path_line none = []
  test_path_line (some path) =
      if truthy path then text "Regression test appended to " ++ path ++ text ".\n" else []

  -- `MockReporterAgent.compose_commit_message`
  unfoldable pub mock_commit_message :
      (incident_id error_signature diff_text : Text) → List Text → Option Text → Py Scripted Text
  unfolding text str_nat
  mock_commit_message incident_id error_signature diff_text prior test_path w = (
    returned (
        text "fix(self-healing): resolve "
        ++ error_signature
        ++ text "\n\nAuto-healed incident "
        ++ incident_id
        ++ text ".\nAttempts before success: "
        ++ str_nat (length prior)
        ++ text ".\nDiff size: "
        ++ str_nat (length diff_text)
        ++ text " bytes.\n"
        ++ test_path_line test_path),
    w,
  )

  -- `MockReporterAgent.compose_post_mortem`
  unfoldable pub mock_post_mortem :
      Text → TriggerEvent → List FailedAttempt → List ResolvedError → Py Scripted Text
  unfolding text str_nat
  mock_post_mortem incident_id trigger attempts resolved w = (
    returned (
        text "The self-healing pipeline exhausted its retry budget on incident `"
        ++ incident_id
        ++ text "` after "
        ++ str_nat (length attempts)
        ++ text " failed attempt(s); "
        ++ str_nat (length resolved)
        ++ text " earlier error(s) in the chain were healed."),
    w,
  )

  unfoldable pub verdict_result : SandboxVerdict → SandboxResult
  unfolding new_sandbox_result text verdict_value
  verdict_result v =
      new_sandbox_result p.pydantic_strip v (some (exit_code_of v))
        (text "[in-memory sandbox] verdict=" ++ verdict_value v)

  abbrev pub scripted_run : List SandboxResult → List SandboxVerdict → Py Scripted SandboxResult
  scripted_run (r ∷ rs) vs w = (returned r, record w { env = record (w.env) { results = rs } })
  scripted_run [] (v ∷ vs) w =
      (returned (verdict_result v), record w { env = record (w.env) { queue = vs } })
  scripted_run [] [] w = (returned (verdict_result w.env.default_verdict), w)

  -- `InMemorySandbox.run_tests`: results first, then verdicts, then the default for ever.
  unfoldable pub scripted_run_tests : Text → Text → List Text → Py Scripted SandboxResult
  unfolding verdict_result
  scripted_run_tests workspace image command w = scripted_run w.env.results w.env.queue w

-- `InMemoryGit.commit`
unfoldable pub memory_commit : Text → Text → Text → Text → Py Scripted Text
unfolding sha_text
memory_commit workspace message author_name author_email w = (
  returned (sha_text (length w.env.commits)),
  record w { env = record (w.env) { commits = w.env.commits ++ message ∷ [] } },
)

-- `InMemoryGit.reset_hard`
unfoldable pub memory_reset_hard : Text → Py Scripted (Unit {0})
memory_reset_hard workspace w =
    (returned tt, record w { env = record (w.env) { reset_count = w.env.reset_count + 1 } })
