-- ===== src/Scripts/Benchmark/Run.antt =====
-- scripts/run_benchmark.py: one branch, all branches and the report. An interrupt from the keyboard is
-- left out.
use self_healing_system_tfg.Base.{
  ℕ, Bool, true, false, List, [], ◌∷◌, ◌++◌, none, some, if◌then◌else◌,
}
use self_healing_system_tfg.Python.Text.{Text, text, truthy}
use self_healing_system_tfg.Python.Effects.{
  Exn, message, runtime_error, Py, pure, throw, rescue, ◌>>=◌, ◌>>◌,
}
use self_healing_system_tfg.Python.Files.{write_text}
use self_healing_system_tfg.Domain.State.{HealingState}
use self_healing_system_tfg.Config.{Settings, load_settings}
use self_healing_system_tfg.Orchestrator.Nodes.Session.{session_path}
use self_healing_system_tfg.Agents.Swe.Run.{cleanup_all_containers}
use self_healing_system_tfg.Scripts.Machine.{below, purge_readonly_tree, clone_repo}
use self_healing_system_tfg.Scripts.Session.{
  Rig, new_state, default_recursion_limit, build_real_deps, run_session,
}
use self_healing_system_tfg.Scripts.Benchmark.{
  list_remote_branches, checkout_branch, detect_crash, build_crash_report, build_trigger,
}
use self_healing_system_tfg.Scripts.Benchmark.Report.{BranchRow, new_row, report_text}
use self_healing_system_tfg.Scripts.Benchmark.Push.{push_and_pr}

module _ {E : Type 0} (rig : Rig E) where
  -- From the checkout of a branch to the final state of its session.
  unfoldable pub heal_branch : Settings → Text → Text → Py E HealingState
  unfolding checkout_branch detect_crash build_crash_report build_trigger new_state build_real_deps
      run_session
  heal_branch settings repo_dir branch = do
    checkout_branch rig.machine repo_dir branch
    workspace ← rig.machine.resolve_path repo_dir
    crash_output ← detect_crash rig.machine repo_dir
    crash_report ← build_crash_report rig.machine rig.platform branch crash_output repo_dir
    trigger ← build_trigger rig.machine rig.platform crash_report
    deps ← build_real_deps rig settings workspace none
    rig.machine.uuid_hex
    run_session rig deps default_recursion_limit (new_state trigger workspace [] [] none)

  -- What the `except` of `run_branch` makes of the row so far.
  abbrev pub failed_row : BranchRow → Exn → Py E BranchRow
  failed_row row e =
      pure (record row { error = some (rig.telemetry.type_name e ++ text ": " ++ message e) })

  -- The row after the session; a pull request is asked for only if it was resolved.
  unfoldable pub finish_row : Text → Text → Text → BranchRow → HealingState → Py E BranchRow
  unfolding push_and_pr text
  finish_row repo_dir token repo row final =
      let ended = record row { resolved = final.is_resolved; attempts = final.attempt_count } in
      if final.is_resolved
      then rescue
          (do
            pr_url ← push_and_pr rig.machine repo_dir row.branch token repo
            pure (record ended { pr_url = pr_url }))
          (failed_row ended)
      else pure ended

  -- `run_branch`
  unfoldable pub run_branch : Settings → Text → Text → Text → Text → Py E BranchRow
  unfolding new_row heal_branch finish_row text
  run_branch settings repo_dir token repo branch = do
    row ←
        rescue
          (do
            final ← heal_branch settings repo_dir branch
            finish_row repo_dir token repo (new_row branch) final)
          (failed_row (new_row branch))
    seconds ← rig.machine.elapsed
    pure (record row { duration = seconds })

  -- The loop of `async_main`, with the cleanup after each branch.
  unfoldable pub run_branches : Settings → Text → Text → Text → List Text → Py E (List BranchRow)
  unfolding run_branch cleanup_all_containers
  run_branches settings repo_dir token repo [] = pure []
  run_branches settings repo_dir token repo (b ∷ bs) = do
    row ← run_branch settings repo_dir token repo b
    cleanup_all_containers rig.outside.swe
    rows ← run_branches settings repo_dir token repo bs
    pure (row ∷ rows)

  module _ (json_dumps : List BranchRow → Text) where
    -- `write_report`
    unfoldable pub write_report : List BranchRow → Text → Py E Text
    unfolding write_text session_path report_text text
    write_report rows out_dir = do
      rig.machine.make_dirs out_dir
      stamp ← rig.machine.time_stamp
      write_text (below out_dir (text "benchmark_" ++ stamp ++ text ".json")) (json_dumps rows)
      write_text (below out_dir (text "benchmark_" ++ stamp ++ text ".md")) (report_text stamp rows)
      pure (below out_dir (text "benchmark_" ++ stamp ++ text ".md"))

    -- The workspace is wiped; what cannot be wiped ends the run.
    abbrev wiped : Text → Bool → Py E (Unit {0})
    wiped root false = pure tt
    wiped root true = do
      purge_readonly_tree rig.machine root
      left ← rig.machine.path_exists root
      if left
          then throw (
              runtime_error (
                text "Could not wipe "
                ++ root
                ++ text ". Close any process holding files in it (editor, file explorer, prior "
                ++ text "python.exe) and retry."))
          else pure tt

    abbrev env_or : Text → Text → Text
    env_or name d = elim (rig.machine.getenv name) [ none ↦ d | some v ↦ v ]

    -- The branches that were found, then the report; its exit code.
    abbrev benchmark_all : Settings → Text → Text → Text → List Text → Py E ℕ
    benchmark_all settings repo_dir token repo [] = pure 1
    benchmark_all settings repo_dir token repo (b ∷ bs) = do
      cleanup_all_containers rig.outside.swe
      rows ← run_branches settings repo_dir token repo (b ∷ bs)
      cleanup_all_containers rig.outside.swe
      write_report rows (below rig.machine.project_root (text "reports/benchmarks"))
      pure 0

    -- `async_main`
    unfoldable pub benchmark_main : Py E ℕ
    unfolding load_settings purge_readonly_tree clone_repo list_remote_branches run_branches
        write_report cleanup_all_containers session_path text
    benchmark_main = do
      settings ← load_settings rig.reading rig.machine.getenv rig.reports_dir
      let token = env_or (text "GITHUB_TOKEN") []
      let repo = env_or (text "BENCHMARK_REPO") (text "Arnaufafi/Benchmark_for_agents")
      let root = below rig.machine.project_root (text ".workspaces/benchmark")
      let repo_dir = below root (text "repo")
      let go : Py E ℕ = (do
        there ← rig.machine.path_exists root
        wiped root there
        rig.machine.make_dirs root
        clone_repo rig.machine token repo repo_dir
        branches ← list_remote_branches rig.machine repo_dir
        benchmark_all settings repo_dir token repo branches)
      if truthy token then go else pure 1
