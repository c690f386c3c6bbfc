-- ===== src/Scripts/Benchmark.antt =====
-- scripts/run_benchmark.py, up to the trigger: the branches of a benchmark, a clean checkout, the
-- detection of a crash.
pub mod Branches
pub mod Report
pub mod Push
pub mod Run
pub mod Rows
pub mod Leak
use self_healing_system_tfg.Base.{
  ℕ, Bool, true, false, not, ◌&&◌, ◌||◌, List, [], ◌∷◌, ◌++◌, Option, none, some, ◌==◌,
  if◌then◌else◌, take, last_n,
}
use self_healing_system_tfg.Python.Text.{
  Text, text, text_eq, truthy, strip, splitlines, starts_with, has_char, replace_char,
}
use self_healing_system_tfg.Python.Effects.{
  runtime_error, value_error, file_not_found, Py, pure, throw, rescue, ◌>>=◌, ◌>>◌,
}
use self_healing_system_tfg.Python.Files.{exists}
use self_healing_system_tfg.Python.Process.{is_zero, str_code}
use self_healing_system_tfg.Python.Platform.{Platform}
use self_healing_system_tfg.Domain.Enums.{production_crash}
use self_healing_system_tfg.Domain.Models.{CrashReport, TriggerEvent, new_crash_report, new_trigger}
use self_healing_system_tfg.Orchestrator.Nodes.Session.{session_path}
use self_healing_system_tfg.Orchestrator.Regression.{mem_text, add_sorted}
use self_healing_system_tfg.Scripts.Machine.{
  Machine, command, below, git, git_skip_worktree, runtime_db, except_runtime,
}

-- `SKIP_BRANCHES`
unfoldable pub skip_branches : List Text
unfolding text
skip_branches = text "main" ∷ text "master" ∷ text "HEAD" ∷ text "origin" ∷ []

-- `name.startswith(SCENARIO_PREFIXES)`
unfoldable pub is_scenario : Text → Bool
unfolding starts_with text
is_scenario name = starts_with name (text "bugA/") || starts_with name (text "bugB/")

-- `name.split("/", 1)[1]`, for a name that holds a slash.
unfoldable pub after_slash : Text → Text
after_slash [] = []
after_slash (c ∷ s) = let rest = after_slash s in if c == b'/' then s else rest

unfoldable pub branch_of : Text → Text
unfolding strip has_char after_slash
branch_of line = if has_char b'/' (strip line) then after_slash (strip line) else strip line

-- The branches of the loop, as the set of them in order: `sorted(set(branches))`.
unfoldable pub branches_among : List Text → List Text
unfolding branch_of skip_branches is_scenario add_sorted text_eq
branches_among [] = []
branches_among (line ∷ lines) =
    let name = branch_of line in
    let rest = branches_among lines in
    if not (mem_text name skip_branches) && is_scenario name then add_sorted name rest else rest

-- `safe_branch`
unfoldable pub safe_branch : Text → Text
unfolding replace_char
safe_branch branch = replace_char b'\\' b'_' (replace_char b'/' b'_' branch)

-- The output of a process, `first` before `second`, or a line that says that there is none.
unfoldable pub output_of : Text → Text → Text → Text
unfolding strip
output_of first second missing =
    let output = if truthy first then first else second in
    if truthy (strip output) then output else missing

-- A `TriggerEvent(...)`, or the `ValueError` of its constructor.
abbrev pub trigger_or_raise : {E : Type 0} → Option TriggerEvent → Py E TriggerEvent
trigger_or_raise none = throw (value_error [])
trigger_or_raise (some trigger) = pure trigger

module _ {E : Type 0} (m : Machine E) where
  -- `list_remote_branches`
  unfoldable pub list_remote_branches : Text → Py E (List Text)
  unfolding git branches_among splitlines text
  list_remote_branches repo_dir = do
    raw ← git m (text "branch" ∷ text "-r" ∷ text "--format=%(refname:short)" ∷ []) (some repo_dir)
    pure (branches_among (splitlines raw))

  -- `checkout_branch`
  unfoldable pub checkout_branch : Text → Text → Py E (Unit {0})
  unfolding git git_skip_worktree runtime_db text
  checkout_branch repo_dir branch = do
    git_skip_worktree m repo_dir runtime_db false
    git m (text "reset" ∷ text "--hard" ∷ []) (some repo_dir)
    git m (text "clean" ∷ text "-fdx" ∷ []) (some repo_dir)
    git m (text "checkout" ∷ branch ∷ []) (some repo_dir)
    git_skip_worktree m repo_dir runtime_db true

  -- `detect_crash`
  unfoldable pub detect_crash : Text → Py E Text
  unfolding exists session_path output_of str_code text
  detect_crash workspace = do
    found ← exists (below workspace (text "main.py"))
    if found then pure tt else throw (file_not_found (text "No main.py found in " ++ workspace))
    result ← m.run (command (m.python ∷ text "main.py" ∷ []) (some workspace))
    if is_zero result.returncode
        then throw (
            runtime_error (
              text "main.py exited cleanly (rc=0).  Expected a crash.\nstdout: "
              ++ take 500 result.stdout))
        else pure (
            output_of result.stderr result.stdout (
              text "Process exited with code "
              ++ str_code result.returncode
              ++ text " but no output."))

  module _ (p : Platform) where
    -- `build_crash_report`
    unfoldable pub build_crash_report : Text → Text → Text → Py E CrashReport
    unfolding git safe_branch new_crash_report text
    build_crash_report branch crash_output workspace = do
      sha ←
          rescue (git m (text "rev-parse" ∷ text "--short" ∷ text "HEAD" ∷ []) (some workspace))
            (except_runtime (pure (text "0000000")))
      hex ← m.uuid_hex
      pure (
          new_crash_report p.pydantic_strip
            (text "bench-" ++ safe_branch branch ++ text "-" ++ take 6 hex)
            (text "benchmark/" ++ branch) (last_n 4096 crash_output) sha)

    -- `build_trigger`
    unfoldable pub build_trigger : CrashReport → Py E TriggerEvent
    unfolding new_trigger
    build_trigger crash = trigger_or_raise (new_trigger production_crash (some crash) none)
