-- ===== src/Scripts/Machine.antt =====
-- What the scripts ask of the machine, and the `git` helpers of scripts/run_benchmark.py.
-- Prints and logs are left out.
use self_healing_system_tfg.Base.{Bool, List, [], ◌∷◌, ◌++◌, Option, none, some, if◌then◌else◌}
use self_healing_system_tfg.Python.Text.{Text, text, strip, join}
use self_healing_system_tfg.Python.Effects.{
  Exn, runtime_error, github_error, Py, pure, throw, rescue, ◌>>=◌, ◌>>◌,
}
use self_healing_system_tfg.Python.Files.{mkdir_parent, append_text}
use self_healing_system_tfg.Python.Process.{ReturnCode, is_zero, str_code}
use self_healing_system_tfg.Orchestrator.Nodes.Session.{session_path, except_os_error}

-- `subprocess.run(args, cwd=…, input=…, capture_output=True, text=True, timeout=…)`
pub record Command : Type 0 where
  pub args : List Text
  pub cwd : Option Text
  pub stdin : Option Text
  pub extra_env : List (Text × Text)

-- A command with no input and the environment of the script.
abbrev pub command : List Text → Option Text → Command
command args cwd = record { args = args; cwd = cwd; stdin = none; extra_env = [] }

pub record ShellResult : Type 0 where
  pub returncode : ReturnCode
  pub stdout : Text
  pub stderr : Text

-- `run` raises what `subprocess.run` raises: a missing program, a timeout. `rmtree` is
-- `shutil.rmtree(path, onerror=hook)`, whose hook gets the function that failed and its target;
-- `elapsed` is the seconds since the last reading of the clock, as they are printed.
pub record Machine (E : Type 0) : Type 0 where
  pub run : Command → Py E ShellResult
  pub python : Text
  pub project_root : Text
  pub getenv : Text → Option Text
  pub path_exists : Text → Py E Bool
  pub make_dirs : Text → Py E (Unit {0})
  pub chmod_writable : Text → Py E (Unit {0})
  pub rmtree : Text → ((Text → Py E (Unit {0})) → Text → Py E (Unit {0})) → Py E (Unit {0})
  pub resolve_path : Text → Py E Text
  pub uuid_hex : Py E Text
  pub time_stamp : Py E Text
  pub elapsed : Py E Text

-- `dir / rel`
abbrev pub below : Text → Text → Text
below = session_path

-- `except RuntimeError: …`; a `GitHubError` is one.
abbrev pub except_runtime : {E A : Type 0} → Py E A → Exn → Py E A
except_runtime handler (runtime_error m) = handler
except_runtime handler (github_error m) = handler
except_runtime handler e = throw e

-- `_CLONE_EXCLUDES`
unfoldable pub clone_excludes : List Text
unfolding text
clone_excludes = text "datos_bancarios.json" ∷ text "__pycache__/" ∷ text "*.pyc" ∷ []

-- `_RUNTIME_DB`
unfoldable pub runtime_db : Text
unfolding text
runtime_db = text "datos_bancarios.json"

-- The address of a repository with the token in it.
unfoldable pub token_url : Text → Text → Text
unfolding text
token_url token repo =
    text "https://x-access-token:" ++ token ++ text "@github.com/" ++ repo ++ text ".git"

-- The message of a `git` command that failed.
unfoldable pub git_failure : List Text → ShellResult → Text
unfolding join str_code text
git_failure args result =
    text "git "
    ++ join (text " ") args
    ++ text " failed (rc="
    ++ str_code result.returncode
    ++ text "):\n"
    ++ result.stderr

module _ {E : Type 0} (m : Machine E) where
  -- `_git`
  unfoldable pub git : List Text → Option Text → Py E Text
  unfolding git_failure strip text
  git args cwd = do
    result ← m.run (command (text "git" ∷ args) cwd)
    if is_zero result.returncode
        then pure (strip result.stdout)
        else throw (runtime_error (git_failure args result))

  -- `_git_skip_worktree`
  unfoldable pub git_skip_worktree : Text → Text → Bool → Py E (Unit {0})
  unfolding git text
  git_skip_worktree repo_dir rel_path skip =
      let flag = if skip then text "--skip-worktree" else text "--no-skip-worktree" in
      rescue (do git (text "update-index" ∷ flag ∷ rel_path ∷ []) (some repo_dir); pure tt)
        (except_runtime (pure tt))

  -- The hook `_clear_readonly_and_retry`
  unfoldable pub clear_readonly_and_retry : (Text → Py E (Unit {0})) → Text → Py E (Unit {0})
  clear_readonly_and_retry func target =
      rescue (do m.chmod_writable target; func target) (except_os_error (pure tt))

  -- `_purge_readonly_tree`
  unfoldable pub purge_readonly_tree : Text → Py E (Unit {0})
  unfolding clear_readonly_and_retry
  purge_readonly_tree path = m.rmtree path clear_readonly_and_retry

  -- `clone_repo`
  unfoldable pub clone_repo : Text → Text → Text → Py E (Unit {0})
  unfolding git token_url clone_excludes mkdir_parent append_text session_path join text
  clone_repo token repo dest = do
    git
        (text "clone"
          ∷ text "--no-single-branch"
          ∷ text "--depth=1"
          ∷ token_url token repo
          ∷ dest
          ∷ [])
        none
    rescue
        (do
          mkdir_parent (below dest (text ".git/info/exclude"))
          append_text (below dest (text ".git/info/exclude")) (
              text "\n# self-healing benchmark: runtime artifacts\n"
              ++ join (text "\n") clone_excludes
              ++ text "\n"))
        (except_os_error (pure tt))
