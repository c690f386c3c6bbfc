-- ===== src/Scripts/Swebench.antt =====
-- scripts/run_swebench.py: an instance prepared, checked without a language model, or healed; and the
-- loop over the instances. The download of the dataset and the parsing of the options are left out.
pub mod Run
pub mod Loop
pub mod Sanity
pub mod Predictions
pub mod Rows
pub mod Ids
use self_healing_system_tfg.Base.{
  Bool, true, ◌&&◌, List, [], ◌∷◌, ◌++◌, Option, none, some, ◌==◌, if◌then◌else◌, take, drop,
  length,
}
use self_healing_system_tfg.Python.Text.{Text, text, truthy, starts_with, before_colons, text_eq}
use self_healing_system_tfg.Python.Effects.{runtime_error, Py, pure, throw, rescue, ◌>>=◌, ◌>>◌}
use self_healing_system_tfg.Python.Files.{read_text}
use self_healing_system_tfg.Python.Process.{is_zero, str_code}
use self_healing_system_tfg.Domain.Enums.{failed}
use self_healing_system_tfg.Orchestrator.Nodes.Session.{session_path, except_os_error}
use self_healing_system_tfg.Orchestrator.Regression.{mem_text}
use self_healing_system_tfg.Scripts.Machine.{
  Machine, below, git, except_runtime, purge_readonly_tree,
}
use self_healing_system_tfg.Scripts.Select.{Instance}
use self_healing_system_tfg.Scripts.Detect.{first_word}

-- `a/(?P<a>\S+) b/(?P<b>\S+)` from the first word on: the second word, if it starts with `b/` and both
-- have a character more. The regex backtracks over no space, so the words are the longest.
abbrev b_side : Text → Option Text
b_side s =
    let name = first_word (drop 3 s) in
    if starts_with s (text " b/") && truthy name then some name else none

-- `_DIFF_GIT_RE` at the start of a text: its group `b`.
unfoldable pub diff_path : Text → Option Text
unfolding first_word starts_with text
diff_path s =
    let rest = drop (length (text "diff --git a/")) s in
    let a = first_word rest in
    if starts_with s (text "diff --git a/") && truthy a then b_side (drop (length a) rest) else none

-- The groups `b` of `_DIFF_GIT_RE.finditer`; the flag tells whether the text is at the start of a line.
unfoldable pub diff_paths : Bool → Text → List Text
unfolding diff_path
diff_paths at_line [] = []
diff_paths at_line (c ∷ s) =
    let later = diff_paths (c == b'\n') s in
    let here = if at_line then diff_path (c ∷ s) else none in
    elim here [ none ↦ later | some path ↦ path ∷ later ]

-- The keys of a dict, in the order in which they were first set.
unfoldable pub distinct_after : List Text → List Text → List Text
unfolding text_eq
distinct_after seen [] = []
distinct_after seen (x ∷ xs) =
    let new = distinct_after (x ∷ seen) xs in
    let old = distinct_after seen xs in if mem_text x seen then old else x ∷ new

unfoldable pub parse_test_paths : Text → List Text
unfolding diff_paths distinct_after
parse_test_paths test_patch = distinct_after [] (diff_paths true test_patch)

abbrev exclusions : List Text → List Text
exclusions [] = []
exclusions (path ∷ paths) = (text ":(exclude)" ++ path) ∷ exclusions paths

unfoldable pub model_patch_diff_args : Text → List Text → List Text
unfolding text
model_patch_diff_args base_ref test_paths =
    text "diff" ∷ base_ref ∷ text "HEAD" ∷ text "--" ∷ text "." ∷ exclusions test_paths

unfoldable pub pytest_command : Text → List Text → List Text
unfolding text
pytest_command py nodes =
    py ∷ text "-m" ∷ text "pytest" ∷ nodes ++ text "-x" ∷ text "--tb=short" ∷ []

module _ {E : Type 0} (m : Machine E) where
  -- `_git_apply`
  unfoldable pub git_apply : Text → Text → Py E (Unit {0})
  unfolding str_code text
  git_apply repo_dir patch_text = do
    proc ← m.run (record {
      args = text "git" ∷ text "apply" ∷ text "--whitespace=nowarn" ∷ [];
      cwd = some repo_dir;
      stdin = some patch_text;
      extra_env = [];
    })
    if is_zero proc.returncode
        then pure tt
        else throw (
            runtime_error (
              text "git apply failed (rc="
              ++ str_code proc.returncode
              ++ text "): "
              ++ take 500 proc.stderr))

  -- `git` in a directory, its output dropped.
  abbrev git_in : Text → List Text → Py E (Unit {0})
  git_in repo_dir args = do git m args (some repo_dir); pure tt

  -- `prepare_instance`
  unfoldable pub prepare_instance : Text → Instance → Py E (List Text)
  unfolding git git_apply parse_test_paths text
  prepare_instance repo_dir i = do
    let url = text "https://github.com/" ++ i.repo ++ text ".git"
    m.make_dirs repo_dir
    git_in repo_dir (text "init" ∷ text "-q" ∷ [])
    git_in repo_dir (text "config" ∷ text "user.email" ∷ text "selfheal@local" ∷ [])
    git_in repo_dir (text "config" ∷ text "user.name" ∷ text "selfheal" ∷ [])
    rescue (git_in repo_dir (text "remote" ∷ text "add" ∷ text "origin" ∷ url ∷ [])) (
        except_runtime
          (git_in repo_dir (text "remote" ∷ text "set-url" ∷ text "origin" ∷ url ∷ [])))
    rescue
        (git_in repo_dir (
          text "fetch"
          ∷ text "-q"
          ∷ text "--depth"
          ∷ text "1"
          ∷ text "origin"
          ∷ i.base_commit
          ∷ []))
        (except_runtime (git_in repo_dir (text "fetch" ∷ text "-q" ∷ text "origin" ∷ [])))
    git_in repo_dir (text "checkout" ∷ text "-q" ∷ i.base_commit ∷ [])
    git_apply repo_dir i.test_patch
    git_in repo_dir (text "add" ∷ text "-A" ∷ [])
    git_in repo_dir (text "commit" ∷ text "-q" ∷ text "-m" ∷ text "swebench: apply test patch" ∷ [])
    pure (parse_test_paths i.test_patch)

  -- `read_test_source`
  unfoldable pub read_test_source : Text → Text → Py E Text
  unfolding read_text session_path
  read_test_source repo_dir node_id =
      rescue (read_text (below repo_dir (before_colons node_id))) (except_os_error (pure []))

  -- `extract_model_patch`
  unfoldable pub extract_model_patch : Text → Text → List Text → Py E Text
  unfolding git model_patch_diff_args
  extract_model_patch repo_dir base_commit test_paths =
      git m (model_patch_diff_args base_commit test_paths) (some repo_dir)

  -- `_wipe`
  unfoldable pub wipe : Text → Py E (Unit {0})
  unfolding purge_readonly_tree
  wipe path = do
    there ← m.path_exists path
    if there then purge_readonly_tree m path else pure tt
    m.make_dirs path
