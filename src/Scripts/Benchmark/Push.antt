-- ===== src/Scripts/Benchmark/Push.antt =====
-- scripts/run_benchmark.py: the push of a fix and its pull request.
use self_healing_system_tfg.Base.{
  Bool, true, false, List, [], ◌∷◌, ◌++◌, Option, none, some, if◌then◌else◌,
}
use self_healing_system_tfg.Python.Text.{Text, text, strip}
use self_healing_system_tfg.Python.Effects.{
  Exn, file_not_found, Py, pure, throw, rescue, ◌>>=◌, ◌>>◌,
}
use self_healing_system_tfg.Python.Process.{is_zero}
use self_healing_system_tfg.Scripts.Machine.{Machine, git, token_url, except_runtime}

-- `except FileNotFoundError: …`
abbrev pub except_not_found : {E A : Type 0} → Py E A → Exn → Py E A
except_not_found handler (file_not_found m) = handler
except_not_found handler e = throw e

unfoldable pub fix_branch : Text → Text
unfolding text
fix_branch branch = text "fix/" ++ branch

-- The arguments of `gh pr create`.
unfoldable pub gh_args : Text → Text → List Text
unfolding fix_branch text
gh_args branch repo =
    text "gh"
    ∷ text "pr"
    ∷ text "create"
    ∷ text "--repo"
    ∷ repo
    ∷ text "--base"
    ∷ branch
    ∷ text "--head"
    ∷ fix_branch branch
    ∷ text "--title"
    ∷ (text "fix(" ++ branch ++ text "): auto-heal crashing code")
    ∷ text "--body"
    ∷ (text "## Auto-generated fix\n\nBranch `"
        ++ branch
        ++ text "` had a crashing `main.py`.\n"
        ++ text "This PR was generated by the **Self-Healing CDD pipeline**.\n\n"
        ++ text "🤖 Generated by Self-Healing CDD benchmark runner")
    ∷ []

module _ {E : Type 0} (m : Machine E) where
  -- The commit of what the pipeline left: false if `git` refuses it.
  abbrev pub commit_rest : Text → Text → Py E Bool
  commit_rest workspace branch =
      rescue
        (do
          git m
              (text "commit"
                ∷ text "-m"
                ∷ (text "fix("
                    ++ branch
                    ++ text "): auto-heal via Self-Healing CDD pipeline\n\n"
                    ++ text "Co-Authored-By: Self-Healing-Bot <self-healing-bot@urv.cat>")
                ∷ [])
              (some workspace)
          pure true)
        (except_runtime (pure false))

  unfoldable pub open_pr : Text → Text → Text → Text → Py E (Option Text)
  unfolding gh_args strip text
  open_pr workspace branch token repo =
      rescue
        (do
          result ← m.run (record {
            args = gh_args branch repo;
            cwd = some workspace;
            stdin = none;
            extra_env = (text "GH_TOKEN", token) ∷ [];
          })
          pure (if is_zero result.returncode then some (strip result.stdout) else none))
        (except_not_found (pure none))

  -- The push by force, and then the pull request.
  unfoldable pub push_fix : Text → Text → Text → Text → Py E (Option Text)
  unfolding git token_url fix_branch open_pr text
  push_fix workspace branch token repo = do
    git m (text "push" ∷ token_url token repo ∷ fix_branch branch ∷ text "--force" ∷ [])
        (some workspace)
    open_pr workspace branch token repo

  -- `push_and_pr`
  unfoldable pub push_and_pr : Text → Text → Text → Text → Py E (Option Text)
  unfolding git fix_branch push_fix text
  push_and_pr workspace branch token repo = do
    rescue (git m (text "checkout" ∷ text "-b" ∷ fix_branch branch ∷ []) (some workspace)) (
        except_runtime
          (git m (text "checkout" ∷ text "-B" ∷ fix_branch branch ∷ []) (some workspace)))
    git m (text "add" ∷ text "-A" ∷ []) (some workspace)
    committed ← commit_rest workspace branch
    if committed then push_fix workspace branch token repo else pure none
