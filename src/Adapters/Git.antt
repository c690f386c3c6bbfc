-- ===== src/Adapters/Git.antt =====
-- src/infrastructure/git_ops/git_adapter.py: the two operations on the repository, by GitPython,
-- which is a parameter.
use self_healing_system_tfg.Base.{◌++◌}
use self_healing_system_tfg.Python.Text.{Text, text}
use self_healing_system_tfg.Python.Effects.{
  Exn, message, git_operation, import_error, World, Py, throw, rescue, ◌>>=◌, ◌>>◌,
}
use self_healing_system_tfg.Python.Effects.Raises.{
  RaisesOnly, raises_raised, handled-RaisesOnly, handled_all-RaisesOnly, resume-RaisesOnly,
}

-- GitPython: `import git`, and the calls on a `Repo`.
pub record GitPython (E : Type 0) : Type 1 where
  pub Repo : Type 0
  pub import_git : Py E (Unit {0})
  pub repo_at : Text → Py E Repo
  pub add_all : Repo → Py E (Unit {0})
  pub index_commit : Repo → (message author_name author_email : Text) → Py E Text
  pub reset : Repo → Text → Py E (Unit {0})
  pub clean : Repo → Text → Py E (Unit {0})

module _ {E : Type 0} (git : GitPython E) where
  abbrev except_no_git : Exn → Py E (Unit {0})
  except_no_git (import_error m) = throw (git_operation (text "GitPython is not installed."))
  except_no_git e = throw e

  -- `_ensure_git`; a module that is loaded already is imported at no cost.
  unfoldable pub ensure_git : Py E (Unit {0})
  unfolding text
  ensure_git = rescue git.import_git except_no_git

  -- `_commit_blocking`, and `GitAdapter.commit`, which raises its errors again
  unfoldable pub git_commit : Text → Text → Text → Text → Py E Text
  unfolding ensure_git text
  git_commit workspace_path msg author_name author_email = do
    ensure_git
    rescue
        (do
          repo ← git.repo_at workspace_path
          git.add_all repo
          git.index_commit repo msg author_name author_email)
        (λ exc. throw (git_operation (text "Commit failed: " ++ message exc)))

  -- `_reset_blocking`, and `GitAdapter.reset_hard`, which raises its errors again
  unfoldable pub git_reset_hard : Text → Py E (Unit {0})
  unfolding ensure_git text
  git_reset_hard workspace_path = do
    ensure_git
    rescue
        (do
          repo ← git.repo_at workspace_path
          git.reset repo (text "--hard")
          git.clean repo (text "-fd"))
        (λ exc. throw (git_operation (text "Reset failed: " ++ message exc)))

abbrev pub IsGitError : Exn → Type 0
IsGitError (git_operation m) = Unit
IsGitError _ = ⊥

abbrev pub IsNoGit : Exn → Type 0
IsNoGit (import_error m) = Unit
IsNoGit _ = ⊥

module _ {E : Type 0} (git : GitPython E)
    (imports : (w : World E) → RaisesOnly IsNoGit (git.import_git w)) where
  no_git_handler :
      (e : Exn) (w : World E) → IsNoGit e → RaisesOnly IsGitError (except_no_git git e w)
  no_git_handler (import_error m) w h = raises_raised _ _ _ w tt
  no_git_handler e w h = absurd h

  ensure-RaisesOnly : (w : World E) → RaisesOnly IsGitError (ensure_git git w)
  unfolding ensure_git
  ensure-RaisesOnly w = handled-RaisesOnly IsNoGit _ _ _ (imports w) no_git_handler

  -- The adapter raises nothing but a `GitOperationError`, whatever GitPython does.
  pub git_commit-RaisesOnly :
      (workspace_path msg author_name author_email : Text) (w : World E)
      → RaisesOnly IsGitError (git_commit git workspace_path msg author_name author_email w)
  unfolding git_commit
  git_commit-RaisesOnly workspace_path msg author_name author_email w =
      resume-RaisesOnly _ _ _ (ensure-RaisesOnly w)
        λ _ w1. handled_all-RaisesOnly _ _ _ λ e w2. raises_raised _ _ _ w2 tt

  pub git_reset-RaisesOnly :
      (workspace_path : Text) (w : World E)
      → RaisesOnly IsGitError (git_reset_hard git workspace_path w)
  unfolding git_reset_hard
  git_reset-RaisesOnly workspace_path w =
      resume-RaisesOnly _ _ _ (ensure-RaisesOnly w)
        λ _ w1. handled_all-RaisesOnly _ _ _ λ e w2. raises_raised _ _ _ w2 tt
