-- ===== src/Scripts/Heal.antt =====
-- scripts/heal_and_pr.py: a session on a failure, and the pull request.
pub mod Unpublished
pub mod Settled
use self_healing_system_tfg.Base.{
  ℕ, Bool, true, List, [], ◌∷◌, ◌++◌, Option, none, some, if◌then◌else◌, take, keep,
}
use self_healing_system_tfg.Python.Text.{Text, text, truthy, strip, splitlines}
use self_healing_system_tfg.Python.Effects.{Py, pure, rescue, ◌>>=◌, ◌>>◌}
use self_healing_system_tfg.Domain.State.{HealingState}
use self_healing_system_tfg.Config.{Settings, load_settings}
use self_healing_system_tfg.Orchestrator.Nodes.Session.{session_path}
use self_healing_system_tfg.Adapters.GitHub.{
  GitHubTools, new_access, push_branch, open_pull_request,
}
use self_healing_system_tfg.Adapters.GitHub.Body.{LlmUsage, build_pr_body}
use self_healing_system_tfg.Scripts.Machine.{
  below, git, except_runtime, purge_readonly_tree, clone_repo,
}
use self_healing_system_tfg.Scripts.Session.{
  Rig, new_state, default_recursion_limit, build_real_deps, run_session,
}
use self_healing_system_tfg.Scripts.Detect.{Detected, shield_runtime_artifacts, find_failure}

-- What `heal_and_pr` comes to before it looks at `open_pr`: an exit code, or a session that was resolved.
pub data Healing : Type 0 where
  ended : ℕ → Healing
  healed : (workspace heal_branch : Text) → HealingState → List Text → Option LlmUsage → Healing

-- `tuple(final.get("reproduce_cmd") or ("python", "main.py"))`
abbrev pub command_of : HealingState → List Text
command_of final =
    if truthy final.reproduce_cmd then final.reproduce_cmd else text "python" ∷ text "main.py" ∷ []

-- `subjects[0] if subjects else …`
abbrev pub title_of : Text → List Text → Text
title_of base [] = text "fix: auto-heal " ++ base
title_of base (subject ∷ subjects) = subject

-- `usage` is the `llm` part of what the telemetry's `aggregate` gives.
module _ {E : Type 0} (rig : Rig E) (usage : Py E (Option LlmUsage)) where
  -- `os.environ.get("GITHUB_TOKEN", "")`
  abbrev pub token_of : Text
  token_of = elim (rig.machine.getenv (text "GITHUB_TOKEN")) [ none ↦ [] | some token ↦ token ]

  abbrev commit_subjects : Text → Text → Text → Py E (List Text)
  commit_subjects repo_dir base heal_branch =
      rescue
        (do
          raw ←
              git rig.machine
                (text "log" ∷ (base ++ text ".." ++ heal_branch) ∷ text "--format=%s" ∷ [])
                (some repo_dir)
          pure (keep (λ s. truthy (strip s)) (splitlines raw)))
        (except_runtime (pure []))

  -- The session, and what the pull request tells of it.
  unfoldable pub heal_detected :
      Settings → Text → Text → Text → Text → Option Detected → Py E Healing
  unfolding shield_runtime_artifacts new_state build_real_deps run_session git strip splitlines text
  heal_detected settings repo_dir workspace base heal_branch none = pure (ended 0)
  heal_detected settings repo_dir workspace base heal_branch (some (trigger, reproduce_cmd)) = do
    shield_runtime_artifacts rig.machine repo_dir
    deps ← build_real_deps rig settings workspace none
    final ←
        run_session rig deps default_recursion_limit
          (new_state trigger workspace reproduce_cmd [] none)
    let gather : Py E Healing = (do
      subjects ← commit_subjects repo_dir base heal_branch
      llm ← usage
      pure (healed workspace heal_branch final subjects llm))
    if final.is_resolved then gather else pure (ended 2)

  -- From the fresh clone to the end of the session.
  unfoldable pub heal_clone : Settings → Text → Text → Bool → Option Text → Py E Healing
  unfolding purge_readonly_tree clone_repo git find_failure heal_detected session_path text
  heal_clone settings repo base auto test_node = do
    let root = below rig.machine.project_root (text ".workspaces/deploy")
    let repo_dir = below root (text "repo")
    there ← rig.machine.path_exists root
    if there then purge_readonly_tree rig.machine root else pure tt
    rig.machine.make_dirs root
    clone_repo rig.machine token_of repo repo_dir
    git rig.machine (text "checkout" ∷ base ∷ []) (some repo_dir)
    hex ← rig.machine.uuid_hex
    let heal_branch = text "selfheal/selfheal-" ++ take 8 hex
    git rig.machine (text "checkout" ∷ text "-b" ∷ heal_branch ∷ []) (some repo_dir)
    workspace ← rig.machine.resolve_path repo_dir
    detected ← find_failure rig repo_dir base auto test_node
    heal_detected settings repo_dir workspace base heal_branch detected

  -- `heal_and_pr` until the session has ended.
  unfoldable pub heal_repo : Text → Text → Bool → Option Text → Py E Healing
  unfolding load_settings heal_clone text
  heal_repo repo base auto test_node = do
    settings ← load_settings rig.reading rig.machine.getenv rig.reports_dir
    if truthy token_of then heal_clone settings repo base auto test_node else pure (ended 1)

  module _ (tools : GitHubTools E) where
    -- The push and the pull request, if they are asked for.
    unfoldable pub publish : Text → Text → Bool → Bool → Healing → Py E ℕ
    unfolding new_access push_branch open_pull_request build_pr_body text
    publish repo base open_pr draft (ended code) = pure code
    publish repo base open_pr draft (healed workspace heal_branch final subjects llm) =
        let access = new_access token_of (text "https://api.github.com") in
        let asked : Py E ℕ = (do
          push_branch tools access workspace repo heal_branch true
          open_pull_request tools access repo (record {
            title = title_of base subjects;
            head = heal_branch;
            base = base;
            body =
                build_pr_body rig.platform.sha256_hex (command_of final) final.resolved_errors llm
                  subjects;
            draft = draft;
          })
          pure 0) in
        if open_pr then asked else pure 0

    -- `heal_and_pr`
    unfoldable pub heal_and_pr : Text → Text → Bool → Bool → Option Text → Bool → Py E ℕ
    unfolding heal_repo publish
    heal_and_pr repo base open_pr draft test_node auto = do
      healing ← heal_repo repo base auto test_node
      publish repo base open_pr draft healing
