-- ===== src/Agents/Swe/Outcomes.antt =====
-- What `MiniSWEFixer.fix` comes to: a patch with a diff, or one of the exceptions named here.
use self_healing_system_tfg.Base.{
  ap, arith, [], ◌∷◌, ◌≡◌, refl, ◌⊎◌, inl, inr, true, List, Option, none, some, Bool-cases,
}
use self_healing_system_tfg.Python.Text.{Text, text, text_eq, truthy, strip}
use self_healing_system_tfg.Python.Effects.{Exn, timeout_error, World, Py, returned}
use self_healing_system_tfg.Python.Effects.Ends.{
  EndsAt, EndsAt-elim, ends_returned, ends_raised, resume-EndsAt, resume-EndsAt_of,
  resume-EndsAt_ran,
}
use self_healing_system_tfg.Python.Effects.Raises.{
  RaisesOnly, raises_returned, raises_raised, handled-RaisesOnly, handled_all-RaisesOnly,
  if-RaisesOnly, choice-RaisesOnly, finished-RaisesOnly, resume-RaisesOnly, weaken-RaisesOnly,
  Never-RaisesOnly,
}
use self_healing_system_tfg.Python.Paths.{PurePath, parse_path}
use self_healing_system_tfg.Python.Platform.{Platform}
use self_healing_system_tfg.Python.Process.{Process, ReturnCode, exited, killed_by, is_zero}
use self_healing_system_tfg.Domain.Models.{FixContext, Patch, new_patch}
use self_healing_system_tfg.Orchestrator.Nodes.Total.{IsFixError}
use self_healing_system_tfg.Agents.Focus.{default_intro}
use self_healing_system_tfg.Agents.Focus.Quiet.{focus_block-RaisesOnly}
use self_healing_system_tfg.Agents.Swe.{MiniSweFixer, AgentMessage, build_task, given_node}
use self_healing_system_tfg.Agents.Swe.Cleanup.{list-RaisesOnly, kill_new-RaisesOnly}
use self_healing_system_tfg.Agents.Swe.Run.{
  SweTools, AgentArgs, DockerEnvironmentArgs, capture_diff, best_effort, trajectory_path,
  environment_of, blocking, in_time, except_timeout, run_agent, swe_fix,
}

zero_code : (r : ReturnCode) → is_zero r ≡ true → r ≡ exited 0
zero_code (exited n) h = let e : n ≡ 0 = ground (arith, h) in ap exited e
zero_code (killed_by n) h = absurd (cc h)

-- What the tools raise; `docker` may raise anything, since its failures are passed over.
pub record ToolsRaise {E : Type 0} (tools : SweTools E) (P : Exn → Type 0) : Type 0 where
  pub imports : (w : World E) → RaisesOnly P (tools.import_agent w)
  pub models : (t : Text) (w : World E) → RaisesOnly P (tools.litellm_model t w)
  pub containers :
      (args : DockerEnvironmentArgs) (w : World E) → RaisesOnly P (tools.docker_environment args w)
  pub shells : (cwd : Text) (w : World E) → RaisesOnly P (tools.local_environment cwd w)
  pub runs :
      (m : tools.Model) (env : tools.Environment) (args : AgentArgs) (task : Text) (w : World E)
      → RaisesOnly P (tools.run_agent m env args task w)
  pub stamps : (w : World E) → RaisesOnly P (tools.time_stamp w)
  pub gits : (cwd : Text) (args : List Text) (w : World E) → RaisesOnly P (tools.git cwd args w)

module _ {E : Type 0} (tools : SweTools E) (p : Platform)
    (resolve : PurePath → Option PurePath) where
  -- What `git` answered as the difference of the workspace: first the new files were added with intent,
  -- then `git diff` ended with code 0.
  pub record IsDiff (workspace diff_text : Text) : Type 0 where
    pub added : Process
    pub proc : Process
    pub w1 : World E
    pub w2 : World E
    pub w3 : World E
    pub ran_add :
        tools.git workspace (text "add" ∷ text "-N" ∷ text "." ∷ []) w1 ≡ (returned added, w2)
    pub ran_diff : tools.git workspace (text "diff" ∷ []) w2 ≡ (returned proc, w3)
    pub no_error : proc.returncode ≡ exited 0
    pub is_output : diff_text ≡ tools.decode proc.stdout

  -- A patch of that difference, which holds more than white space.
  pub record HasDiff (workspace : Text) (o : Option Patch) : Type 0 where
    pub diff_text : Text
    pub given : IsDiff workspace diff_text
    pub not_blank : truthy (strip diff_text) ≡ true
    pub is_patch : o ≡ some (new_patch p.pydantic_strip diff_text (text "MiniSWEFixer"))

  capture-IsDiff :
      (f : MiniSweFixer) (w : World E) → EndsAt (IsDiff f.workspace) (capture_diff tools f w)
  unfolding capture_diff
  capture-IsDiff f w = resume-EndsAt_ran _ _ _ λ added w1 first.
      resume-EndsAt_ran _ _ _ λ proc w2 second. elim (Bool-cases (is_zero proc.returncode)) [
        | inl done ↦ rw done (
            ends_returned _ _ w2 (record {
              added = added;
              proc = proc;
              w1 = w;
              w2 = w1;
              w3 = w2;
              ran_add = first;
              ran_diff = second;
              no_error = zero_code proc.returncode done;
              is_output = refl;
            }))
        | inr bad ↦ rw bad (ends_raised _ _ w2)
      ]

  swe_fix-EndsAt :
      (f : MiniSweFixer) (context : FixContext) (w : World E)
      → EndsAt (HasDiff f.workspace) (swe_fix tools p resolve f context w)
  unfolding swe_fix
  swe_fix-EndsAt f context w = resume-EndsAt _ _ _ λ task w1. resume-EndsAt _ _ _ λ tail w2.
      resume-EndsAt_of (IsDiff f.workspace) _ _ _ (capture-IsDiff f w2) λ d w3 given.
        elim (Bool-cases (truthy (strip d))) [
          | inl found ↦ rw found (
              ends_returned _ _ w3
                (record { diff_text = d; given = given; not_blank = found; is_patch = refl }))
          | inr blank ↦ rw blank (ends_raised _ _ w3)
        ]

  module _ (P : Exn → Type 0) (meets : ToolsRaise tools P) where
    abbrev pub IsFixOr : Exn → Type 0
    IsFixOr e = IsFixError e ⊎ P e

    cleanup-RaisesOnly :
        (o : Option (Py E (Unit {0}))) (w : World E) → RaisesOnly IsFixOr (best_effort tools o w)
    cleanup-RaisesOnly none w = raises_returned _ _ w
    cleanup-RaisesOnly (some clean) w = handled_all-RaisesOnly _ _ _ λ e w1. raises_returned _ _ w1

    up : (e : Exn) → P e → IsFixOr e
    up e h = inr h

    environment-RaisesOnly :
        (f : MiniSweFixer) (w : World E) → RaisesOnly P (environment_of tools p f w)
    environment-RaisesOnly f w = elim (Bool-cases f.use_docker) [
      | inl in_docker ↦ rw in_docker (meets.containers _ w)
      | inr local ↦ rw local (meets.shells f.workspace w)
    ]

    blocking-RaisesOnly :
        (f : MiniSweFixer) (path : Option PurePath) (task : Text) (w : World E)
        → RaisesOnly IsFixOr (blocking tools p f path task w)
    unfolding blocking
    blocking-RaisesOnly f path task w =
        resume-RaisesOnly _ _ _ (weaken-RaisesOnly _ _ _ (meets.imports w) up) λ _ w1.
          resume-RaisesOnly _ _ _ (weaken-RaisesOnly _ _ _ (meets.models _ w1) up) λ model w2.
            resume-RaisesOnly _ _ _ (weaken-RaisesOnly _ _ _ (environment-RaisesOnly f w2) up)
              λ env w3.
                resume-RaisesOnly _ _ _
                  (finished-RaisesOnly _ _ _ (weaken-RaisesOnly _ _ _ (meets.runs _ _ _ _ w3) up)
                    λ w4. cleanup-RaisesOnly (tools.cleanup env) w4)
                  λ result w5.
                    choice-RaisesOnly _ (text_eq result.exit_status (text "error")) _ _ w5
                      (raises_raised _ _ _ w5 (inl tt)) (raises_returned _ _ w5)

    -- A timeout, the agent's own included, is a `FixGenerationError`.
    abbrev IsLateOr : Exn → Type 0
    IsLateOr (timeout_error m) = Unit
    IsLateOr e = IsFixOr e

    late_or : (e : Exn) → IsFixOr e → IsLateOr e
    late_or (timeout_error m) h = tt
    late_or e h = h

    late_handler :
        (limit : Text) (e : Exn) (w : World E)
        → IsLateOr e
        → RaisesOnly IsFixOr (except_timeout tools p limit e w)
    late_handler limit (timeout_error m) w h = raises_raised _ _ _ w (inl tt)
    late_handler limit e w h = raises_raised _ _ _ w h

    in_time-RaisesOnly :
        (body : Py E (List AgentMessage)) (w : World E)
        → RaisesOnly IsFixOr (body w)
        → RaisesOnly IsLateOr (in_time tools p body w)
    in_time-RaisesOnly body w h =
        if-RaisesOnly _ (tools.is_late _) _ _ (raises_raised _ _ _ _ tt)
          (weaken-RaisesOnly _ _ _ h late_or)

    path-RaisesOnly :
        (dir : Option Text) (id : Text) (w : World E)
        → RaisesOnly IsFixOr (trajectory_path tools p dir id w)
    path-RaisesOnly none id w = raises_returned _ _ w
    path-RaisesOnly (some dir) id w =
        resume-RaisesOnly _ _ _ (weaken-RaisesOnly _ _ _ (meets.stamps w) up)
          λ stamp w1. raises_returned _ _ w1

    run_agent-RaisesOnly :
        (f : MiniSweFixer) (task id : Text) (w : World E)
        → RaisesOnly IsFixOr (run_agent tools p f task id w)
    unfolding run_agent
    run_agent-RaisesOnly f task id w =
        resume-RaisesOnly _ _ _
          (choice-RaisesOnly _ f.use_docker _ _ w (Never-RaisesOnly _ _ (list-RaisesOnly tools w))
            (raises_returned _ _ w))
          λ ids w1.
            resume-RaisesOnly _ _ _ (path-RaisesOnly (given_node f.trajectory_dir) id w1) λ path w2.
              resume-RaisesOnly _ _ _
                (finished-RaisesOnly _ _ _
                  (handled-RaisesOnly IsLateOr _ _ _
                    (in_time-RaisesOnly (blocking tools p f path task) w2
                      (blocking-RaisesOnly f path task w2))
                    (late_handler f.timeout))
                  λ w3. elim (Bool-cases f.use_docker) [
                    | inl in_docker ↦
                        rw in_docker (Never-RaisesOnly _ _ (kill_new-RaisesOnly tools ids w3))
                    | inr local ↦ rw local (raises_returned _ _ w3)
                  ])
                λ messages w4. raises_returned _ _ w4

    diff-RaisesOnly : (f : MiniSweFixer) (w : World E) → RaisesOnly IsFixOr (capture_diff tools f w)
    unfolding capture_diff
    diff-RaisesOnly f w =
        resume-RaisesOnly _ _ _ (weaken-RaisesOnly _ _ _ (meets.gits _ _ w) up) λ added w1.
          resume-RaisesOnly _ _ _ (weaken-RaisesOnly _ _ _ (meets.gits _ _ w1) up) λ proc w2.
            elim (Bool-cases (is_zero proc.returncode)) [
              | inl done ↦ rw done (raises_returned _ _ w2)
              | inr failed ↦ rw failed (raises_raised _ _ _ w2 (inl tt))
            ]

    task-RaisesOnly :
        (f : MiniSweFixer) (root : PurePath) (context : FixContext) (w : World E)
        → resolve (parse_path f.workspace) ≡ some root
        → RaisesOnly IsFixOr (build_task p.unicode resolve f context w)
    unfolding build_task
    task-RaisesOnly f root context w resolves =
        resume-RaisesOnly _ _ _
          (Never-RaisesOnly _ _ (
            focus_block-RaisesOnly p.unicode resolve f.workspace root resolves
              context.failure_output context.reproducer_node_id default_intro w))
          λ focus w1. raises_returned _ _ w1

    -- In a workspace that resolves, a fix raises a `FixGenerationError` or what the tools raise.
    pub swe_fix-RaisesOnly :
        (f : MiniSweFixer) (root : PurePath) (context : FixContext) (w : World E)
        → resolve (parse_path f.workspace) ≡ some root
        → RaisesOnly IsFixOr (swe_fix tools p resolve f context w)
    unfolding swe_fix
    swe_fix-RaisesOnly f root context w resolves =
        resume-RaisesOnly _ _ _ (task-RaisesOnly f root context w resolves) λ task w1.
          resume-RaisesOnly _ _ _ (run_agent-RaisesOnly f task context.incident_id w1) λ tail w2.
            resume-RaisesOnly _ _ _ (diff-RaisesOnly f w2) λ d w3.
              choice-RaisesOnly _ (truthy (strip d)) _ _ w3 (raises_returned _ _ w3)
                (raises_raised _ _ _ w3 (inl tt))

  -- A fix that returns, returns a patch of what `git diff` put out in the workspace, after the new files were
  -- added with intent, where `git diff` ended with code 0 and its output holds more than white space.
  pub swe_fix-HasDiff :
      (f : MiniSweFixer) (context : FixContext) (o : Option Patch) (w w' : World E)
      → swe_fix tools p resolve f context w ≡ (returned o, w')
      → HasDiff f.workspace o
  swe_fix-HasDiff f context o w w' ran = EndsAt-elim _ (swe_fix-EndsAt f context w) ran
