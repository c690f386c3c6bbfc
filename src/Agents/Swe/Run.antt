-- ===== src/Agents/Swe/Run.antt =====
-- `MiniSWEFixer.fix` and the methods that it calls, in src/agents/swe_agent_dev.py.
use self_healing_system_tfg.Base.{
  ℕ, Bool, ◌&&◌, List, [], ◌∷◌, ◌++◌, Option, none, some, if◌then◌else◌, take,
}
use self_healing_system_tfg.Python.Text.{Text, text, truthy, strip, splitlines, text_eq}
use self_healing_system_tfg.Python.Effects.{
  Exn, fix_generation, import_error, timeout_error, raised, World, Py, pure, throw, rescue, finally,
  ◌>>=◌, ◌>>◌,
}
use self_healing_system_tfg.Python.Paths.{PurePath, parse_path, path_join}
use self_healing_system_tfg.Python.Platform.{Platform}
use self_healing_system_tfg.Python.Process.{Process, is_zero}
use self_healing_system_tfg.Domain.Models.{FixContext, Patch, new_patch}
use self_healing_system_tfg.Orchestrator.Regression.{mem_text}
use self_healing_system_tfg.Agents.Prompts.{system_template, instance_template}
use self_healing_system_tfg.Agents.Swe.{
  MiniSweFixer, AgentMessage, docker_run_args, to_docker_volume_path, build_task,
  format_trajectory_tail, safe_name, given_node,
}

-- The arguments of `DockerEnvironment`; `forward_env` and `timeout` are constants.
pub record DockerEnvironmentArgs : Type 0 where
  pub image : Text
  pub cwd : Text
  pub run_args : List Text

-- The arguments of `DefaultAgent`, next to its model and environment.
pub record AgentArgs : Type 0 where
  pub agent_prompt : Text
  pub task_prompt : Text
  pub cost_limit : Text
  pub step_limit : ℕ
  pub output_path : Option PurePath

-- What `agent.run` gives: the exit status (`"unknown"` if the key is missing), and `str(result)`.
pub record AgentResult : Type 0 where
  pub exit_status : Text
  pub shown : Text
  pub messages : List AgentMessage

-- mini-swe-agent, litellm, `git`, `docker` and the clock. `cleanup` is none where the environment
-- has no such method. `run_agent` builds `DefaultAgent` and runs it.
pub record SweTools (E : Type 0) : Type 1 where
  pub Model : Type 0
  pub Environment : Type 0
  pub on_windows : Bool
  pub import_agent : Py E (Unit {0})
  pub litellm_model : Text → Py E Model
  pub docker_environment : DockerEnvironmentArgs → Py E Environment
  pub local_environment : Text → Py E Environment
  pub run_agent : Model → Environment → AgentArgs → Text → Py E AgentResult
  pub cleanup : Environment → Option (Py E (Unit {0}))
  pub is_late : World E → Bool
  pub time_stamp : Py E Text
  pub docker : List Text → Py E Process
  pub git : Text → List Text → Py E Process
  pub decode : List ℕ → Text

module _ {E : Type 0} (tools : SweTools E) where
  abbrev except_not_installed : Exn → Py E (Unit {0})
  except_not_installed (import_error m) = throw (
      fix_generation
        (text "mini-swe-agent is not installed. Install with: pip install mini-swe-agent"))
  except_not_installed e = throw e

  -- `_verify_install`
  unfoldable pub verify_install : Py E (Unit {0})
  unfolding text
  verify_install = rescue tools.import_agent except_not_installed

  abbrev listed : Process → List Text
  listed result =
      let out = strip (tools.decode result.stdout) in
      if is_zero result.returncode && truthy out then splitlines out else []

  -- `_list_docker_containers`; a set is a list here, in the order of the output.
  unfoldable pub list_docker_containers : Py E (List Text)
  unfolding text strip splitlines
  list_docker_containers =
      rescue
        (do
          result ←
              tools.docker
                (text "ps" ∷ text "-q" ∷ text "--filter" ∷ text "name=minisweagent-" ∷ [])
          pure (listed result))
        (λ _. pure [])

  -- `current_ids - existing_ids`
  unfoldable pub difference : List Text → List Text → List Text
  unfolding text_eq
  difference [] existing = []
  difference (cid ∷ cids) existing =
      let rest = difference cids existing in if mem_text cid existing then rest else cid ∷ rest

  -- `docker stop`, then `docker rm -f`; any failure is passed over.
  unfoldable pub kill_container : Text → Py E (Unit {0})
  unfolding text
  kill_container cid =
      rescue
        (do
          tools.docker (text "stop" ∷ cid ∷ [])
          tools.docker (text "rm" ∷ text "-f" ∷ cid ∷ [])
          pure tt)
        (λ _. pure tt)

  unfoldable pub kill_all : List Text → Py E (Unit {0})
  unfolding kill_container
  kill_all [] = pure tt
  kill_all (cid ∷ cids) = do kill_container cid; kill_all cids

  -- `_kill_new_containers`
  unfoldable pub kill_new_containers : List Text → Py E (Unit {0})
  unfolding list_docker_containers difference kill_all
  kill_new_containers existing_ids = do
    current_ids ← list_docker_containers
    kill_all (difference current_ids existing_ids)

  unfoldable pub remove_each : List Text → Py E (Unit {0})
  unfolding text
  remove_each [] = pure tt
  remove_each (cid ∷ cids) = do tools.docker (text "rm" ∷ text "-f" ∷ cid ∷ []); remove_each cids

  -- `cleanup_all_containers`
  unfoldable pub cleanup_all_containers : Py E (Unit {0})
  unfolding list_docker_containers kill_new_containers remove_each strip splitlines text
  cleanup_all_containers = do
    all_ids ← list_docker_containers
    if truthy all_ids then kill_new_containers [] else pure tt
    rescue
        (do
          result ←
              tools.docker
                (text "ps" ∷ text "-aq" ∷ text "--filter" ∷ text "name=minisweagent-" ∷ [])
          remove_each (listed result))
        (λ _. pure tt)

  -- `_capture_diff`: new files are added with intent, then `git diff` is read.
  unfoldable pub capture_diff : MiniSweFixer → Py E Text
  unfolding text
  capture_diff f = do
    tools.git f.workspace (text "add" ∷ text "-N" ∷ text "." ∷ [])
    proc ← tools.git f.workspace (text "diff" ∷ [])
    if is_zero proc.returncode
        then pure (tools.decode proc.stdout)
        else throw (fix_generation (text "git diff failed: " ++ tools.decode proc.stderr))

  abbrev pub best_effort : Option (Py E (Unit {0})) → Py E (Unit {0})
  best_effort none = pure tt
  best_effort (some clean) = rescue clean (λ _. pure tt)

  module _ (p : Platform) where
    -- Where the trajectory is saved, if a directory is given.
    abbrev pub trajectory_path : Option Text → Text → Py E (Option PurePath)
    trajectory_path none incident_id = pure none
    trajectory_path (some dir) incident_id = do
      stamp ← tools.time_stamp
      let name = take 80 (safe_name p.unicode incident_id) ++ text "-" ++ stamp ++ text ".json"
      pure (some (path_join (parse_path dir) (parse_path name)))

    abbrev pub environment_of : MiniSweFixer → Py E (tools.Environment)
    environment_of f =
        if f.use_docker
        then tools.docker_environment (record {
          image = f.docker_image;
          cwd = f.container_workdir;
          run_args =
              docker_run_args tools.on_windows (to_docker_volume_path tools.on_windows f.workspace)
                f.container_workdir;
        })
        else tools.local_environment f.workspace

    -- `_blocking`
    unfoldable pub blocking : MiniSweFixer → Option PurePath → Text → Py E (List AgentMessage)
    unfolding docker_run_args to_docker_volume_path system_template instance_template text text_eq
    blocking f output_path task = do
      tools.import_agent
      model ← tools.litellm_model f.model_name
      env ← environment_of f
      let args : AgentArgs = record {
        agent_prompt = system_template;
        task_prompt = instance_template;
        cost_limit = f.cost_limit;
        step_limit = f.step_limit;
        output_path = output_path;
      }
      result ← finally (tools.run_agent model env args task) (best_effort (tools.cleanup env))
      if text_eq result.exit_status (text "error")
          then throw (fix_generation (text "mini-swe-agent exited with error: " ++ result.shown))
          else pure result.messages

    -- `asyncio.wait_for(asyncio.to_thread(body), timeout)`
    abbrev pub in_time : Py E (List AgentMessage) → Py E (List AgentMessage)
    in_time body w =
        let (o, w') = body w in
        if tools.is_late w' then (raised (timeout_error (text "timed out")), w') else (o, w')

    abbrev pub except_timeout : Text → Exn → Py E (List AgentMessage)
    except_timeout limit (timeout_error m) =
        throw (fix_generation (text "mini-swe-agent timed out after " ++ limit ++ text "s"))
    except_timeout limit e = throw e

    -- `_run_agent`: the tail of the trajectory, or what the run raised, once new containers are gone.
    unfoldable pub run_agent : MiniSweFixer → Text → Text → Py E Text
    unfolding list_docker_containers kill_new_containers blocking format_trajectory_tail safe_name
        path_join parse_path text
    run_agent f task incident_id = do
      existing_ids ← (if f.use_docker then list_docker_containers else pure [])
      output_path ← trajectory_path (given_node f.trajectory_dir) incident_id
      messages ←
          finally (rescue (in_time (blocking f output_path task)) (except_timeout f.timeout))
            (if f.use_docker then kill_new_containers existing_ids else pure tt)
      pure (format_trajectory_tail messages)

    abbrev tail_or_mark : Text → Text
    tail_or_mark trajectory_tail =
        if truthy trajectory_tail then trajectory_tail else text "(empty)"

    module _ (resolve : PurePath → Option PurePath) where
      -- `MiniSWEFixer.fix`
      unfoldable pub swe_fix : MiniSweFixer → FixContext → Py E (Option Patch)
      unfolding build_task run_agent capture_diff new_patch strip text
      swe_fix f context = do
        task ← build_task p.unicode resolve f context
        trajectory_tail ← run_agent f task context.incident_id
        diff_text ← capture_diff f
        if truthy (strip diff_text)
            then pure (some (new_patch p.pydantic_strip diff_text (text "MiniSWEFixer")))
            else throw (
                fix_generation (
                  text "mini-swe-agent submitted without editing any file. Trajectory tail:\n"
                  ++ tail_or_mark trajectory_tail))
