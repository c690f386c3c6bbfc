-- ===== src/Adapters/Docker.antt =====
-- src/infrastructure/docker_sandbox/docker_sandbox.py: the sandbox on the Docker daemon.
-- The SDK is a parameter. Times are left out; whether a run meets its deadline is asked of the world
-- that the run leaves, since the worker thread is never cancelled.
pub mod Verdict
pub mod Cleanup
use self_healing_system_tfg.Base.{
  ℕ, ◌*◌, Bool, true, false, List, [], ◌∷◌, ◌++◌, Option, none, some, ◌==◌, if◌then◌else◌, last_n,
}
use self_healing_system_tfg.Python.Text.{Text, text}
use self_healing_system_tfg.Python.Effects.{
  Exn, message, docker_sandbox, sandbox_timeout, timeout_error, import_error, Outcome, returned,
  raised, World, Py, pure, throw, rescue, finally, ◌>>=◌, ◌>>◌,
}
use self_healing_system_tfg.Python.Platform.{Platform}
use self_healing_system_tfg.Domain.Enums.{
  SandboxVerdict, passed, failed, timeout, infrastructure_error,
}
use self_healing_system_tfg.Domain.Models.{SandboxResult, new_sandbox_result}
use self_healing_system_tfg.Config.{Settings}

-- The arguments of `client.containers.run` that are not constants of the SDK's call.
pub record RunOptions : Type 0 where
  pub image : Text
  pub command : List Text
  pub detach : Bool
  pub network_disabled : Bool
  pub mem_limit : Text
  pub nano_cpus : ℕ
  pub read_only : Bool
  pub cap_drop : List Text
  pub security_opt : List Text
  pub pids_limit : ℕ
  pub host_path : Text
  pub bind : Text
  pub mode : Text
  pub working_dir : Text
  pub auto_remove : Bool

-- The Docker SDK, and the field `_client` of the adapter.
-- `wait` is `container.wait(...).get("StatusCode")`; `none` is a key that is missing.
pub record DockerSdk (E : Type 0) : Type 0 where
  pub has_client : World E → Bool
  pub import_docker : Py E (Unit {0})
  pub from_env : Py E (Unit {0})
  pub run_container : RunOptions → Py E ℕ
  pub wait : ℕ → Py E (Option ℕ)
  pub logs : ℕ → Py E (List ℕ)
  pub remove : ℕ → Py E (Unit {0})
  pub is_late : World E → Bool
  pub decode : List ℕ → Text

-- `_LOG_TAIL_BYTES`
abbrev pub log_tail_bytes : ℕ
log_tail_bytes = 8192

unfoldable pub run_options : Settings → Text → Text → List Text → RunOptions
unfolding text
run_options s workspace image command = record {
  image = image;
  command = command;
  detach = true;
  network_disabled = s.sandbox_network_disabled;
  mem_limit = s.sandbox_mem_limit;
  nano_cpus = s.sandbox_cpu_quota * 10000;
  read_only = false;
  cap_drop = text "ALL" ∷ [];
  security_opt = text "no-new-privileges:true" ∷ [];
  pids_limit = 256;
  host_path = workspace;
  bind = s.sandbox_workdir;
  mode = text "rw";
  working_dir = s.sandbox_workdir;
  auto_remove = false;
}

abbrev status_code : Option ℕ → ℕ
status_code none = 1
status_code (some n) = n

pub record Raw : Type 0 where
  pub verdict : SandboxVerdict
  pub exit_code : ℕ
  pub tail : Text

module _ {E : Type 0} (sdk : DockerSdk E) where
  abbrev except_import_error : Exn → Py E (Unit {0})
  except_import_error (import_error m) =
      throw (docker_sandbox (text "docker SDK is not installed; cannot run sandboxed validations."))
  except_import_error e = throw e

  -- `_ensure_client`
  unfoldable pub ensure_client : Py E (Unit {0})
  unfolding text
  ensure_client w =
      let connect : Py E (Unit {0}) = (do
        rescue sdk.import_docker except_import_error
        rescue sdk.from_env
            (λ _. throw (docker_sandbox (text "Failed to connect to the Docker daemon.")))) in
      if sdk.has_client w then (returned tt, w) else connect w

  -- The sandbox's own errors pass; any other becomes a `DockerSandboxError`.
  abbrev pub as_sandbox_error : {A : Type 0} → Exn → Py E A
  as_sandbox_error (sandbox_timeout m) = throw (sandbox_timeout m)
  as_sandbox_error (docker_sandbox m) = throw (docker_sandbox m)
  as_sandbox_error e = throw (docker_sandbox (text "Sandbox execution failed: " ++ message e))

  -- The outcome of a finished container.
  abbrev pub raw_of : Option ℕ → List ℕ → Raw
  raw_of status logs = record {
    verdict = if status_code status == 0 then passed else failed;
    exit_code = status_code status;
    tail = sdk.decode (last_n log_tail_bytes logs);
  }

  unfoldable pub inspect : ℕ → Py E Raw
  inspect container = do
    status ← sdk.wait container
    logs ← sdk.logs container
    pure (raw_of status logs)

  -- `container.remove(force=True)`, best-effort
  abbrev pub clean_up : ℕ → Py E (Unit {0})
  clean_up container = rescue (sdk.remove container) (λ _. pure tt)

  -- `_run_blocking`: there is nothing to clean up if the container did not start.
  unfoldable pub run_blocking : Settings → Text → Text → List Text → Py E Raw
  unfolding ensure_client run_options inspect text
  run_blocking s workspace image command = do
    ensure_client
    container ← rescue (sdk.run_container (run_options s workspace image command)) as_sandbox_error
    finally (rescue (inspect container) as_sandbox_error) (clean_up container)

  -- `asyncio.wait_for(asyncio.to_thread(body), timeout)`
  unfoldable pub wait_for : {A : Type 0} → Py E A → Py E A
  unfolding text
  wait_for body w =
      let (o, w') = body w in
      if sdk.is_late w' then (raised (timeout_error (text "timed out")), w') else (o, w')

  module _ (p : Platform) where
    unfoldable pub result_of : Raw → SandboxResult
    unfolding new_sandbox_result
    result_of raw = new_sandbox_result p.pydantic_strip raw.verdict (some raw.exit_code) raw.tail

    -- The two `except` clauses of `run_tests`; `SandboxTimeoutError` is a `DockerSandboxError`.
    abbrev pub except_run_error : Exn → Py E SandboxResult
    except_run_error (timeout_error m) = pure (
        new_sandbox_result p.pydantic_strip timeout none
          (text "container exceeded wall-clock timeout"))
    except_run_error (docker_sandbox m) =
        pure (new_sandbox_result p.pydantic_strip infrastructure_error none m)
    except_run_error (sandbox_timeout m) =
        pure (new_sandbox_result p.pydantic_strip infrastructure_error none m)
    except_run_error e = throw e

    -- `DockerSandbox.run_tests`
    unfoldable pub docker_run_tests : Settings → Text → Text → List Text → Py E SandboxResult
    unfolding wait_for run_blocking result_of new_sandbox_result text
    docker_run_tests s workspace image command =
        rescue (do raw ← wait_for (run_blocking s workspace image command); pure (result_of raw))
          except_run_error
