-- ===== src/Adapters/Docker/Verdict.antt =====
-- What the verdicts of the Docker sandbox mean, and which exceptions leave it.
use self_healing_system_tfg.Base.{ℕ, ◌≡◌, ◌↔◌, true, List, Option, none, some, arith}
use self_healing_system_tfg.Python.Text.{Text}
use self_healing_system_tfg.Python.Effects.{
  Exn, import_error, docker_sandbox, sandbox_timeout, timeout_error, returned, World,
}
use self_healing_system_tfg.Python.Effects.Ends.{
  EndsAt, ends_returned, ends_raised, resume-EndsAt, resume-EndsAt_of, handled-EndsAt,
  finished-EndsAt, if-EndsAt, EndsAt-elim,
}
use self_healing_system_tfg.Python.Effects.Raises.{
  RaisesOnly, Never, raises_returned, raises_raised, handled-RaisesOnly, handled_all-RaisesOnly,
  if-RaisesOnly, finished-RaisesOnly, resume-RaisesOnly, weaken-RaisesOnly, Never-returns,
}
use self_healing_system_tfg.Python.Platform.{Platform}
use self_healing_system_tfg.Domain.Models.{SandboxResult, new_sandbox_result}
use self_healing_system_tfg.Config.{Settings}
use self_healing_system_tfg.Orchestrator.Routers.{is_passed}
use self_healing_system_tfg.Adapters.Docker.{
  DockerSdk, raw_of, ensure_client, except_import_error, as_sandbox_error, inspect, run_blocking,
  wait_for, result_of, except_run_error, docker_run_tests,
}

abbrev pub IsImportError : Exn → Type 0
IsImportError (import_error m) = Unit
IsImportError _ = ⊥

abbrev IsSandboxError : Exn → Type 0
IsSandboxError (docker_sandbox m) = Unit
IsSandboxError (sandbox_timeout m) = Unit
IsSandboxError _ = ⊥

-- A run passed exactly if its container's exit code is 0.
abbrev pub IsHonest : SandboxResult → Type 0
IsHonest r = (is_passed r.verdict ≡ true) ↔ (r.exit_code ≡ some 0)

module _ {E : Type 0} (sdk : DockerSdk E)
    (imports : (w : World E) → RaisesOnly IsImportError (sdk.import_docker w)) where
  import_handler :
      (e : Exn) (w : World E)
      → IsImportError e
      → RaisesOnly IsSandboxError (except_import_error sdk e w)
  import_handler (import_error m) w h = raises_raised _ _ _ w tt
  import_handler e w h = absurd h

  client-RaisesOnly : (w : World E) → RaisesOnly IsSandboxError (ensure_client sdk w)
  unfolding ensure_client
  client-RaisesOnly w = if-RaisesOnly _ (sdk.has_client w) _ _ (raises_returned _ _ w) (
      resume-RaisesOnly _ _ _ (handled-RaisesOnly IsImportError _ _ _ (imports w) import_handler)
        λ _ w1. handled_all-RaisesOnly _ _ _ λ e w2. raises_raised _ _ _ w2 tt)

  as_sandbox_error-RaisesOnly :
      (A : Type 0) (e : Exn) (w : World E)
      → RaisesOnly IsSandboxError (as_sandbox_error sdk {A = A} e w)
  as_sandbox_error-RaisesOnly A (sandbox_timeout m) w = raises_raised _ _ _ w tt
  as_sandbox_error-RaisesOnly A e w = raises_raised _ _ _ w tt

  run-RaisesOnly :
      (s : Settings) (workspace image : Text) (command : List Text) (w : World E)
      → RaisesOnly IsSandboxError (run_blocking sdk s workspace image command w)
  unfolding run_blocking
  run-RaisesOnly s workspace image command w = resume-RaisesOnly _ _ _ (client-RaisesOnly w) λ _ w1.
      resume-RaisesOnly _ _ _ (handled_all-RaisesOnly _ _ _ (as_sandbox_error-RaisesOnly _))
        λ container w2.
          finished-RaisesOnly _ _ _ (handled_all-RaisesOnly _ _ _ (as_sandbox_error-RaisesOnly _))
            λ w3. handled_all-RaisesOnly _ _ _ λ e w4. raises_returned _ _ w4

  abbrev IsRunError : Exn → Type 0
  IsRunError (timeout_error m) = Unit
  IsRunError e = IsSandboxError e

  run_error : (e : Exn) → IsSandboxError e → IsRunError e
  run_error (docker_sandbox m) h = tt
  run_error (sandbox_timeout m) h = tt
  run_error e h = absurd h

  module _ (p : Platform) (s : Settings) (workspace image : Text) (command : List Text) where
    run_handler :
        (e : Exn) (w : World E) → IsRunError e → RaisesOnly Never (except_run_error sdk p e w)
    run_handler (timeout_error m) w h = raises_returned _ _ w
    run_handler (docker_sandbox m) w h = raises_returned _ _ w
    run_handler (sandbox_timeout m) w h = raises_returned _ _ w
    run_handler e w h = absurd h

    pub docker_run-RaisesOnly :
        (w : World E) → RaisesOnly Never (docker_run_tests sdk p s workspace image command w)
    unfolding docker_run_tests wait_for
    docker_run-RaisesOnly w =
        handled-RaisesOnly IsRunError _ _ _
          (resume-RaisesOnly _ _ _
            (if-RaisesOnly _ (sdk.is_late _) _ _ (raises_raised _ _ _ _ tt)
              (weaken-RaisesOnly _ _ _ (run-RaisesOnly s workspace image command w) run_error))
            λ raw w1. raises_returned _ _ w1)
          run_handler

    raw-IsHonest :
        (status : Option ℕ) (logs : List ℕ) → IsHonest (result_of sdk p (raw_of sdk status logs))
    unfolding result_of
    raw-IsHonest none logs = ground arith
    raw-IsHonest (some n) logs = ground arith

    inspect-EndsAt :
        (container : ℕ) (w : World E)
        → EndsAt (λ raw. IsHonest (result_of sdk p raw)) (inspect sdk container w)
    unfolding inspect
    inspect-EndsAt container w =
        resume-EndsAt _ _ _ λ status w1.
          resume-EndsAt _ _ _ λ logs w2. ends_returned _ _ w2 (raw-IsHonest status logs)

    not_returned :
        (A : Type 0) (P : A → Type 0) (e : Exn) (w : World E)
        → EndsAt P (as_sandbox_error sdk {A = A} e w)
    not_returned A P (sandbox_timeout m) w = ends_raised _ _ w
    not_returned A P e w = ends_raised _ _ w

    run-EndsAt :
        (w : World E)
        → EndsAt
            (λ raw. IsHonest (result_of sdk p raw))
            (run_blocking sdk s workspace image command w)
    unfolding run_blocking
    run-EndsAt w = resume-EndsAt _ _ _ λ _ w1. resume-EndsAt _ _ _ λ container w2.
        finished-EndsAt _ _ _
          (handled-EndsAt _ _ _ (inspect-EndsAt container w2) (not_returned _ _))

    handler-IsHonest : (e : Exn) (w : World E) → EndsAt IsHonest (except_run_error sdk p e w)
    unfolding new_sandbox_result
    handler-IsHonest (timeout_error m) w = ends_returned _ _ w (ground arith)
    handler-IsHonest (docker_sandbox m) w = ends_returned _ _ w (ground arith)
    handler-IsHonest (sandbox_timeout m) w = ends_returned _ _ w (ground arith)
    handler-IsHonest e w = ends_raised _ _ w

    docker_run-EndsAt :
        (w : World E) → EndsAt IsHonest (docker_run_tests sdk p s workspace image command w)
    unfolding docker_run_tests wait_for
    docker_run-EndsAt w =
        handled-EndsAt _ _ _
          (resume-EndsAt_of _ _ _ _
            (if-EndsAt _ (sdk.is_late _) _ _ (ends_raised _ _ _) (run-EndsAt w))
            λ raw w1 honest. ends_returned _ _ w1 honest)
          handler-IsHonest

    -- Whatever the daemon does, a run of the Docker sandbox returns a result, and the result's verdict
    -- is `passed` exactly if its exit code is 0; if importing the SDK raises `ImportError` only.
    pub docker_run_returns :
        (w : World E)
        → (result : SandboxResult) × (w' : World E) × (docker_run_tests sdk p s workspace image
              command w
            ≡ (returned result, w'))
          × IsHonest result
    docker_run_returns w =
        let (result, w', ran) = Never-returns _ (docker_run-RaisesOnly w) in
        (result, w', ran, EndsAt-elim _ (docker_run-EndsAt w) ran)
