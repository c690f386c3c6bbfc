-- ===== src/Scripts/Main.antt =====
-- src/main.py: the dependencies of both modes, the demo and the exit code of the command. The offline
-- collaborators, in an environment that holds their scripts, are a parameter, and so is a temporary
-- directory. Logging is left out.
use self_healing_system_tfg.Base.{
  ◌⊎◌, ℕ, ◌≡◌, true, ◌||◌, [], ◌++◌, none, some, if◌then◌else◌, take, Bool-cases, inl, inr, arith,
}
use self_healing_system_tfg.Python.Text.{Text, text, text_eq}
use self_healing_system_tfg.Python.Effects.{
  Exn, value_error, returned, World, Py, pure, throw, rescue, ◌>>=◌, ◌>>◌,
}
use self_healing_system_tfg.Python.Effects.Raises.{
  RaisesOnly, IsOsError, raises_returned, resume-RaisesOnly, weaken-RaisesOnly,
}
use self_healing_system_tfg.Domain.Enums.{production_crash}
use self_healing_system_tfg.Domain.Models.{CrashReport, new_crash_report, new_trigger}
use self_healing_system_tfg.Domain.State.{HealingState}
use self_healing_system_tfg.Config.{Settings, Reading, load_settings, is_admitted}
use self_healing_system_tfg.Config.Bounds.{load_settings_admitted}
use self_healing_system_tfg.Ports.{Dependencies}
use self_healing_system_tfg.Agents.Swe.Run.{verify_install}
use self_healing_system_tfg.Adapters.Real.{real_dependencies}
use self_healing_system_tfg.Observability.Ports.{instrument_dependencies}
use self_healing_system_tfg.Scripts.Machine.{except_runtime}
use self_healing_system_tfg.Scripts.Session.{
  Rig, new_state, new_reporter, default_recursion_limit, run_session,
}
use self_healing_system_tfg.Scripts.Benchmark.{trigger_or_raise}

-- The crash of `_build_initial_state`.
unfoldable pub demo_crash : (Text → Text) → Text → CrashReport
unfolding new_crash_report text
demo_crash pydantic_strip hex =
    new_crash_report pydantic_strip (text "demo-" ++ take 8 hex) (text "billing-api")
      (text "Traceback (most recent call last):\n"
        ++ text "  File \"src/billing.py\", line 42, in compute_total\n"
        ++ text "    return sum(items)\n"
        ++ text "TypeError: unsupported operand type(s) for +: 'int' and 'str'\n")
      (text "0123456789abcdef")

known_mode :
    (r : Reading) (s : Settings)
    → is_admitted r s ≡ true
    → (text_eq s.agent_mode (text "mock") || text_eq s.agent_mode (text "real")) ≡ true
unfolding is_admitted
known_mode r s h = ground arith

module _ {E : Type 0} (rig : Rig E) (mock : Settings → Dependencies E) where
  -- The collaborators by the mode; the constructor of the Corrector looks for mini-swe-agent.
  unfoldable pub wired : Settings → Text → Py E (Dependencies E)
  unfolding verify_install real_dependencies text text_eq
  wired settings workspace =
      let real : Py E (Dependencies E) = (do
        verify_install rig.outside.swe
        pure (real_dependencies rig.platform rig.outside settings workspace)) in
      if text_eq settings.agent_mode (text "mock")
      then pure (mock settings)
      else if text_eq settings.agent_mode (text "real")
      then real
      else throw (
          value_error
            (text "Unknown agent_mode: " ++ settings.agent_mode ++ text ". Use 'mock' or 'real'."))

  -- `_build_dependencies`; the constructor of the writer of reports makes its directory.
  unfoldable pub build_dependencies : Settings → Text → Py E (Dependencies E)
  unfolding wired new_reporter instrument_dependencies
  build_dependencies settings workspace = do
    deps ← wired settings workspace
    new_reporter rig settings
    pure (instrument_dependencies rig.telemetry deps)

  -- `_build_initial_state`
  unfoldable pub build_initial_state : Text → Py E HealingState
  unfolding demo_crash new_trigger new_state
  build_initial_state workspace = do
    hex ← rig.machine.uuid_hex
    trigger ←
        trigger_or_raise
          (new_trigger production_crash (some (demo_crash rig.platform.pydantic_strip hex)) none)
    pure (new_state trigger workspace [] [] none)

  -- `run_demo`
  unfoldable pub run_demo : Text → Py E HealingState
  unfolding load_settings build_dependencies build_initial_state run_session
  run_demo workspace = do
    settings ← load_settings rig.reading rig.machine.getenv rig.reports_dir
    deps ← build_dependencies settings workspace
    state ← build_initial_state workspace
    rig.machine.uuid_hex
    run_session rig deps default_recursion_limit state

  -- `main`; `in_temp_dir` runs a block in a temporary directory.
  unfoldable pub main : ((Text → Py E HealingState) → Py E HealingState) → Py E ℕ
  unfolding load_settings run_demo
  main in_temp_dir = do
    load_settings rig.reading rig.machine.getenv rig.reports_dir
    rescue
        (do
          in_temp_dir (λ tmp. do workspace ← rig.machine.resolve_path tmp; run_demo workspace)
          pure 0)
        (except_runtime (pure 1))

  wired-RaisesOnly :
      (Q : Exn → Type 0) (s : Settings) (workspace : Text) (w w' v : World E)
      → load_settings rig.reading rig.machine.getenv rig.reports_dir w ≡ (returned s, w')
      → RaisesOnly Q (verify_install rig.outside.swe v)
      → RaisesOnly Q (wired s workspace v)
  unfolding wired
  wired-RaisesOnly Q s workspace w w' v loaded known =
      let admitted =
        load_settings_admitted rig.reading rig.machine.getenv rig.reports_dir w w' s loaded in
      elim (Bool-cases (text_eq s.agent_mode (text "mock"))) [
        | inl offline ↦ rw offline (raises_returned _ _ v)
        | inr other_mode ↦
            let is_real : text_eq s.agent_mode (text "real") ≡ true =
              (rw other_mode at (known_mode rig.reading s admitted)) in
            rw (other_mode, is_real) (resume-RaisesOnly _ _ _ known λ _ w1. raises_returned _ _ w1)
      ]

  -- The refusal of an unknown mode is never reached with settings that were loaded: what the wiring raises
  -- then is what the look for mini-swe-agent raises, or an `OSError` of making the directory of the
  -- reports; if making a directory raises nothing else.
  pub build_dependencies-RaisesOnly :
      (Q : Exn → Type 0) (s : Settings) (workspace : Text) (w w' v : World E)
      → load_settings rig.reading rig.machine.getenv rig.reports_dir w ≡ (returned s, w')
      → RaisesOnly Q (verify_install rig.outside.swe v)
      → ((u : World E) → RaisesOnly IsOsError (rig.machine.make_dirs s.reports_dir u))
      → RaisesOnly (λ e. Q e ⊎ IsOsError e) (build_dependencies s workspace v)
  unfolding build_dependencies new_reporter
  build_dependencies-RaisesOnly Q s workspace w w' v loaded known makes =
      resume-RaisesOnly _ _ _
        (weaken-RaisesOnly _ _ _ (wired-RaisesOnly Q s workspace w w' v loaded known) λ e h. inl h)
        λ deps w1.
          resume-RaisesOnly _ _ _ (weaken-RaisesOnly _ _ _ (makes w1) λ e h. inr h)
            λ _ w2. raises_returned _ _ w2
