-- ===== src/Config.antt =====
-- src/config/settings.py: the settings, and how they are read from the environment.
-- A number with a fraction is kept as the text that it is read from: only `float` and the test
-- `> 0` are applied to it. `int`, `float`, the test and `Path.resolve` are parameters.
pub mod Bounds
use self_healing_system_tfg.Base.{
  ℕ, Bool, true, false, not, ◌&&◌, ◌||◌, [], ◌∷◌, List, Option, none, some, leb, any, if◌then◌else◌,
}
use self_healing_system_tfg.Python.Text.{Text, text, text_eq, strip}
use self_healing_system_tfg.Python.Effects.{value_error, Py, pure, throw, ◌>>=◌}

pub record Settings : Type 0 where
  pub agent_mode : Text
  pub max_retries : ℕ
  pub error_cycle_budget : ℕ
  pub sandbox_image : Text
  pub sandbox_workdir : Text
  pub sandbox_python : Text
  pub sandbox_mem_limit : Text
  pub sandbox_cpu_quota : ℕ
  pub sandbox_timeout_seconds : Text
  pub sandbox_network_disabled : Bool
  pub git_author_name : Text
  pub git_author_email : Text
  pub reports_dir : Text
  pub log_level : Text
  pub log_json : Bool
  pub llm_model : Text
  pub sweagent_cost_limit : Text
  pub sweagent_timeout_seconds : Text
  pub sweagent_step_limit : ℕ
  pub sweagent_trajectory_dir : Text
  pub sweagent_use_docker : Bool
  pub sweagent_docker_image : Text
  pub tester_timeout_seconds : Text

-- `int(val)`: a `ValueError`, or an integer.
pub data ReadInt : Type 0 where
  malformed negative : ReadInt
  natural : ℕ → ReadInt

pub record Reading : Type 0 where
  pub read_int : Text → ReadInt
  pub is_float : Text → Bool
  pub is_positive : Text → Bool
  pub lower : Text → Text
  pub resolve : Text → Text

-- The defaults of the fields; the reports' directory is resolved when the module is loaded.
abbrev pub defaults : Text → Settings
defaults reports_dir = record {
  agent_mode = text "mock";
  max_retries = 3;
  error_cycle_budget = 5;
  sandbox_image = text "self-healing-sandbox:latest";
  sandbox_workdir = text "/workspace";
  sandbox_python = text "python";
  sandbox_mem_limit = text "512m";
  sandbox_cpu_quota = 50000;
  sandbox_timeout_seconds = text "60.0";
  sandbox_network_disabled = true;
  git_author_name = text "self-healing-bot";
  git_author_email = text "self-healing-bot@urv.cat";
  reports_dir = reports_dir;
  log_level = text "INFO";
  log_json = true;
  llm_model = text "claude-sonnet-4-20250514";
  sweagent_cost_limit = text "3.0";
  sweagent_timeout_seconds = text "300.0";
  sweagent_step_limit = 0;
  sweagent_trajectory_dir = [];
  sweagent_use_docker = true;
  sweagent_docker_image = text "python:3.12-slim";
  tester_timeout_seconds = text "180.0";
}

module _ (r : Reading) where
  -- `val.lower() in {"1", "true", "yes"}`
  unfoldable pub is_yes : Text → Bool
  unfolding text text_eq
  is_yes val = any (text_eq (r.lower val)) (text "1" ∷ text "true" ∷ text "yes" ∷ [])

  -- What the fields' constraints say.
  unfoldable pub is_admitted : Settings → Bool
  unfolding text text_eq
  is_admitted s =
      (text_eq s.agent_mode (text "mock") || text_eq s.agent_mode (text "real"))
      && leb 1 s.max_retries
      && leb s.max_retries 20
      && leb 1 s.error_cycle_budget
      && leb s.error_cycle_budget 50
      && leb 1 s.sandbox_cpu_quota
      && r.is_positive s.sandbox_timeout_seconds
      && r.is_positive s.sweagent_cost_limit
      && r.is_positive s.sweagent_timeout_seconds
      && r.is_positive s.tester_timeout_seconds

  module _ {E : Type 0} where
    abbrev pub with_text : Option Text → (Text → Settings) → Settings → Py E Settings
    with_text none set s = pure s
    with_text (some val) set s = pure (set val)

    -- A negative integer is refused at once: no field admits one.
    abbrev set_int : ReadInt → (ℕ → Settings) → Py E Settings
    set_int (natural n) set = pure (set n)
    set_int _ set = throw (value_error [])

    abbrev pub with_int : Option Text → (ℕ → Settings) → Settings → Py E Settings
    with_int none set s = pure s
    with_int (some val) set s = set_int (r.read_int val) set

    abbrev pub with_float : Option Text → (Text → Settings) → Settings → Py E Settings
    with_float none set s = pure s
    with_float (some val) set s = if r.is_float val then pure (set val) else throw (value_error [])

    -- `Settings(**overrides)`
    abbrev pub validated : Settings → Py E Settings
    validated s = if is_admitted s then pure s else throw (value_error [])

    -- `load_settings`, over `os.getenv`.
    unfoldable pub load_settings : (Text → Option Text) → Text → Py E Settings
    unfolding text strip is_yes is_admitted
    load_settings getenv reports_dir = do
      let s0 = defaults reports_dir
      s1 ← with_text (getenv (text "CDD_AGENT_MODE")) (λ v. record s0 { agent_mode = v }) s0
      s2 ← with_int (getenv (text "CDD_MAX_RETRIES")) (λ n. record s1 { max_retries = n }) s1
      s3 ←
          with_int (getenv (text "CDD_ERROR_CYCLE_BUDGET"))
            (λ n. record s2 { error_cycle_budget = n }) s2
      s4 ← with_text (getenv (text "CDD_SANDBOX_IMAGE")) (λ v. record s3 { sandbox_image = v }) s3
      s5 ←
          with_float (getenv (text "CDD_SANDBOX_TIMEOUT"))
            (λ v. record s4 { sandbox_timeout_seconds = v }) s4
      s6 ←
          with_text (getenv (text "CDD_SANDBOX_WORKDIR")) (λ v. record s5 { sandbox_workdir = v })
            s5
      s7 ← with_text (getenv (text "CDD_SANDBOX_PYTHON")) (λ v. record s6 { sandbox_python = v }) s6
      s8 ←
          with_text (getenv (text "CDD_SANDBOX_ALLOW_NETWORK"))
            (λ v. record s7 { sandbox_network_disabled = not (is_yes v) }) s7
      s9 ←
          with_text (getenv (text "CDD_REPORTS_DIR")) (λ v. record s8 { reports_dir = r.resolve v })
            s8
      s10 ← with_text (getenv (text "CDD_LOG_LEVEL")) (λ v. record s9 { log_level = v }) s9
      s11 ← with_text (getenv (text "CDD_LOG_JSON")) (λ v. record s10 { log_json = is_yes v }) s10
      s12 ← with_text (getenv (text "CDD_LLM_MODEL")) (λ v. record s11 { llm_model = strip v }) s11
      s13 ←
          with_float (getenv (text "CDD_SWEAGENT_COST_LIMIT"))
            (λ v. record s12 { sweagent_cost_limit = v }) s12
      s14 ←
          with_float (getenv (text "CDD_SWEAGENT_TIMEOUT"))
            (λ v. record s13 { sweagent_timeout_seconds = v }) s13
      s15 ←
          with_int (getenv (text "CDD_SWEAGENT_STEP_LIMIT"))
            (λ n. record s14 { sweagent_step_limit = n }) s14
      s16 ←
          with_text (getenv (text "CDD_SWEAGENT_TRAJECTORY_DIR"))
            (λ v. record s15 { sweagent_trajectory_dir = v }) s15
      s17 ←
          with_text (getenv (text "CDD_SWEAGENT_USE_DOCKER"))
            (λ v. record s16 { sweagent_use_docker = is_yes v }) s16
      s18 ←
          with_text (getenv (text "CDD_SWEAGENT_DOCKER_IMAGE"))
            (λ v. record s17 { sweagent_docker_image = v }) s17
      s19 ←
          with_float (getenv (text "CDD_TESTER_TIMEOUT"))
            (λ v. record s18 { tester_timeout_seconds = v }) s18
      validated s19
