-- ===== src/Agents/Swe.antt =====
-- src/agents/swe_agent_dev.py: the Corrector, on mini-swe-agent, `git` and `docker`, which are
-- parameters. This file holds what it computes: arguments, the task and the trajectory's tail.
pub mod Tail
pub mod Run
pub mod Cleanup
pub mod Outcomes
pub mod Containers
use self_healing_system_tfg.Base.{
  ℕ, suc, ◌+◌, ◌-◌, ◌*◌, Bool, true, false, ◌&&◌, ◌||◌, not, List, [], ◌∷◌, ◌++◌, Option, none,
  some, leb, ltb, ◌==◌, if◌then◌else◌, length, take, drop,
}
use self_healing_system_tfg.Python.Text.{Text, text, truthy, strip, join, replace_char, str_nat}
use self_healing_system_tfg.Python.Effects.{Py, pure, ◌>>=◌}
use self_healing_system_tfg.Python.Regex.{Unicode, word_char, ascii_alpha}
use self_healing_system_tfg.Python.Paths.{PurePath}
use self_healing_system_tfg.Domain.Models.{FixContext}
use self_healing_system_tfg.Agents.Focus.{reversed, render_focus_block, default_intro}

-- The fields that `MiniSWEFixer.__init__` stores; `step_limit` is `max(0, step_limit)`.
pub record MiniSweFixer : Type 0 where
  pub model_name : Text
  pub workspace : Text
  pub container_workdir : Text
  pub python_executable : Text
  pub cost_limit : Text
  pub timeout : Text
  pub step_limit : ℕ
  pub trajectory_dir : Option Text
  pub use_docker : Bool
  pub docker_image : Text

-- `_docker_run_args`
unfoldable pub docker_run_args : Bool → Text → Text → List Text
unfolding text
docker_run_args on_windows docker_path workdir =
    (text "--rm" ∷ text "-v" ∷ (docker_path ++ text ":" ++ workdir) ∷ [])
    ++ (if on_windows
        then text "--add-host" ∷ text "host.docker.internal:host-gateway" ∷ []
        else [])

-- `c.lower()` for an ASCII letter.
abbrev lower_letter : ℕ → ℕ
lower_letter c = if leb b'A' c && leb c b'Z' then c + 32 else c

-- `C:/…` becomes `/c/…`, by the pattern `^([A-Za-z]):[/\\]`.
unfoldable pub without_drive : Text → Text
unfolding ascii_alpha
without_drive (c ∷ d ∷ e ∷ rest) =
    if ascii_alpha c && d == b':' && (e == b'/' || e == b'\\')
    then b'/' ∷ lower_letter c ∷ b'/' ∷ rest
    else c ∷ d ∷ e ∷ rest
without_drive path = path

-- `_to_docker_volume_path`
unfoldable pub to_docker_volume_path : Bool → Text → Text
unfolding without_drive replace_char
to_docker_volume_path on_windows host_path =
    if on_windows then without_drive (replace_char b'\\' b'/' host_path) else host_path

-- `f"### Attempt {i + 1}\n…"` for each earlier attempt.
unfoldable pub attempt_parts : ℕ → List Text → Text
unfolding str_nat text
attempt_parts i [] = []
attempt_parts i (summary ∷ summaries) =
    text "### Attempt "
    ++ str_nat (i + 1)
    ++ text "\n```\n"
    ++ summary
    ++ text "\n```\n\n"
    ++ attempt_parts (i + 1) summaries

abbrev previous_part : List Text → Text
previous_part [] = []
previous_part (summary ∷ summaries) =
    text "\n## Previous failed attempts\n"
    ++ text "Earlier iterations of this same fix already failed.  The raw\n"
    ++ text "output of each is below; use it to diagnose what went wrong\n"
    ++ text "instead of repeating the same edit.\n\n"
    ++ attempt_parts 0 (summary ∷ summaries)

abbrev reproduce_of : List Text → Text
reproduce_of command = if truthy command then join (text " ") command else text "python main.py"

-- An optional text that is empty counts as none.
abbrev pub given_node : Option Text → Option Text
given_node none = none
given_node (some node_id) = if truthy node_id then some node_id else none

-- The command that decides success, and the task's first sentence.
abbrev success_command : MiniSweFixer → FixContext → Text
success_command f context = elim (given_node context.reproducer_node_id) [
  | none ↦ reproduce_of context.reproduce_cmd
  | some node_id ↦ f.python_executable ++ text " -m pytest " ++ node_id ++ text " -x --tb=short"
]

abbrev opening_part : FixContext → Text
opening_part context = elim (given_node context.reproducer_node_id) [
  | none ↦
      text "The command `"
      ++ reproduce_of context.reproduce_cmd
      ++ text "` crashes in this repository.\n\n"
  | some node_id ↦
      text "A pytest test is currently failing in this repository:\n  " ++ node_id ++ text "\n\n"
]

-- `_build_task`: the parts, joined.
unfoldable pub build_task :
    {E : Type 0} → Unicode → (PurePath → Option PurePath) → MiniSweFixer → FixContext → Py E Text
unfolding render_focus_block default_intro attempt_parts join text
build_task u resolve f context = do
  focus ←
      render_focus_block u resolve f.workspace context.failure_output context.reproducer_node_id
        default_intro
  let success_cmd = success_command f context
  pure (
      opening_part context
      ++ text "## Failure output\n```\n"
      ++ context.failure_output
      ++ text "\n```\n\n"
      ++ focus
      ++ text "## Success criterion\nMake `"
      ++ success_cmd
      ++ text "` exit with code 0 by editing production\n"
      ++ text "source files.  Make the SMALLEST change that clears the error.\n"
      ++ text "Do NOT write or modify any test files — immunization is handled\n"
      ++ text "separately by another agent.\n\n"
      ++ text "DO NOT submit the task (do not issue\n"
      ++ text "`echo COMPLETE_TASK_AND_SUBMIT_FINAL_OUTPUT`) until you have\n"
      ++ text "actually run `"
      ++ success_cmd
      ++ text "` in the shell and seen it exit with\ncode 0.  Reading files is not a fix.\n"
      ++ previous_part context.previous_attempts)

-- A message of the agent's log: `msg.get("role")`, and `str(msg.get("content", ""))`.
pub record AgentMessage : Type 0 where
  pub role : Option Text
  pub content : Text

-- `_TRAJECTORY_TAIL_BYTES`
abbrev pub trajectory_tail_bytes : ℕ
trajectory_tail_bytes = 2048

abbrev role_or_mark : Option Text → Text
role_or_mark none = text "?"
role_or_mark (some role) = role

unfoldable pub chunk_of : AgentMessage → Text
unfolding strip text
chunk_of m = text "[" ++ role_or_mark m.role ++ text "]\n" ++ strip m.content ++ text "\n"

-- The loop over the messages, newest first, with the budget that is left.
unfoldable pub tail_chunks : ℕ → List AgentMessage → List Text
unfolding chunk_of text
tail_chunks budget [] = []
tail_chunks budget (m ∷ ms) =
    let chunk = chunk_of m in
    let rest = tail_chunks (budget - length chunk) ms in
    if ltb budget (length chunk)
    then (take budget chunk ++ text "\n... (truncated)\n") ∷ []
    else chunk ∷ rest

-- `_format_trajectory_tail`
unfoldable pub format_trajectory_tail : List AgentMessage → Text
unfolding tail_chunks join text
format_trajectory_tail messages =
    join (text "\n") (reversed (tail_chunks trajectory_tail_bytes (reversed messages)))

-- `re.sub(r"[^\w.-]", "_", incident_id)[:80]`
unfoldable pub safe_name : Unicode → Text → Text
unfolding word_char
safe_name u [] = []
safe_name u (c ∷ s) =
    let kept = word_char u c || (c == b'.' || c == b'-') in
    (if kept then c else b'_') ∷ safe_name u s
