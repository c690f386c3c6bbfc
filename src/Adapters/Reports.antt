-- ===== src/Adapters/Reports.antt =====
-- src/infrastructure/persistence/filesystem_reporter.py: the post-mortem file.
-- `isoformat()` of the timestamps, which the models leave out, is a parameter.
pub mod Names
use self_healing_system_tfg.Base.{
  ℕ, Bool, ◌||◌, List, [], ◌∷◌, ◌++◌, Option, none, some, map, ◌==◌, if◌then◌else◌, take,
}
use self_healing_system_tfg.Python.Text.{Text, text, truthy, strip, rstrip_by, join, str_nat}
use self_healing_system_tfg.Python.Effects.{Py, pure, ◌>>=◌, ◌>>◌}
use self_healing_system_tfg.Python.Files.{write_text}
use self_healing_system_tfg.Python.Paths.{parse_path, path_join, as_posix}
use self_healing_system_tfg.Domain.Enums.{trigger_value, verdict_value}
use self_healing_system_tfg.Domain.Models.{
  CrashReport, FailingTest, Patch, SandboxResult, FailedAttempt, TriggerEvent,
}

-- `_sanitise_filename`, for the characters that `str.isalnum` accepts.
abbrev pub is_safe : (ℕ → Bool) → ℕ → Bool
is_safe alnum c = alnum c || (c == b'-' || c == b'_')

unfoldable pub safe_char : (ℕ → Bool) → ℕ → ℕ
safe_char alnum c = if is_safe alnum c then c else b'_'

unfoldable pub sanitise_filename : (ℕ → Bool) → Text → Text
unfolding safe_char
sanitise_filename alnum raw = take 120 (map (safe_char alnum) raw)

unfoldable pub drop_newlines : Text → Text
unfolding rstrip_by
drop_newlines s = rstrip_by (λ c. c == 10) s

abbrev code_or_none : Option ℕ → Text
code_or_none none = text "None"
code_or_none (some n) = str_nat n

unfoldable pub crash_lines : (CrashReport → Text) → Option CrashReport → List Text
unfolding text
crash_lines captured none = []
crash_lines captured (some r) =
    (text "- **Service:** `" ++ r.service_name ++ text "`")
    ∷ (text "- **Commit SHA:** `" ++ r.commit_sha ++ text "`")
    ∷ (text "- **Captured at:** `" ++ captured r ++ text "`")
    ∷ []

unfoldable pub test_lines : Option FailingTest → List Text
unfolding text
test_lines none = []
test_lines (some t) = (text "- **Failing test:** `" ++ t.node_id ++ text "`") ∷ []

unfoldable pub output_lines : Text → List Text
unfolding text strip drop_newlines
output_lines logs =
    if truthy (strip logs)
    then []
      ∷ text "<details><summary>Sandbox output (tail)</summary>"
      ∷ []
      ∷ text "```"
      ∷ drop_newlines logs
      ∷ text "```"
      ∷ []
      ∷ text "</details>"
      ∷ []
    else []

unfoldable pub sandbox_lines : Option SandboxResult → List Text
unfolding text verdict_value str_nat output_lines
sandbox_lines none = []
sandbox_lines (some r) =
    (text "- **Sandbox verdict:** `" ++ verdict_value r.verdict ++ text "`")
    ∷ (text "- **Sandbox exit code:** `" ++ code_or_none r.exit_code ++ text "`")
    ∷ output_lines r.logs_tail

unfoldable pub patch_lines : Option Patch → List Text
unfolding text drop_newlines
patch_lines none = []
patch_lines (some patch) =
    []
    ∷ text "<details><summary>Attempted patch</summary>"
    ∷ []
    ∷ text "```diff"
    ∷ drop_newlines patch.diff_text
    ∷ text "```"
    ∷ []
    ∷ text "</details>"
    ∷ []

unfoldable pub attempt_lines : (FailedAttempt → Text) → List FailedAttempt → List Text
unfolding text str_nat sandbox_lines patch_lines
attempt_lines recorded [] = []
attempt_lines recorded (a ∷ as_) =
    (text "### Attempt #" ++ str_nat a.attempt_index)
      ∷ (text "- **Recorded at:** `" ++ recorded a ++ text "`")
      ∷ (text "- **Error summary:** " ++ a.error_summary)
      ∷ sandbox_lines a.sandbox_result
    ++ patch_lines a.patch
    ++ [] ∷ attempt_lines recorded as_

unfoldable pub summary_lines : Text → List Text
unfolding text strip
summary_lines narrative =
    if truthy (strip narrative) then text "## Summary" ∷ [] ∷ strip narrative ∷ [] ∷ [] else []

-- `_render_markdown`
unfoldable pub render_markdown :
    (CrashReport → Text)
    → (FailedAttempt → Text)
    → Text
    → TriggerEvent
    → List FailedAttempt
    → Text
    → Text
unfolding text join summary_lines trigger_value crash_lines test_lines attempt_lines
render_markdown captured recorded incident_id trigger attempts narrative =
    join (10 ∷ []) (
      (text "# Post-Mortem: incident `" ++ incident_id ++ text "`") ∷ [] ∷ summary_lines narrative
      ++ (text "- **Trigger type:** `" ++ trigger_value trigger.trigger_type ++ text "`")
        ∷ crash_lines captured trigger.crash_report
      ++ test_lines trigger.failing_test
      ++ [] ∷ text "## Attempts" ∷ [] ∷ attempt_lines recorded attempts)
    ++ (10 ∷ [])

-- `self._settings.reports_dir / f"bug_report_{sanitised_id}.md"`
unfoldable pub report_path : (ℕ → Bool) → Text → Text → Text
unfolding parse_path path_join as_posix text sanitise_filename
report_path alnum reports_dir incident_id = as_posix (
    path_join (parse_path reports_dir)
      (parse_path (text "bug_report_" ++ sanitise_filename alnum incident_id ++ text ".md")))

-- `FilesystemReporter.write_post_mortem`
module _ {E : Type 0} (alnum : ℕ → Bool) (captured : CrashReport → Text)
    (recorded : FailedAttempt → Text) (reports_dir : Text) where
  unfoldable pub file_post_mortem :
      Text → TriggerEvent → List FailedAttempt → (narrative : Text) → Py E Text
  unfolding report_path write_text render_markdown
  file_post_mortem incident_id trigger attempts narrative = do
    write_text (report_path alnum reports_dir incident_id)
        (render_markdown captured recorded incident_id trigger attempts narrative)
    pure (report_path alnum reports_dir incident_id)
