-- ===== src/Scripts/Benchmark/Report.antt =====
-- scripts/run_benchmark.py: the row of a branch, and the Markdown report.
use self_healing_system_tfg.Base.{
  ℕ, suc, Bool, false, List, [], ◌∷◌, ◌++◌, Option, none, some, if◌then◌else◌, take, length,
}
use self_healing_system_tfg.Python.Text.{Text, text, truthy, join, str_nat}

-- The result of a branch, without its telemetry.
pub record BranchRow : Type 0 where
  pub branch : Text
  pub resolved : Bool
  pub attempts : ℕ
  pub duration : Text
  pub error : Option Text
  pub pr_url : Option Text

unfoldable pub new_row : Text → BranchRow
unfolding text
new_row branch = record {
  branch = branch;
  resolved = false;
  attempts = 0;
  duration = text "0.0";
  error = none;
  pr_url = none;
}

-- The lines of the Markdown report.
unfoldable pub report_row : BranchRow → Text
unfolding str_nat text
report_row r =
    text "| "
    ++ r.branch
    ++ text " | "
    ++ (if r.resolved then text "✅" else text "❌")
    ++ text " | "
    ++ str_nat r.attempts
    ++ text " | "
    ++ r.duration
    ++ text " | "
    ++ elim r.pr_url [
      | none ↦ text "—"
      | some url ↦ if truthy url then text "[PR](" ++ url ++ text ")" else text "—"
    ]
    ++ text " | "
    ++ take 80 (elim r.error [ none ↦ text "—" | some e ↦ if truthy e then e else text "—" ])
    ++ text " |"

unfoldable pub report_rows : List BranchRow → List Text
unfolding report_row
report_rows [] = []
report_rows (r ∷ rs) = report_row r ∷ report_rows rs

unfoldable pub resolved_count : List BranchRow → ℕ
resolved_count [] = 0
resolved_count (r ∷ rs) = let n = resolved_count rs in if r.resolved then suc n else n

unfoldable pub report_text : Text → List BranchRow → Text
unfolding report_rows resolved_count join str_nat text
report_text stamp rows = join (text "\n") (
    (text "# Benchmark Report — " ++ stamp ++ text "\n")
      ∷ []
      ∷ text "| Branch | Resolved | Attempts | Duration (s) | PR | Error |"
      ∷ text "|--------|----------|----------|-------------|----|-------|"
      ∷ report_rows rows
    ++ []
      ∷ (text "**Total: "
          ++ str_nat (length rows)
          ++ text " branches, "
          ++ str_nat (resolved_count rows)
          ++ text " resolved.**\n")
      ∷ [])
