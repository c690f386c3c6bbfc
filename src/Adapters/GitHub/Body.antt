-- ===== src/Adapters/GitHub/Body.antt =====
-- src/infrastructure/github/github_adapter.py: the body of a pull request.
use self_healing_system_tfg.Base.{ℕ, List, [], ◌∷◌, ◌++◌, Option, none, some, if◌then◌else◌, length}
use self_healing_system_tfg.Python.Text.{Text, text, truthy, join, str_nat}
use self_healing_system_tfg.Domain.Signature.{signature_text}
use self_healing_system_tfg.Domain.Models.{ResolvedError}

-- Token and call counts, with the cost in dollars as it is printed with four decimals.
pub record Bucket : Type 0 where
  pub cost_usd : Text
  pub prompt_tokens : ℕ
  pub completion_tokens : ℕ
  pub calls : ℕ

-- `telemetry["llm"]`
pub record LlmUsage : Type 0 where
  pub total : Bucket
  pub by_agent : List (Text × Bucket)

unfoldable pub bullets : List Text → List Text
unfolding text
bullets [] = []
bullets (s ∷ subjects) = (text "- " ++ s) ∷ bullets subjects

unfoldable pub agent_lines : List (Text × Bucket) → List Text
unfolding str_nat text
agent_lines [] = []
agent_lines ((agent, bucket) ∷ rest) =
    (text "  - "
      ++ agent
      ++ text ": $"
      ++ bucket.cost_usd
      ++ text " ("
      ++ str_nat bucket.calls
      ++ text " calls)")
    ∷ agent_lines rest

unfoldable pub cost_lines : Option LlmUsage → List Text
unfolding agent_lines str_nat text
cost_lines none = []
cost_lines (some llm) =
    text "### Cost &amp; tokens"
      ∷ (text "- **$"
          ++ llm.total.cost_usd
          ++ text "** · "
          ++ str_nat llm.total.prompt_tokens
          ++ text " prompt + "
          ++ str_nat llm.total.completion_tokens
          ++ text " completion tokens · "
          ++ str_nat llm.total.calls
          ++ text " LLM calls")
      ∷ agent_lines llm.by_agent
    ++ [] ∷ []

abbrev test_suffix : Option Text → Text
test_suffix none = []
test_suffix (some test_path) =
    if truthy test_path then text " — regression test `" ++ test_path ++ text "`" else []

module _ (sha256_hex : Text → Text) where
  unfoldable pub healed_lines : List ResolvedError → List Text
  unfolding signature_text text
  healed_lines [] = []
  healed_lines (r ∷ rest) =
      (text "- `" ++ signature_text sha256_hex r.signature ++ text "`" ++ test_suffix r.test_path)
      ∷ healed_lines rest

  -- `build_pr_body`
  unfoldable pub build_pr_body : List Text → List ResolvedError → Option LlmUsage → List Text → Text
  unfolding bullets healed_lines cost_lines join str_nat text
  build_pr_body reproduce_cmd resolved telemetry commit_subjects = join (text "\n") (
      text "## 🤖 Automated fix — Self-Healing System"
        ∷ []
        ∷ (text "This pull request was generated autonomously to repair `"
            ++ (if truthy reproduce_cmd
                then join (text " ") reproduce_cmd
                else text "the failing command")
            ++ text "`.")
        ∷ []
        ∷ (text "> ⚠"
            ++ (65039 ∷ [])
            ++ text " **Human review required — do not auto-merge.** "
            ++ text "The change was produced and validated by an autonomous agent inside an "
            ++ text "isolated, network-disabled sandbox.")
        ∷ []
        ∷ (if truthy commit_subjects
            then text "### Changes" ∷ bullets commit_subjects ++ [] ∷ []
            else [])
      ++ (if truthy resolved
          then (text "### Errors healed (" ++ str_nat (length resolved) ++ text ")")
              ∷ healed_lines resolved
            ++ [] ∷ []
          else [])
      ++ cost_lines telemetry
      ++ (text "---" ∷ text "*Self-Healing System — autonomous multi-agent code repair.*" ∷ []))
