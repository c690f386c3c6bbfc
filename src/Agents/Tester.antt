-- ===== src/Agents/Tester.antt =====
-- src/agents/llm_tester.py: the test that a language model writes for a fix.
use self_healing_system_tfg.Base.{
  ◌≡◌, true, not, List, [], ◌∷◌, ◌++◌, Option, none, some, if◌then◌else◌, take,
}
use self_healing_system_tfg.Python.Text.{Text, text, truthy, strip, rstrip, join, is_space}
use self_healing_system_tfg.Python.Effects.{
  Exn, runtime_error, test_generation, World, Py, pure, throw, rescue, ◌>>=◌,
}
use self_healing_system_tfg.Python.Effects.Raises.{
  RaisesOnly, Never-RaisesOnly, raises_returned, raises_raised, handled-RaisesOnly,
  resume-RaisesOnly,
}
use self_healing_system_tfg.Python.Regex.{
  Unicode, Regex, one_of, lazy_star, star, group, line_start, plus, optional, literal, word_char,
  search_from, find_first, group_or_empty,
}
use self_healing_system_tfg.Python.Paths.{PurePath, parse_path}
use self_healing_system_tfg.Domain.Signature.Patterns.{◌then_◌, lit}
use self_healing_system_tfg.Domain.Models.{FixContext, RegressionTest}
use self_healing_system_tfg.Agents.Focus.{render_focus_block}
use self_healing_system_tfg.Agents.Focus.Quiet.{focus_block-RaisesOnly}
use self_healing_system_tfg.Orchestrator.Nodes.Total.{IsTestError}
use self_healing_system_tfg.Agents.Prompts.{tester_intro, tester_prompt}
use self_healing_system_tfg.Agents.Llm.{
  LiteLlm, ChatMessage, acomplete, acomplete-RaisesOnly, IsRuntimeError, IsMissing, IsRead,
}

-- The fields that `LLMTester.__init__` stores.
pub record LlmTester : Type 0 where
  pub model_name : Text
  pub workspace : Text
  pub temperature : Text
  pub timeout_seconds : Text

-- ```` ```(?:python)?\n(?P<body>.*?)\n``` ````, where `.` is any character
unfoldable pub fence : Regex
unfolding literal text
fence =
    literal (text "```")
    then_ optional (literal (text "python"))
    then_ lit 10
    then_ group 1 (lazy_star (one_of (λ _. true)))
    then_ literal (text "\n```")

module _ (u : Unicode) where
  -- `^def\s+test_\w*\s*\(`
  unfoldable pub def_test : Regex
  unfolding literal text is_space word_char
  def_test =
      line_start
      then_ literal (text "def")
      then_ plus (one_of is_space)
      then_ literal (text "test_")
      then_ star (one_of (word_char u))
      then_ star (one_of is_space)
      then_ lit b'('

  -- `source + "\n" if source else None`
  abbrev ended : Text → Option Text
  ended source = if truthy source then some (source ++ text "\n") else none

  -- From the first `def test_*` on.
  abbrev from_def : Text → Option Text
  from_def body = elim (search_from def_test none body) [
    | none ↦ none
    | some (found, _) ↦ ended (rstrip found)
  ]

  -- `_extract_test_source`
  unfoldable pub extract_test_source : Text → Option Text
  unfolding fence def_test search_from find_first group_or_empty strip rstrip text
  extract_test_source raw =
      if not (truthy (strip raw))
      then none
      else from_def (elim (find_first fence raw) [ none ↦ raw | some m ↦ group_or_empty 1 m ])

  module _ {E : Type 0} (resolve : PurePath → Option PurePath) (api : LiteLlm E) where
    -- `_render_user`: the parts of the prompt, joined.
    unfoldable pub render_user : Text → FixContext → Py E Text
    unfolding render_focus_block tester_intro strip join text
    render_user workspace context = do
      focus ←
          render_focus_block u resolve workspace context.failure_output context.reproducer_node_id
            tester_intro
      let reproduce =
          if truthy context.reproduce_cmd
          then join (text " ") context.reproduce_cmd
          else text "python main.py"
      let the_diff =
          if truthy (strip context.fix_diff)
          then text "## Diff of the fix (what changed)\n"
            ++ text "```diff\n"
            ++ context.fix_diff
            ++ text "\n```\n\n"
          else []
      pure (
          text "Incident: "
          ++ context.incident_id
          ++ text "\n\n"
          ++ text
              "A bug was just fixed. Write the targeted regression test that locks in the corrected behaviour.\n\n"
          ++ text "## Failure that was fixed\n"
          ++ text "```\n"
          ++ context.failure_output
          ++ text "\n```\n\n"
          ++ the_diff
          ++ focus
          ++ text "## How the behaviour is exercised\nReproduction command: `"
          ++ reproduce
          ++ text "`\n")

    abbrev except_completion_error : Exn → Py E Text
    except_completion_error (runtime_error m) =
        throw (test_generation (text "Tester LLM call failed: " ++ m))
    except_completion_error e = throw e

    abbrev tested : Text → Option Text → Py E RegressionTest
    tested raw none = throw (
        test_generation
          (text "Tester returned no usable `def test_*` function. Raw head:\n" ++ take 512 raw))
    tested raw (some source) = pure (record { path = []; node_id = []; source = source })

    -- `LLMTester.write_regression_test`
    unfoldable pub llm_write_regression_test : LlmTester → FixContext → Py E RegressionTest
    unfolding render_user acomplete extract_test_source tester_prompt text
    llm_write_regression_test tester context = do
      user ← render_user tester.workspace context
      let messages : List ChatMessage =
          record { role = text "system"; content = tester_prompt }
          ∷ record { role = text "user"; content = user }
          ∷ []
      raw ←
          rescue
            (acomplete api tester.model_name messages tester.temperature tester.timeout_seconds)
            except_completion_error
      tested raw (extract_test_source raw)

    module _ (imports : (w : World E) → RaisesOnly IsMissing (api.import_litellm w))
        (reads : (r : api.Response) → IsRead (api.content_of r)) where
      handler-RaisesOnly :
          (e : Exn) (w : World E)
          → IsRuntimeError e
          → RaisesOnly IsTestError (except_completion_error e w)
      handler-RaisesOnly (runtime_error m) w h = raises_raised _ _ _ w tt
      handler-RaisesOnly e w h = absurd h

      tested-RaisesOnly :
          (raw : Text) (o : Option Text) (w : World E) → RaisesOnly IsTestError (tested raw o w)
      tested-RaisesOnly raw none w = raises_raised _ _ _ w tt
      tested-RaisesOnly raw (some source) w = raises_returned _ _ w

      -- In a workspace that resolves the Tester raises nothing but a `TestGenerationError`.
      pub llm_tester-RaisesOnly :
          (tester : LlmTester) (root : PurePath) (context : FixContext) (w : World E)
          → resolve (parse_path tester.workspace) ≡ some root
          → RaisesOnly IsTestError (llm_write_regression_test tester context w)
      unfolding llm_write_regression_test render_user
      llm_tester-RaisesOnly tester root context w resolves =
          resume-RaisesOnly _ _ _
            (resume-RaisesOnly _ _ _
              (Never-RaisesOnly _ _ (
                focus_block-RaisesOnly u resolve tester.workspace root resolves
                  context.failure_output context.reproducer_node_id tester_intro w))
              λ focus w1. raises_returned _ _ w1)
            λ user w1.
              resume-RaisesOnly _ _ _
                (handled-RaisesOnly IsRuntimeError _ _ _
                  (acomplete-RaisesOnly api imports reads _ _ _ _ w1) handler-RaisesOnly)
                λ raw w2. tested-RaisesOnly raw (extract_test_source raw) w2
