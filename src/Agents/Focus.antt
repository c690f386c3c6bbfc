-- ===== src/Agents/Focus.antt =====
-- src/agents/_focus.py: the workspace's files that a failure names.
-- `Path.resolve` is a parameter; `none` is the `OSError` or `ValueError` that it raises.
pub mod Chosen
pub mod Quiet
use self_healing_system_tfg.Base.{
  ℕ, ◌*◌, Bool, true, false, not, ◌&&◌, ◌||◌, List, [], ◌∷◌, ◌++◌, Option, none, some, ltb, leb,
  ◌==◌, if◌then◌else◌, length, take, any,
}
use self_healing_system_tfg.Python.Text.{
  Text, text, text_eq, truthy, is_space, join, split_on, replace_char, before_colons,
}
use self_healing_system_tfg.Python.Effects.{
  Exn, os_error, World, Py, pure, throw, rescue, returned, ◌>>=◌,
}
use self_healing_system_tfg.Python.Files.{Files, find_file, read_text}
use self_healing_system_tfg.Python.Regex.{
  Unicode, Regex, Spot, one_of, alt, group, text_start, ahead, plus, literal, word_char, find_all,
  group_or_empty,
}
use self_healing_system_tfg.Python.Paths.{PurePath, parse_path, path_join, as_posix, relative_to}
use self_healing_system_tfg.Domain.Signature.Patterns.{◌then_◌, lit, digits}
use self_healing_system_tfg.Orchestrator.Regression.{mem_text}
use self_healing_system_tfg.Orchestrator.Nodes.Session.{except_os_error, session_path}

abbrev pub reversed {ℓ} : {A : Type ℓ} → List A → List A
reversed [] = []
reversed (x ∷ xs) = reversed xs ++ x ∷ []

module _ (u : Unicode) where
  -- `File "([^"]+\.py)", line \d+`
  unfoldable pub trace_file : Regex
  unfolding literal text
  trace_file =
      literal (text "File \"")
      then_ group 1 (plus (one_of (λ c. not (c == b'"'))) then_ literal (text ".py"))
      then_ literal (text "\", line ")
      then_ digits u

  -- `(?:^|\s)([\w./\\-]+\.py)(?=:\d+:)`
  unfoldable pub pytest_path : Regex
  unfolding literal text is_space word_char
  pytest_path =
      alt text_start (one_of is_space)
      then_ group 1 (
          plus (one_of (λ c. word_char u c || (c == b'.' || c == b'/' || c == b'\\' || c == b'-')))
          then_ literal (text ".py"))
      then_ ahead (lit b':' then_ digits u then_ lit b':')

  -- `(?:ModuleNotFound|Import)Error: No module named ['\"]([\w.]+)['\"]`
  unfoldable pub module_not_found : Regex
  unfolding literal text word_char
  module_not_found =
      let quote = one_of (λ c. c == 39 || c == 34) in
      alt (literal (text "ModuleNotFound")) (literal (text "Import"))
      then_ literal (text "Error: No module named ")
      then_ quote
      then_ group 1 (plus (one_of (λ c. word_char u c || c == b'.')))
      then_ quote

  abbrev groups_one : List Spot → List Text
  groups_one [] = []
  groups_one (m ∷ ms) = group_or_empty 1 m ∷ groups_one ms

  abbrev first_of : List Text → Text
  first_of [] = []
  first_of (t ∷ _) = t

  unfoldable pub hints_of : Text → List Text
  unfolding replace_char split_on text
  hints_of name =
      let dotted = replace_char b'.' b'/' name in
      (dotted ++ text ".py")
      ∷ (dotted ++ text "/__init__.py")
      ∷ (first_of (split_on b'.' name) ++ text ".py")
      ∷ []

  abbrev all_hints : List Text → List Text
  all_hints [] = []
  all_hints (name ∷ names) = hints_of name ++ all_hints names

  -- `module_hints + list(reversed(frames))`
  unfoldable pub candidates : Text → List Text
  unfolding trace_file pytest_path module_not_found hints_of group_or_empty find_all
  candidates failure_output =
      let frames =
        groups_one (find_all trace_file failure_output)
        ++ groups_one (find_all pytest_path failure_output) in
      all_hints (groups_one (find_all module_not_found failure_output)) ++ reversed frames

  module _ (resolve : PurePath → Option PurePath) where
    -- The reproducer's file, if it resolves; the node id is cut at its first `::`.
    abbrev pub test_path_of : PurePath → Option Text → Option PurePath
    test_path_of root none = none
    test_path_of root (some node_id) =
        if truthy node_id
        then resolve (path_join root (parse_path (before_colons node_id)))
        else none

    abbrev is_same_path : Option PurePath → PurePath → Bool
    is_same_path none p = false
    is_same_path (some q) p = text_eq (as_posix p) (as_posix q)

    abbrev is_file : Files → PurePath → Bool
    is_file fs p = elim (find_file (as_posix p) fs) [ some _ ↦ true | none ↦ false ]

    abbrev pub absolute_of : PurePath → Text → Option PurePath
    absolute_of root raw =
        let path = parse_path raw in
        if truthy path.root then resolve path else resolve (path_join root path)

    -- The tests on a resolved path: inside the root, not the reproducer, and a file.
    abbrev pub kept_path : Files → PurePath → Option PurePath → PurePath → Option Text
    kept_path fs root test_abs path = elim (relative_to path root) [
      | none ↦ none
      | some rel ↦
          if not (is_same_path test_abs path) && is_file fs path then some (as_posix rel) else none
    ]

    -- The body of the loop, up to the test on `seen`: a relative path, or `continue`.
    unfoldable pub focus_candidate : Files → PurePath → Option PurePath → Text → Option Text
    unfolding parse_path path_join relative_to as_posix text_eq find_file
    focus_candidate fs root test_abs raw = elim (absolute_of root raw) [
      | none ↦ none
      | some path ↦ kept_path fs root test_abs path
    ]

    -- The loop; `seen` holds the texts of `out`. It stops when `out` is full.
    unfoldable pub collect :
        Files → PurePath → Option PurePath → ℕ → List Text → List Text → List Text
    unfolding focus_candidate text_eq
    collect fs root test_abs budget [] out = out
    collect fs root test_abs budget (raw ∷ raws) out = elim (focus_candidate fs root test_abs raw) [
      | none ↦ collect fs root test_abs budget raws out
      | some rel ↦ elim (mem_text rel out) [
        | true ↦ collect fs root test_abs budget raws out
        | false ↦ elim (leb budget (length (out ++ rel ∷ []))) [
          | true ↦ out ++ rel ∷ []
          | false ↦ collect fs root test_abs budget raws (out ++ rel ∷ [])
        ]
      ]
    ]

    -- `collect_focus_paths`; an exception of `Path(workspace).resolve()` goes on up.
    unfoldable pub collect_focus_paths :
        {E : Type 0} → Text → Text → Option Text → ℕ → Py E (List Text)
    unfolding collect candidates parse_path path_join text
    collect_focus_paths workspace failure_output node_id budget w =
        elim (resolve (parse_path workspace)) [
          | none ↦ throw (os_error (text "resolve")) w
          | some root ↦ (
            returned (
                collect w.files root (test_path_of root node_id) budget (candidates failure_output)
                  []),
            w,
          )
        ]

    -- The block of one file, cut to `file_bytes`.
    unfoldable pub file_block : ℕ → Text → Text → Text
    unfolding text
    file_block file_bytes rel content =
        let shown =
          if ltb file_bytes (length content)
          then take file_bytes content ++ text "\n# ... (truncated)\n"
          else content in
        text "### `" ++ rel ++ text "`\n" ++ text "```python\n" ++ shown ++ text "\n```\n\n"

    -- The loop over the paths; a file that cannot be read is left out.
    unfoldable pub render_files : {E : Type 0} → Text → ℕ → List Text → Py E Text
    unfolding session_path read_text file_block
    render_files workspace file_bytes [] = pure []
    render_files workspace file_bytes (rel ∷ rels) = do
      let read = (do
        content ← read_text (session_path workspace rel)
        pure (file_block file_bytes rel content))
      block ← rescue read (except_os_error (pure []))
      rest ← render_files workspace file_bytes rels
      pure (block ++ rest)

    abbrev focus_budget : ℕ
    focus_budget = 3

    abbrev focus_file_bytes : ℕ
    focus_file_bytes = 8 * 1024

    -- The heading and the intro stand there only if a path was found.
    abbrev render_paths : {E : Type 0} → Text → Text → List Text → Py E Text
    render_paths workspace intro [] = pure []
    render_paths workspace intro (rel ∷ rels) = do
      blocks ← render_files workspace focus_file_bytes (rel ∷ rels)
      pure (text "## Project context (read-only)\n" ++ intro ++ blocks)

    -- `render_focus_block`, with its default budgets.
    unfoldable pub render_focus_block : {E : Type 0} → Text → Text → Option Text → Text → Py E Text
    unfolding collect_focus_paths render_files text
    render_focus_block workspace failure_output node_id intro = do
      paths ← collect_focus_paths workspace failure_output node_id focus_budget
      render_paths workspace intro paths

-- `_DEFAULT_INTRO`
unfoldable pub default_intro : Text
unfolding text
default_intro =
    text
      "The files below are the current contents of the workspace files\nnamed in the failure trace.  Use them as the source of truth for\nwhat exists right now; modify them where the fix belongs.\n\n"
