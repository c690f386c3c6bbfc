-- ===== src/Orchestrator/Regression.antt =====
-- src/orchestrator/regression.py: the tests that are related to the files a fix touched.
pub mod Order
use self_healing_system_tfg.Base.{
  Bool, true, false, not, ◌&&◌, ◌||◌, List, [], ◌∷◌, ◌++◌, Option, none, some, ltb, ◌==◌,
  if◌then◌else◌, map, any,
}
use self_healing_system_tfg.Python.Text.{Text, text, text_eq, truthy, ends_with, split_on}
use self_healing_system_tfg.Python.Effects.{World, read_op}
use self_healing_system_tfg.Python.Files.{Files}
use self_healing_system_tfg.Python.Regex.{
  Regex, Spot, one_of, alt, group, line_start, text_start, text_end, plus, optional, literal,
  non_space, find_first, find_all, group_or_empty,
}
use self_healing_system_tfg.Python.Paths.{
  PurePath, parse_path, as_posix, last_part, relative_to, stem,
}
use self_healing_system_tfg.Python.Platform.{Platform, ImportNode, import_names, import_from}
use self_healing_system_tfg.Domain.Signature.Patterns.{◌then_◌, solid}

abbrev pub mem_text : Text → List Text → Bool
mem_text t ts = any (text_eq t) ts

-- `^diff --git a/(?P<a>\S+) b/(?P<b>\S+)`
unfoldable pub diff_git : Regex
unfolding literal text non_space
diff_git =
    line_start
    then_ literal (text "diff --git a/")
    then_ group 1 solid
    then_ literal (text " b/")
    then_ group 2 solid

-- `(^|/)(test_[^/]+|[^/]+_tests?|unittest_[^/]+)\.py$`
unfoldable pub test_file : Regex
unfolding literal text
test_file =
    let name = plus (one_of (λ c. not (c == b'/'))) in
    alt text_start (one_of (λ c. c == b'/'))
    then_ group 2 (
        alt (literal (text "test_") then_ name) (
          alt (name then_ literal (text "_test") then_ optional (one_of (λ c. c == b's')))
            (literal (text "unittest_") then_ name)))
    then_ literal (text ".py")
    then_ text_end

-- `_TEST_FILE_RE.search(path)`
unfoldable pub is_test_name : Text → Bool
unfolding find_first test_file
is_test_name path = elim (find_first test_file path) [ some _ ↦ true | none ↦ false ]

-- `list(dict.fromkeys(...))`: the first of equal texts stays.
unfoldable pub add_new : List Text → Text → List Text
unfolding text_eq
add_new seen t = if mem_text t seen then seen else seen ++ t ∷ []

unfoldable pub source_paths : List Spot → List Text → List Text
unfolding group_or_empty ends_with text is_test_name add_new
source_paths [] seen = seen
source_paths (m ∷ ms) seen =
    let path = group_or_empty 2 m in
    source_paths ms
      (if ends_with path (text ".py") && not (is_test_name path) then add_new seen path else seen)

unfoldable pub changed_source_files : Text → List Text
unfolding source_paths find_all diff_git
changed_source_files diff_text = source_paths (find_all diff_git diff_text) []

-- `_SKIP_DIRS`
unfoldable pub skip_dirs : List Text
unfolding text
skip_dirs =
    text ".git"
    ∷ text "venv"
    ∷ text ".venv"
    ∷ text "node_modules"
    ∷ text "__pycache__"
    ∷ text ".tox"
    ∷ text "build"
    ∷ text "dist"
    ∷ text ".mypy_cache"
    ∷ []

-- `name.rsplit(".", 1)[-1]`
unfoldable pub last_component : Text → Text
unfolding split_on last_part
last_component name = last_part (split_on b'.' name)

unfoldable pub names_of_import : ImportNode → List Text
unfolding last_component
names_of_import (import_names names) = map last_component names
names_of_import (import_from none names) = map last_component names
names_of_import (import_from (some m) names) =
    (if truthy m then last_component m ∷ [] else []) ++ map last_component names

unfoldable pub names_of_imports : List ImportNode → List Text
unfolding names_of_import
names_of_imports [] = []
names_of_imports (n ∷ ns) = names_of_import n ++ names_of_imports ns

-- The order of texts by code points, and a sorted list without repetition.
unfoldable pub text_lt : Text → Text → Bool
text_lt [] [] = false
text_lt [] (d ∷ t) = true
text_lt (c ∷ s) [] = false
text_lt (c ∷ s) (d ∷ t) = ltb c d || (c == d && text_lt s t)

unfoldable pub add_sorted : Text → List Text → List Text
unfolding text_lt text_eq
add_sorted t [] = t ∷ []
add_sorted t (u ∷ us) =
    let rest = add_sorted t us in
    if text_lt t u then t ∷ u ∷ us else if text_eq t u then u ∷ us else u ∷ rest

module _ (p : Platform) where
  -- `_imported_basenames`
  unfoldable pub imported_basenames : Text → List Text
  unfolding names_of_imports
  imported_basenames source = elim (p.ast_imports source) [
    | none ↦ []
    | some nodes ↦ names_of_imports nodes
  ]

  -- `path.parts`: a rooted path has its root as its first part.
  abbrev pub all_parts : PurePath → List Text
  all_parts path = if truthy path.root then path.root ∷ path.parts else path.parts

  -- The tests before the two signals: a `.py` file, in no skipped directory, named like a test.
  unfoldable pub is_candidate : PurePath → Bool
  unfolding text_eq skip_dirs ends_with text last_part is_test_name as_posix
  is_candidate path =
      ends_with (last_part path.parts) (text ".py")
      && not (any (λ d. mem_text d (all_parts path)) skip_dirs)
      && is_test_name (as_posix path)

  -- By name, or by an import of a changed module.
  unfoldable pub is_related : List Text → PurePath → Option Text → Bool
  unfolding text_eq stem text imported_basenames
  is_related stems path source =
      any (λ s. text_eq (stem path) (text "test_" ++ s) || text_eq (stem path) (s ++ text "_test"))
        stems
      || elim source [
        | none ↦ false
        | some content ↦ any (λ name. mem_text name stems) (imported_basenames content)
      ]

  module _ {E : Type 0} where
    -- The loop over `root.rglob("*.py")`.
    unfoldable pub related_among : World E → PurePath → List Text → Files → List Text
    unfolding relative_to parse_path is_candidate is_related as_posix add_sorted
    related_among w root stems [] = []
    related_among w root stems ((name, content) ∷ fs) =
        let found = related_among w root stems fs in
        let path = parse_path name in
        let source = if w.denied read_op name then none else some content in
        elim (relative_to path root) [
          | none ↦ found
          | some rel ↦
              if is_candidate path && is_related stems path source
              then add_sorted (as_posix rel) found
              else found
        ]

    unfoldable pub select_related_tests : World E → Text → List Text → List Text
    unfolding related_among parse_path stem
    select_related_tests w workspace changed_files =
        if truthy changed_files
        then related_among w (parse_path workspace) (map (λ f. stem (parse_path f)) changed_files)
            w.files
        else []
