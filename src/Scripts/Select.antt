-- ===== src/Scripts/Select.antt =====
-- scripts/swebench_select.py: the cheapest instances of a dataset. Floats are a parameter.
pub mod Cheapest
use self_healing_system_tfg.Base.{
  ℕ, zero, suc, ◌-◌, Bool, true, false, not, ◌&&◌, List, [], ◌∷◌, Option, none, some, leb,
  if◌then◌else◌, length, take, keep,
}
use self_healing_system_tfg.Python.Text.{
  Text, text, text_eq, truthy, strip, starts_with, splitlines,
}
use self_healing_system_tfg.Orchestrator.Regression.{mem_text}

-- A field that is a list, a text, or missing; the texts of a list are those of `str(v)`.
pub data Field : Type 0 where
  listed : List Text → Field
  written : Text → Field
  absent : Field

-- A row of SWE-bench, with the columns that the scripts read.
pub record Instance : Type 0 where
  pub instance_id : Text
  pub repo : Text
  pub base_commit : Text
  pub patch : Text
  pub test_patch : Text
  pub problem_statement : Text
  pub fail_to_pass : Field
  pub pass_to_pass : Field

-- `json.loads` and `ast.literal_eval`: an exception, a value that is no list, or a list.
pub data Parsed : Type 0 where
  malformed no_list : Parsed
  parsed_list : List Text → Parsed

pub record Literals : Type 0 where
  pub json_loads : Text → Parsed
  pub literal_eval : Text → Parsed

-- Floating-point numbers, as far as `cost_proxy` and the sort need them.
pub record Floats : Type 1 where
  pub Float : Type 0
  pub of_nat : ℕ → Float
  pub plus : Float → Float → Float
  pub over : Float → Float → Float
  pub less : Float → Float → Bool

unfoldable pub heavy_repos : List Text
unfolding text
heavy_repos =
    text "django/django"
    ∷ text "sympy/sympy"
    ∷ text "matplotlib/matplotlib"
    ∷ text "sphinx-doc/sphinx"
    ∷ text "scikit-learn/scikit-learn"
    ∷ text "astropy/astropy"
    ∷ text "pydata/xarray"
    ∷ []

unfoldable pub excluded_repos : List Text
unfolding text
excluded_repos = text "pytest-dev/pytest" ∷ text "psf/requests" ∷ []

abbrev list_or_empty : Parsed → List Text
list_or_empty (parsed_list l) = l
list_or_empty _ = []

module _ (literals : Literals) where
  -- The value of a text: JSON, and if that is malformed, a literal of Python.
  abbrev text_value : Text → List Text
  text_value value = elim (literals.json_loads value) [
    | malformed ↦ list_or_empty (literals.literal_eval value)
    | no_list ↦ []
    | parsed_list l ↦ l
  ]

  unfoldable pub parse_fail_to_pass : Field → List Text
  unfolding strip
  parse_fail_to_pass (listed l) = l
  parse_fail_to_pass absent = []
  parse_fail_to_pass (written value) = if truthy (strip value) then text_value value else []

-- `s.count(sub)` for a `sub` that is not empty; `skip` counts what is left of an occurrence.
unfoldable pub count_from : ℕ → Text → Text → ℕ
unfolding starts_with
count_from skip sub [] = 0
count_from (suc skip) sub (c ∷ s) = count_from skip sub s
count_from zero sub (c ∷ s) =
    let counted = suc (count_from (length sub - 1) sub s) in
    let passed = count_from zero sub s in if starts_with (c ∷ s) sub then counted else passed

unfoldable pub patch_n_files : Text → ℕ
unfolding count_from text
patch_n_files patch = count_from zero (text "diff --git ") patch

unfoldable pub patch_n_lines : Text → ℕ
unfolding splitlines
patch_n_lines patch = length (splitlines patch)

module _ (fl : Floats) where
  unfoldable pub cost_proxy : Instance → fl.Float
  unfolding patch_n_lines heavy_repos text_eq
  cost_proxy i =
      fl.plus
        (fl.plus (fl.of_nat (patch_n_lines i.patch))
          (fl.over (fl.of_nat (length i.problem_statement)) (fl.of_nat 80)))
        (fl.of_nat (if mem_text i.repo heavy_repos then 60 else 0))

  -- `l.sort(key=cost_proxy)`: stable, by `<` on the keys.
  unfoldable pub insert_by_cost : Instance → List Instance → List Instance
  unfolding cost_proxy
  insert_by_cost x [] = x ∷ []
  insert_by_cost x (y ∷ ys) =
      let rest = insert_by_cost x ys in
      if fl.less (cost_proxy y) (cost_proxy x) then y ∷ rest else x ∷ y ∷ ys

  unfoldable pub sort_by_cost : List Instance → List Instance
  unfolding insert_by_cost
  sort_by_cost [] = []
  sort_by_cost (x ∷ xs) = insert_by_cost x (sort_by_cost xs)

  module _ (literals : Literals) where
    -- The condition of the comprehension.
    unfoldable pub is_cheap : ℕ → ℕ → Instance → Bool
    unfolding excluded_repos text_eq patch_n_files patch_n_lines parse_fail_to_pass
    is_cheap max_files max_patch_lines x =
        not (mem_text x.repo excluded_repos)
        && leb (patch_n_files x.patch) max_files
        && leb (patch_n_lines x.patch) max_patch_lines
        && truthy (parse_fail_to_pass literals x.fail_to_pass)

    -- `select`
    unfoldable pub select : ℕ → ℕ → ℕ → List Instance → List Instance
    unfolding is_cheap sort_by_cost
    select limit max_files max_patch_lines instances =
        take limit (sort_by_cost (keep (is_cheap max_files max_patch_lines) instances))
