-- ===== src/Agents/Focus/Chosen.antt =====
-- The files that are chosen for the agents' prompts.
use self_healing_system_tfg.Base.{
  ℕ, ◌≤◌, ◌<◌, max, ◌≡◌, refl, Bool, true, false, not, ◌&&◌, ◌||◌, List, [], ◌∷◌, ◌++◌, Option,
  none, some, arith, leb, length, length-append, Bool-cases, Option-cases, inl, inr, if◌then◌else◌,
}
use self_healing_system_tfg.Python.Text.{Text, text_eq}
use self_healing_system_tfg.Python.Text.Lemmas.{text_eq_sym}
use self_healing_system_tfg.Python.Effects.{World, returned}
use self_healing_system_tfg.Python.Files.{Files}
use self_healing_system_tfg.Python.Regex.{Unicode}
use self_healing_system_tfg.Python.Paths.{PurePath, parse_path, as_posix, relative_to}
use self_healing_system_tfg.Orchestrator.Regression.{mem_text}
use self_healing_system_tfg.Agents.Focus.{
  candidates, test_path_of, is_same_path, is_file, absolute_of, kept_path, focus_candidate, collect,
  collect_focus_paths,
}

module _ (u : Unicode) (resolve : PurePath → Option PurePath) (fs : Files) (root : PurePath)
    (test_abs : Option PurePath) where
  -- A text that names a file below the root, which is not the reproducer's.
  pub record IsChosen (t : Text) : Type 0 where
    pub path : PurePath
    pub below : PurePath
    pub inside : relative_to path root ≡ some below
    pub named : as_posix below ≡ t
    pub exists_there : is_file u resolve fs path ≡ true
    pub not_test : is_same_path u resolve test_abs path ≡ false

  abbrev AllChosen : List Text → Type 0
  AllChosen [] = Unit
  AllChosen (t ∷ ts) = IsChosen t × AllChosen ts

  -- No text is there twice.
  abbrev pub IsDistinct : List Text → Type 0
  IsDistinct [] = Unit
  IsDistinct (t ∷ ts) = (mem_text t ts ≡ false) × IsDistinct ts

  pub record IsSelection (budget : ℕ) (out : List Text) : Type 0 where
    pub chosen : AllChosen out
    pub distinct : IsDistinct out
    pub short : length out ≤ max 1 budget

  AllChosen-append :
      (ts : List Text) (t : Text) → AllChosen ts → IsChosen t → AllChosen (ts ++ t ∷ [])
  AllChosen-append [] t h k = (k, tt)
  AllChosen-append (s ∷ ts) t h k = (h.0, AllChosen-append ts t h.1 k)

  -- Both tests passed.
  tests_passed :
      (same file : Bool) (rel : Text) (t : Text)
      → ◌≡◌ {A = Option Text} (if not same && file then some rel else none) (some t)
      → (same ≡ false) × (file ≡ true) × (rel ≡ t)
  tests_passed true file rel t h = absurd (cc h)
  tests_passed false true rel t h = (refl, refl, cc)
  tests_passed false false rel t h = absurd (cc h)

  kept_path-IsChosen :
      (path : PurePath) (t : Text) → kept_path u resolve fs root test_abs path ≡ some t → IsChosen t
  kept_path-IsChosen path t h = elim (Option-cases (relative_to path root)) [
    | inl outside ↦ absurd (cc ((rw (outside, kept_path) at h)))
    | inr (below, inside) ↦
        let k =
          tests_passed (is_same_path u resolve test_abs path) (is_file u resolve fs path)
            (as_posix below) t (rw (inside, kept_path) at h) in
        record {
          path = path;
          below = below;
          inside = inside;
          named = k.2;
          exists_there = k.1;
          not_test = k.0;
        }
  ]

  focus_candidate-IsChosen :
      (raw t : Text) → focus_candidate u resolve fs root test_abs raw ≡ some t → IsChosen t
  unfolding focus_candidate
  focus_candidate-IsChosen raw t h = elim (Option-cases (absolute_of u resolve root raw)) [
    | inl e ↦ absurd (cc ((rw e at h)))
    | inr (path, e) ↦ kept_path-IsChosen path t (rw e at h)
  ]

  mem_text-append :
      (s : Text) (ts : List Text) (t : Text)
      → mem_text s (ts ++ t ∷ []) ≡ mem_text s ts || text_eq s t
  mem_text-append s [] t = ground arith
  mem_text-append s (r ∷ ts) t = ground (arith, mem_text-append s ts t)

  IsDistinct-append :
      (ts : List Text) (t : Text)
      → IsDistinct ts
      → mem_text t ts ≡ false
      → IsDistinct (ts ++ t ∷ [])
  IsDistinct-append [] t d h = (refl, tt)
  IsDistinct-append (s ∷ ts) t d h = (
    ground (arith, mem_text-append s ts t, text_eq_sym s t, d.0),
    IsDistinct-append ts t d.1 (ground arith),
  )

  collect-IsSelection :
      (budget : ℕ) (raws out : List Text)
      → AllChosen out
      → IsDistinct out
      → length out < max 1 budget
      → IsSelection budget (collect u resolve fs root test_abs budget raws out)
  unfolding collect
  collect-IsSelection budget [] out c d l = record {
    chosen = c;
    distinct = d;
    short = omega (arith, l);
  }
  collect-IsSelection budget (raw ∷ raws) out c d l =
      elim (Option-cases (focus_candidate u resolve fs root test_abs raw)) [
        | inl e ↦ rw e (collect-IsSelection budget raws out c d l)
        | inr (t, e) ↦ rw e (elim (Bool-cases (mem_text t out)) [
          | inl m ↦ rw m (collect-IsSelection budget raws out c d l)
          | inr m ↦ rw m (
              let c2 = AllChosen-append out t c (focus_candidate-IsChosen raw t e) in
              let d2 = IsDistinct-append out t d m in
              let l2 = length-append out (t ∷ []) in
              elim (Bool-cases (leb budget (length (out ++ t ∷ [])))) [
                | inl full ↦
                    rw full record { chosen = c2; distinct = d2; short = omega (arith, l, l2) }
                | inr room ↦ rw room (
                    collect-IsSelection budget raws (out ++ t ∷ []) c2 d2
                      (ground (arith, l, l2, room)))
              ])
        ])
      ]

-- The files of the prompt, for a workspace that resolves to `root`: they are distinct, each is a
-- file inside the workspace and is not the reproducer's, and there are at most `max 1 budget`.
pub collect_focus_paths-IsSelection :
    {E : Type 0}
    → (u : Unicode) (resolve : PurePath → Option PurePath)
    → (workspace failure_output : Text) (node_id : Option Text) (budget : ℕ)
    → (root : PurePath) (w : World E) → resolve (parse_path workspace) ≡ some root
    → (out : List Text) × (collect_focus_paths u resolve workspace failure_output node_id budget w
        ≡ (returned out, w))
      × IsSelection u resolve w.files root (test_path_of u resolve root node_id) budget out
unfolding collect_focus_paths
collect_focus_paths-IsSelection u resolve workspace failure_output node_id budget root w e =
    let test_abs = test_path_of u resolve root node_id in
    (
      collect u resolve w.files root test_abs budget (candidates u failure_output) [],
      rw (e, collect_focus_paths) refl,
      collect-IsSelection u resolve w.files root test_abs budget (candidates u failure_output) [] tt
          tt (omega arith),
    )
