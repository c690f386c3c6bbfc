-- ===== src/Orchestrator/Regression/Order.antt =====
-- The order of texts, as `sorted` puts them.
use self_healing_system_tfg.Base.{
  ◌≡◌, refl, true, false, List, [], ◌∷◌, arith, Bool-cases, inl, inr,
}
use self_healing_system_tfg.Python.Text.{Text, text_eq}
use self_healing_system_tfg.Orchestrator.Regression.{text_lt, add_sorted}

text_lt_total : (t u : Text) → text_lt t u ≡ false → text_eq t u ≡ false → text_lt u t ≡ true
unfolding text_lt text_eq
text_lt_total [] [] h k = cc
text_lt_total [] (d ∷ u) h k = cc
text_lt_total (c ∷ t) [] h k = refl
text_lt_total (c ∷ t) (d ∷ u) h k = ground (arith, text_lt_total t u)

abbrev IsAbove : Text → List Text → Type 0
IsAbove t [] = Unit
IsAbove t (u ∷ us) = text_lt t u ≡ true

-- In the order of the texts, and each text once.
abbrev pub IsSorted : List Text → Type 0
IsSorted [] = Unit
IsSorted (t ∷ ts) = IsAbove t ts × IsSorted ts

add_sorted-IsAbove :
    (u t : Text) (ts : List Text) → text_lt u t ≡ true → IsAbove u ts → IsAbove u (add_sorted t ts)
unfolding add_sorted
add_sorted-IsAbove u t [] h k = h
add_sorted-IsAbove u t (v ∷ ts) h k = elim (Bool-cases (text_lt t v)) [
  | inl before ↦ rw before h
  | inr after ↦ elim (Bool-cases (text_eq t v)) [
    | inl same ↦ rw (after, same) k
    | inr other ↦ rw (after, other) k
  ]
]

pub add_sorted-IsSorted : (t : Text) (ts : List Text) → IsSorted ts → IsSorted (add_sorted t ts)
unfolding add_sorted
add_sorted-IsSorted t [] h = (tt, tt)
add_sorted-IsSorted t (v ∷ ts) h = elim (Bool-cases (text_lt t v)) [
  | inl before ↦ rw before (before, h)
  | inr after ↦ elim (Bool-cases (text_eq t v)) [
    | inl same ↦ rw (after, same) h
    | inr other ↦
        rw (after, other)
          (
            add_sorted-IsAbove v t ts (text_lt_total t v after other) h.0,
            add_sorted-IsSorted t ts h.1,
          )
  ]
]
