-- ===== src/Adapters/Reports/Names.antt =====
-- The file names of the reports.
use self_healing_system_tfg.Base.{
  ℕ, zero, suc, Bool, true, false, not, [], ◌∷◌, map, ◌≡◌, refl, ◌≤◌, arith, any, take, length,
  length-take-le,
}
use self_healing_system_tfg.Python.Text.{Text}
use self_healing_system_tfg.Adapters.Reports.{is_safe, safe_char, sanitise_filename}

module _ (alnum : ℕ → Bool) where
  safe_char_safe : (c : ℕ) → is_safe alnum (safe_char alnum c) ≡ true
  unfolding safe_char
  safe_char_safe c = ground arith

  all_safe :
      (n : ℕ) (s : Text)
      → any (λ c. not (is_safe alnum c)) (take n (map (safe_char alnum) s)) ≡ false
  all_safe zero s = refl
  all_safe (suc n) [] = refl
  all_safe (suc n) (c ∷ s) = rw (safe_char_safe c) (all_safe n s)

  -- The part of a report's file name that comes from the incident has at most 120 characters, and
  -- none of them is other than a letter or digit of `isalnum`, `-` or `_`.
  pub sanitise_filename_safe :
      (raw : Text)
      → (length (sanitise_filename alnum raw) ≤ 120)
        × (any (λ c. not (is_safe alnum c)) (sanitise_filename alnum raw) ≡ false)
  unfolding sanitise_filename
  sanitise_filename_safe raw = (length-take-le 120 (map (safe_char alnum) raw), all_safe 120 raw)
