-- ===== src/Config/Bounds.antt =====
-- What the settings' constraints give the program.
use self_healing_system_tfg.Base.{◌≤◌, ◌≡◌, true, arith, Option, Bool-cases, inl, inr}
use self_healing_system_tfg.Python.Text.{Text}
use self_healing_system_tfg.Python.Effects.{returned, World}
use self_healing_system_tfg.Python.Effects.Ends.{
  EndsAt, ends_returned, ends_raised, resume-EndsAt, EndsAt-elim,
}
use self_healing_system_tfg.Config.{Settings, Reading, is_admitted, validated, load_settings}

-- The retries and the errors of a session are bounded.
pub record IsBounded (s : Settings) : Type 0 where
  pub retries_min : 1 ≤ s.max_retries
  pub retries_max : s.max_retries ≤ 20
  pub budget_min : 1 ≤ s.error_cycle_budget
  pub budget_max : s.error_cycle_budget ≤ 50
  pub quota_min : 1 ≤ s.sandbox_cpu_quota

admitted-IsBounded : (r : Reading) (s : Settings) → is_admitted r s ≡ true → IsBounded s
unfolding is_admitted
admitted-IsBounded r s h = ground arith

module _ {E : Type 0} (r : Reading) where
  validated-EndsAt :
      (s : Settings) (w : World E) → EndsAt (λ t. is_admitted r t ≡ true) (validated r s w)
  validated-EndsAt s w = elim (Bool-cases (is_admitted r s)) [
    | inl admitted ↦ rw admitted (ends_returned _ _ w admitted)
    | inr refused ↦ rw refused (ends_raised _ _ w)
  ]

  load-EndsAt :
      (getenv : Text → Option Text) (reports_dir : Text) (w : World E)
      → EndsAt (λ t. is_admitted r t ≡ true) (load_settings r getenv reports_dir w)
  unfolding load_settings
  load-EndsAt getenv reports_dir w = resume-EndsAt _ _ _ λ s1 w1. resume-EndsAt _ _ _ λ s2 w2.
      resume-EndsAt _ _ _ λ s3 w3. resume-EndsAt _ _ _ λ s4 w4. resume-EndsAt _ _ _ λ s5 w5.
        resume-EndsAt _ _ _ λ s6 w6. resume-EndsAt _ _ _ λ s7 w7. resume-EndsAt _ _ _ λ s8 w8.
          resume-EndsAt _ _ _ λ s9 w9. resume-EndsAt _ _ _ λ s10 w10. resume-EndsAt _ _ _ λ s11 w11.
            resume-EndsAt _ _ _ λ s12 w12. resume-EndsAt _ _ _ λ s13 w13.
              resume-EndsAt _ _ _ λ s14 w14. resume-EndsAt _ _ _ λ s15 w15.
                resume-EndsAt _ _ _ λ s16 w16. resume-EndsAt _ _ _ λ s17 w17.
                  resume-EndsAt _ _ _
                    λ s18 w18. resume-EndsAt _ _ _ λ s19 w19. validated-EndsAt s19 w19

  -- Settings that are loaded satisfy the constraints of their fields.
  pub load_settings_admitted :
      (getenv : Text → Option Text) (reports_dir : Text) (w w' : World E) (s : Settings)
      → load_settings r getenv reports_dir w ≡ (returned s, w')
      → is_admitted r s ≡ true
  load_settings_admitted getenv reports_dir w w' s h =
      EndsAt-elim _ (load-EndsAt getenv reports_dir w) h

  -- Whatever the environment holds, settings that are loaded allow 1 to 20 retries and 1 to 50 errors,
  -- and a positive share of a processor.
  pub load_settings-IsBounded :
      (getenv : Text → Option Text) (reports_dir : Text) (w w' : World E) (s : Settings)
      → load_settings r getenv reports_dir w ≡ (returned s, w')
      → IsBounded s
  load_settings-IsBounded getenv reports_dir w w' s h =
      admitted-IsBounded r s (load_settings_admitted getenv reports_dir w w' s h)
