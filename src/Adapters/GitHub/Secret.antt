-- ===== src/Adapters/GitHub/Secret.antt =====
-- The token is not in the error of a failed push.
use self_healing_system_tfg.Base.{
  ℕ, zero, suc, ◌-◌, ◌≡◌, refl, Bool, true, false, ◌||◌, [], ◌∷◌, ◌++◌, arith, length, take,
  length-take-le, ◌≤◌, Bool-cases, inl, inr,
}
use self_healing_system_tfg.Python.Text.{Text, text, truthy, starts_with, has_char}
use self_healing_system_tfg.Python.Effects.{World, returned, raised, github_error, resume}
use self_healing_system_tfg.Python.Process.{Process, str_code, is_zero}
use self_healing_system_tfg.Adapters.GitHub.{
  replace_from, replace_text, GitHubAccess, GitHubTools, push_args, push_error, push_branch,
}

-- `t in s`
abbrev pub contains : Text → Text → Bool
contains t [] = starts_with [] t
contains t (c ∷ s) = starts_with (c ∷ s) t || contains t s

abbrev stars : Text
stars = 42 ∷ 42 ∷ 42 ∷ []

-- A text without a star that begins the result begins the source at the same place.
starts_with-replace :
    (old t s : Text)
    → has_char 42 t ≡ false
    → starts_with (replace_from zero old stars s) t ≡ true
    → starts_with s t ≡ true
unfolding starts_with replace_from has_char
starts_with-replace old [] s h k = refl
starts_with-replace old (d ∷ t) [] h k = k
starts_with-replace old (d ∷ t) (c ∷ s) h k = elim (Bool-cases (starts_with (c ∷ s) old)) [
  | inl found ↦ ground (arith, found, h, k)
  | inr passed ↦ ground (arith, passed, h, k, starts_with-replace old t s)
]

starts_with-take : (n : ℕ) (s t : Text) → starts_with (take n s) t ≡ true → starts_with s t ≡ true
unfolding starts_with
starts_with-take n s [] h = refl
starts_with-take zero s (d ∷ t) h = absurd (cc h)
starts_with-take (suc n) [] (d ∷ t) h = h
starts_with-take (suc n) (c ∷ s) (d ∷ t) h = ground (arith, h, starts_with-take n s t)

contains-take : (n : ℕ) (s t : Text) → contains t s ≡ false → contains t (take n s) ≡ false
unfolding starts_with
contains-take zero [] t h = h
contains-take zero (c ∷ s) [] h = absurd (cc h)
contains-take zero (c ∷ s) (d ∷ t) h = refl
contains-take (suc n) [] t h = h
contains-take (suc n) (c ∷ s) t h =
    ground (arith, h, starts_with-take (suc n) (c ∷ s) t, contains-take n s t)

-- A text that is not empty and holds no star does not begin at a star.
not_at_star :
    (d : ℕ) (t s : Text) → has_char 42 (d ∷ t) ≡ false → starts_with (42 ∷ s) (d ∷ t) ≡ false
unfolding starts_with has_char
not_at_star d t s h = ground (arith, h)

tail_free : (d : ℕ) (t : Text) → has_char 42 (d ∷ t) ≡ false → has_char 42 t ≡ false
unfolding has_char
tail_free d t h = ground (arith, h)

contains-replace :
    (k d : ℕ) (t s : Text)
    → has_char 42 (d ∷ t) ≡ false
    → contains (d ∷ t) (replace_from k (d ∷ t) stars s) ≡ false
unfolding replace_from starts_with
contains-replace zero d t [] h = refl
contains-replace (suc k) d t [] h = refl
contains-replace (suc k) d t (c ∷ s) h = contains-replace k d t s h
contains-replace zero d t (c ∷ s) h = elim (Bool-cases (starts_with (c ∷ s) (d ∷ t))) [
  | inl found ↦
      let rest = replace_from (length (d ∷ t) - 1) (d ∷ t) stars s in
      rw found (
        ground (
          arith,
          not_at_star d t (42 ∷ 42 ∷ rest) h,
          not_at_star d t (42 ∷ rest) h,
          not_at_star d t rest h,
          contains-replace (length (d ∷ t) - 1) d t s h,
        ))
  | inr passed ↦ rw passed (
      ground (
        arith,
        passed,
        starts_with-replace (d ∷ t) t s (tail_free d t h),
        contains-replace zero d t s h,
      ))
]

scrubbed-IsFree :
    (token answer : Text)
    → truthy token ≡ true
    → has_char 42 token ≡ false
    → contains token (replace_text token (text "***") answer) ≡ false
unfolding replace_text text
scrubbed-IsFree [] answer given free = absurd (cc given)
scrubbed-IsFree (d ∷ token) answer given free = contains-replace zero d token answer free

module _ {E : Type 0} (tools : GitHubTools E) (access : GitHubAccess)
    (workspace_path repo branch : Text) (force : Bool) (proc : Process) (w w' : World E) where
  failed_push :
      tools.push (push_args tools access workspace_path repo branch force) w ≡ (returned proc, w')
      → is_zero proc.returncode ≡ false
      → push_branch tools access workspace_path repo branch force w
        ≡ (raised (github_error (push_error tools access proc.returncode proc.stderr)), w')
  unfolding push_branch resume
  failed_push ran bad = rw (ran, bad) refl

  -- A push that `git` refuses raises a `GitHubError` that shows at most 500 characters of what `git`
  -- answered, and the token is not among them; if the token is not empty and holds no star.
  pub push_branch_hides :
      tools.push (push_args tools access workspace_path repo branch force) w ≡ (returned proc, w')
      → is_zero proc.returncode ≡ false
      → truthy access.token ≡ true
      → has_char 42 access.token ≡ false
      → (shown : Text) × (push_branch tools access workspace_path repo branch force w ≡ (
        raised (
            github_error
              (text "git push failed (rc=" ++ str_code proc.returncode ++ text "): " ++ shown)),
        w',
      ))
        × (contains access.token shown ≡ false)
        × (length shown ≤ 500)
  unfolding push_error
  push_branch_hides ran bad given free =
      let answer = tools.decode_error proc.stderr in
      let scrubbed = replace_text access.token (text "***") answer in
      (
        take 500 scrubbed,
        failed_push ran bad,
        contains-take 500 scrubbed access.token (scrubbed-IsFree access.token answer given free),
        length-take-le 500 scrubbed,
      )
