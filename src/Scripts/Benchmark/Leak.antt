-- ===== src/Scripts/Benchmark/Leak.antt =====
-- A push of the benchmark that `git` refuses.
use self_healing_system_tfg.Base.{◌≡◌, refl, true, false, [], ◌∷◌, ◌++◌, some, arith, append-nil}
use self_healing_system_tfg.Python.Text.{Text, text, starts_with, join}
use self_healing_system_tfg.Python.Effects.{World, runtime_error, raised, returned, resume}
use self_healing_system_tfg.Python.Process.{is_zero, str_code}
use self_healing_system_tfg.Adapters.GitHub.Secret.{contains}
use self_healing_system_tfg.Scripts.Machine.{
  Machine, ShellResult, command, git, git_failure, token_url,
}
use self_healing_system_tfg.Scripts.Benchmark.Push.{push_fix, fix_branch}

starts_with_self : (t s : Text) → starts_with (t ++ s) t ≡ true
unfolding starts_with
starts_with_self [] s = ground arith
starts_with_self (c ∷ t) s = ground (arith, starts_with_self t s)

contains_self : (t : Text) → contains t t ≡ true
unfolding starts_with
contains_self [] = ground arith
contains_self (c ∷ t) = ground (arith, starts_with_self t [], append-nil t)

starts_with-append : (s b t : Text) → starts_with s t ≡ true → starts_with (s ++ b) t ≡ true
unfolding starts_with
starts_with-append [] [] [] h = h
starts_with-append [] (c ∷ b) [] h = h
starts_with-append [] b (d ∷ t) h = absurd (cc h)
starts_with-append (c ∷ s) b [] h = h
starts_with-append (c ∷ s) b (d ∷ t) h = ground (arith, h, starts_with-append s b t)

contains-after : (t a s : Text) → contains t s ≡ true → contains t (a ++ s) ≡ true
contains-after t [] s h = h
contains-after t (c ∷ a) s h = ground (arith, contains-after t a s h)

contains-before : (t s b : Text) → contains t s ≡ true → contains t (s ++ b) ≡ true
unfolding starts_with
contains-before [] [] [] h = h
contains-before [] [] (c ∷ b) h = ground arith
contains-before (d ∷ t) [] b h = absurd (cc h)
contains-before t (c ∷ s) b h =
    ground (arith, h, starts_with-append (c ∷ s) b t, contains-before t s b)

-- The same as a relation that is used through its rules.
Holds : Text → Text → Type 0
Holds t s = contains t s ≡ true

before-Holds : (t s b : Text) → Holds t s → Holds t (s ++ b)
unfolding Holds
before-Holds t s b h = contains-before t s b h

after-Holds : (t a s : Text) → Holds t s → Holds t (a ++ s)
unfolding Holds
after-Holds t a s h = contains-after t a s h

self-Holds : (t : Text) → Holds t t
unfolding Holds
self-Holds t = contains_self t

token_url-Holds : (token repo : Text) → Holds token (token_url token repo)
unfolding token_url
token_url-Holds token repo = before-Holds _ _ (text ".git") (
    before-Holds _ _ repo (
      before-Holds _ _ (text "@github.com/")
        (after-Holds _ (text "https://x-access-token:") _ (self-Holds token))))

push-Holds :
    (token repo branch : Text) (result : ShellResult)
    → Holds token
        (git_failure (text "push" ∷ token_url token repo ∷ branch ∷ text "--force" ∷ []) result)
unfolding git_failure join
push-Holds token repo branch result =
    let rest = join (text " ") (branch ∷ text "--force" ∷ []) in
    let url = token_url token repo in
    before-Holds _ _ result.stderr (
      before-Holds _ _ (text "):\n") (
        before-Holds _ _ (str_code result.returncode) (
          before-Holds _ _ (text " failed (rc=") (
            after-Holds _ (text "git ") _ (
              after-Holds _ (text "push" ++ text " ") _ (
                before-Holds _ (url ++ text " ") rest
                  (before-Holds _ url (text " ") (token_url-Holds token repo))))))))

push-contains :
    (token repo branch : Text) (result : ShellResult)
    → contains token
        (git_failure (text "push" ∷ token_url token repo ∷ branch ∷ text "--force" ∷ []) result)
      ≡ true
unfolding Holds
push-contains token repo branch result = push-Holds token repo branch result

module _ {E : Type 0} (m : Machine E) (workspace branch token repo : Text) (result : ShellResult)
    (w w' : World E) where
  -- The push of `push_and_pr`, if `git` refuses it, raises an error in which the token stands.
  pub push_fix_leaks :
      m.run
          (command
            (text "git"
              ∷ text "push"
              ∷ token_url token repo
              ∷ fix_branch branch
              ∷ text "--force"
              ∷ [])
            (some workspace))
          w
        ≡ (returned result, w')
      → is_zero result.returncode ≡ false
      → (msg : Text) × (push_fix m workspace branch token repo w ≡ (raised (runtime_error msg), w'))
        × (contains token msg ≡ true)
  unfolding push_fix git resume
  push_fix_leaks ran refused = (
    git_failure (text "push" ∷ token_url token repo ∷ fix_branch branch ∷ text "--force" ∷ [])
        result,
    rw (ran, refused) refl,
    push-contains token repo (fix_branch branch) result,
  )
