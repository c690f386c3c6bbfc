-- ===== src/Python/Effects.antt =====
-- Exceptions and files, as explicit state.
-- A coroutine of the program is an action `Py E A`: it takes the world, and returns or raises. The
-- world comes back after a raise too, since what was written stays written. `await` is a call.
pub mod Ends
pub mod Raises
pub mod Leaves
use self_healing_system_tfg.Base.{◌≡◌, refl, List, Bool}
use self_healing_system_tfg.Python.Text.{Text}

-- The exceptions that the program names (a FileNotFoundError is an OSError), each with its message; `other` is any other.
pub data Exn : Type 0 where
  fix_generation test_generation report_generation : Text → Exn
  git_operation docker_sandbox sandbox_timeout os_error timeout_error import_error : Text → Exn
  file_not_found : Text → Exn
  runtime_error value_error github_error other : Text → Exn

-- `str(exc)`
unfoldable pub message : Exn → Text
message (fix_generation m) = m
message (test_generation m) = m
message (report_generation m) = m
message (git_operation m) = m
message (docker_sandbox m) = m
message (sandbox_timeout m) = m
message (os_error m) = m
message (file_not_found m) = m
message (timeout_error m) = m
message (import_error m) = m
message (runtime_error m) = m
message (value_error m) = m
message (github_error m) = m
message (other m) = m

pub data Outcome (A : Type 0) : Type 0 where
  returned : A → Outcome A
  raised : Exn → Outcome A

pub data FileOp : Type 0 where
  stat_op mkdir_op read_op write_op unlink_op : FileOp

-- The files by their path, the operations that the system refuses (`OSError`), and the rest of the
-- environment: containers, the repository, language models.
pub record World (E : Type 0) : Type 0 where
  pub files : List (Text × Text)
  pub denied : FileOp → Text → Bool
  pub env : E

abbrev pub Py : Type 0 → Type 0 → Type 0
Py E A = World E → Outcome A × World E

module _ {E A : Type 0} where
  abbrev pub pure : A → Py E A
  pure a w = (returned a, w)

  abbrev pub throw : Exn → Py E A
  throw e w = (raised e, w)

  -- What an `except` does with the outcome of its body; the handler re-raises what it does not name.
  unfoldable pub handled : (Exn → Py E A) → Outcome A × World E → Outcome A × World E
  handled handler (returned a, w) = (returned a, w)
  handled handler (raised e, w) = handler e w

  -- `try: body except …: handler`
  abbrev pub rescue : Py E A → (Exn → Py E A) → Py E A
  rescue body handler w = handled handler (body w)

-- An outcome that waits for the cleanup.
abbrev pub after_cleanup :
    {E A : Type 0} → Outcome A → Outcome (Unit {0}) × World E → Outcome A × World E
after_cleanup o (returned _, w) = (o, w)
after_cleanup o (raised e, w) = (raised e, w)

module _ {E A : Type 0} where
  -- What a `finally` does after its body: an exception of the cleanup replaces the outcome.
  unfoldable pub finished : Py E (Unit {0}) → Outcome A × World E → Outcome A × World E
  finished cleanup (o, w) = after_cleanup o (cleanup w)

  -- `try: body finally: cleanup`
  abbrev pub finally : Py E A → Py E (Unit {0}) → Py E A
  finally body cleanup w = finished cleanup (body w)

module _ {E A B : Type 0} where
  -- What follows a call: the rest of the coroutine, or the exception on its way up.
  unfoldable pub resume : Outcome A × World E → (A → Py E B) → Outcome B × World E
  resume (returned a, w) rest = rest a w
  resume (raised e, w) rest = (raised e, w)

  infixl 5 ◌>>=◌ ◌>>◌
  abbrev pub ◌>>=◌ : Py E A → (A → Py E B) → Py E B
  ◌>>=◌ call rest w = resume (call w) rest

  abbrev pub ◌>>◌ : Py E A → Py E B → Py E B
  ◌>>◌ call rest w = resume (call w) (λ _. rest)

  -- A sequence that returned has a first part that returned.
  pub resume-eq-returned :
      (o : Outcome A × World E) (rest : A → Py E B) {b : B} {w'' : World E}
      → resume o rest ≡ (returned b, w'')
      → (a : A) × (w' : World E) × (o ≡ (returned a, w')) × (rest a w' ≡ (returned b, w''))
  unfolding resume
  resume-eq-returned (returned a, w') rest h = (a, w', refl, h)
  resume-eq-returned (raised x, w') rest h = cc
