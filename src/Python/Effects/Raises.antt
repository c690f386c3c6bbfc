-- ===== src/Python/Effects/Raises.antt =====
-- The exceptions that can leave an action. `RaisesOnly` is used through its rules.
use self_healing_system_tfg.Base.{◌≡◌, ◌⊎◌, inl, inr, refl, Bool, true, false, if◌then◌else◌}
use self_healing_system_tfg.Python.Effects.{
  Exn, os_error, file_not_found, Outcome, returned, raised, World, Py, handled, resume, finished,
  after_cleanup,
}

pub RaisesOnly : {E A : Type 0} → (Exn → Type 0) → Outcome A × World E → Type 0
RaisesOnly P (returned a, w) = Unit
RaisesOnly P (raised e, w) = P e

-- No exception at all.
abbrev pub Never : Exn → Type 0
Never e = ⊥

abbrev pub IsOsError : Exn → Type 0
IsOsError (os_error m) = Unit
IsOsError (file_not_found m) = Unit
IsOsError _ = ⊥

pub raises_raised :
    {E : Type 0} (A : Type 0) (P : Exn → Type 0) (e : Exn) (w : World E)
    → P e
    → RaisesOnly {A = A} P (raised e, w)
unfolding RaisesOnly
raises_raised A P e w h = h

module _ {E A : Type 0} where
  pub raises_returned : (P : Exn → Type 0) (a : A) (w : World E) → RaisesOnly P (returned a, w)
  unfolding RaisesOnly
  raises_returned P a w = tt

  pub handled-RaisesOnly :
      (P Q : Exn → Type 0) (o : Outcome A × World E) (handler : Exn → Py E A)
      → RaisesOnly P o
      → ((e : Exn) (w : World E) → P e → RaisesOnly Q (handler e w))
      → RaisesOnly Q (handled handler o)
  unfolding RaisesOnly handled
  handled-RaisesOnly P Q (returned a, w) handler h k = tt
  handled-RaisesOnly P Q (raised e, w) handler h k = k e w h

  -- An `except` for every exception.
  pub handled_all-RaisesOnly :
      (Q : Exn → Type 0) (o : Outcome A × World E) (handler : Exn → Py E A)
      → ((e : Exn) (w : World E) → RaisesOnly Q (handler e w))
      → RaisesOnly Q (handled handler o)
  unfolding RaisesOnly handled
  handled_all-RaisesOnly Q (returned a, w) handler k = tt
  handled_all-RaisesOnly Q (raised e, w) handler k = k e w

  pub if-RaisesOnly :
      (P : Exn → Type 0) (b : Bool) (x y : Outcome A × World E)
      → RaisesOnly P x
      → RaisesOnly P y
      → RaisesOnly P (if b then x else y)
  if-RaisesOnly P true x y h k = h
  if-RaisesOnly P false x y h k = k

  -- The same for a choice between two actions.
  pub choice-RaisesOnly :
      (P : Exn → Type 0) (b : Bool) (x y : Py E A) (w : World E)
      → RaisesOnly P (x w)
      → RaisesOnly P (y w)
      → RaisesOnly P ((if b then x else y) w)
  choice-RaisesOnly P true x y w h k = h
  choice-RaisesOnly P false x y w h k = k

  pub Never-RaisesOnly :
      (P : Exn → Type 0) (o : Outcome A × World E) → RaisesOnly Never o → RaisesOnly P o
  unfolding RaisesOnly
  Never-RaisesOnly P (returned a, w) h = tt
  Never-RaisesOnly P (raised e, w) h = absurd h

  pub weaken-RaisesOnly :
      (P Q : Exn → Type 0) (o : Outcome A × World E)
      → RaisesOnly P o
      → ((e : Exn) → P e → Q e)
      → RaisesOnly Q o
  unfolding RaisesOnly
  weaken-RaisesOnly P Q (returned a, w) h k = tt
  weaken-RaisesOnly P Q (raised e, w) h k = k e h

  -- What raises nothing returns.
  pub Never-returns :
      (o : Outcome A × World E)
      → RaisesOnly Never o
      → (a : A) × (w : World E) × (o ≡ (returned a, w))
  unfolding RaisesOnly
  Never-returns (returned a, w) h = (a, w, refl)
  Never-returns (raised e, w) h = absurd h

  -- What raises only `P` returns, or raises an exception of `P`.
  pub RaisesOnly-cases :
      (P : Exn → Type 0) (o : Outcome A × World E)
      → RaisesOnly P o
      → ((a : A) × (w : World E) × (o ≡ (returned a, w)))
        ⊎ ((e : Exn) × (w : World E) × (o ≡ (raised e, w)) × P e)
  unfolding RaisesOnly
  RaisesOnly-cases P (returned a, w) h = inl (a, w, refl)
  RaisesOnly-cases P (raised e, w) h = inr (e, w, refl, h)

pub resume-RaisesOnly :
    {E A B : Type 0} (P : Exn → Type 0) (o : Outcome A × World E) (rest : A → Py E B)
    → RaisesOnly P o
    → ((a : A) (w : World E) → RaisesOnly P (rest a w))
    → RaisesOnly P (resume o rest)
unfolding RaisesOnly resume
resume-RaisesOnly P (returned a, w) rest h k = k a w
resume-RaisesOnly P (raised e, w) rest h k = h

after_cleanup-RaisesOnly :
    {E A : Type 0} (P : Exn → Type 0) (o : Outcome A) (w : World E)
    (c : Outcome (Unit {0}) × World E)
    → RaisesOnly P (o, w)
    → RaisesOnly P c
    → RaisesOnly P (after_cleanup o c)
unfolding RaisesOnly
after_cleanup-RaisesOnly P (returned a) w (returned _, w') h k = tt
after_cleanup-RaisesOnly P (raised e) w (returned _, w') h k = h
after_cleanup-RaisesOnly P o w (raised e, w') h k = k

pub finished-RaisesOnly :
    {E A : Type 0} (P : Exn → Type 0) (o : Outcome A × World E) (cleanup : Py E (Unit {0}))
    → RaisesOnly P o
    → ((w : World E) → RaisesOnly P (cleanup w))
    → RaisesOnly P (finished cleanup o)
unfolding finished
finished-RaisesOnly P (o, w) cleanup h k = after_cleanup-RaisesOnly P o w (cleanup w) h (k w)

-- The same as `resume-RaisesOnly`, with what the first part returned.
pub resume-RaisesOnly_of :
    {E A B : Type 0} (P : Exn → Type 0) (o : Outcome A × World E) (rest : A → Py E B)
    → RaisesOnly P o
    → ((a : A) (w : World E) → o ≡ (returned a, w) → RaisesOnly P (rest a w))
    → RaisesOnly P (resume o rest)
unfolding RaisesOnly resume
resume-RaisesOnly_of P (returned a, w) rest h k = k a w refl
resume-RaisesOnly_of P (raised e, w) rest h k = h
