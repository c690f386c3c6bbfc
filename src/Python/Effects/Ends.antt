-- ===== src/Python/Effects/Ends.antt =====
-- Postconditions of actions: what holds of the value, if the action returns. `EndsAt` is used
-- through its rules, one for each way to compose actions.
use self_healing_system_tfg.Base.{◌≡◌, refl, subst, Bool, true, false, if◌then◌else◌}
use self_healing_system_tfg.Python.Effects.{
  Exn, Outcome, returned, raised, World, Py, handled, resume, finished, after_cleanup,
}

pub EndsAt : {E A : Type 0} → (A → Type 0) → Outcome A × World E → Type 0
EndsAt P (returned a, w) = P a
EndsAt P (raised e, w) = Unit

module _ {E A : Type 0} (P : A → Type 0) where
  pub ends_returned : (a : A) (w : World E) → P a → EndsAt P (returned a, w)
  unfolding EndsAt
  ends_returned a w h = h

  pub ends_raised : (e : Exn) (w : World E) → EndsAt P (raised e, w)
  unfolding EndsAt
  ends_raised e w = tt

  pub handled-EndsAt :
      (o : Outcome A × World E) (handler : Exn → Py E A)
      → EndsAt P o
      → ((e : Exn) (w : World E) → EndsAt P (handler e w))
      → EndsAt P (handled handler o)
  unfolding EndsAt handled
  handled-EndsAt (returned a, w) handler p h = p
  handled-EndsAt (raised e, w) handler p h = h e w

  pub EndsAt-elim :
      {o : Outcome A × World E} {a : A} {w : World E} → EndsAt P o → o ≡ (returned a, w) → P a
  unfolding EndsAt
  EndsAt-elim h e = subst (EndsAt P) e h

module _ {E A B : Type 0} where
  -- Of a sequence: whatever the first part returned, the rest ends in `Q`.
  pub resume-EndsAt :
      (Q : B → Type 0) (o : Outcome A × World E) (rest : A → Py E B)
      → ((a : A) (w : World E) → EndsAt Q (rest a w))
      → EndsAt Q (resume o rest)
  unfolding EndsAt resume
  resume-EndsAt Q (returned a, w) rest h = h a w
  resume-EndsAt Q (raised e, w) rest h = tt

  -- The same, with what is known of the first part's value.
  pub resume-EndsAt_of :
      (P : A → Type 0) (Q : B → Type 0) (o : Outcome A × World E) (rest : A → Py E B)
      → EndsAt P o
      → ((a : A) (w : World E) → P a → EndsAt Q (rest a w))
      → EndsAt Q (resume o rest)
  unfolding EndsAt resume
  resume-EndsAt_of P Q (returned a, w) rest first h = h a w first
  resume-EndsAt_of P Q (raised e, w) rest first h = tt

  -- The same, with the run of the first part.
  pub resume-EndsAt_ran :
      (Q : B → Type 0) (o : Outcome A × World E) (rest : A → Py E B)
      → ((a : A) (w : World E) → o ≡ (returned a, w) → EndsAt Q (rest a w))
      → EndsAt Q (resume o rest)
  unfolding EndsAt resume
  resume-EndsAt_ran Q (returned a, w) rest h = h a w refl
  resume-EndsAt_ran Q (raised e, w) rest h = tt

after_cleanup-EndsAt :
    {E A : Type 0} (P : A → Type 0) (o : Outcome A) (w : World E) (c : Outcome (Unit {0}) × World E)
    → EndsAt P (o, w)
    → EndsAt P (after_cleanup o c)
unfolding EndsAt
after_cleanup-EndsAt P (returned a) w (returned _, w') h = h
after_cleanup-EndsAt P (raised e) w (returned _, w') h = tt
after_cleanup-EndsAt P o w (raised e, w') h = tt

pub finished-EndsAt :
    {E A : Type 0} (P : A → Type 0) (o : Outcome A × World E) (cleanup : Py E (Unit {0}))
    → EndsAt P o
    → EndsAt P (finished cleanup o)
unfolding finished
finished-EndsAt P (o, w) cleanup h = after_cleanup-EndsAt P o w (cleanup w) h

pub if-EndsAt :
    {E A : Type 0} (P : A → Type 0) (b : Bool) (x y : Outcome A × World E)
    → EndsAt P x
    → EndsAt P y
    → EndsAt P (if b then x else y)
if-EndsAt P true x y h k = h
if-EndsAt P false x y h k = k

-- The same for a choice between two actions.
pub choice-EndsAt :
    {E A : Type 0} (P : A → Type 0) (b : Bool) (x y : Py E A) (w : World E)
    → EndsAt P (x w)
    → EndsAt P (y w)
    → EndsAt P ((if b then x else y) w)
choice-EndsAt P true x y w h k = h
choice-EndsAt P false x y w h k = k
