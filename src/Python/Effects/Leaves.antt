-- ===== src/Python/Effects/Leaves.antt =====
-- What holds of the world that an action leaves, whether it returns or raises.
use self_healing_system_tfg.Python.Effects.{
  Exn, Outcome, returned, raised, World, Py, handled, resume, finished, after_cleanup,
}

pub Leaves : {E A : Type 0} → (World E → Type 0) → Outcome A × World E → Type 0
Leaves P (o, w) = P w

pub Leaves-at :
    {E A : Type 0} (P : World E → Type 0) (o : Outcome A) (w : World E) → P w → Leaves P (o, w)
unfolding Leaves
Leaves-at P o w h = h

pub Leaves-elim :
    {E A : Type 0} (P : World E → Type 0) (o : Outcome A × World E) → Leaves P o → P (o.1)
unfolding Leaves
Leaves-elim P (o, w) h = h

pub Leaves-intro :
    {E A : Type 0} (P : World E → Type 0) (o : Outcome A × World E) → P (o.1) → Leaves P o
unfolding Leaves
Leaves-intro P (o, w) h = h

pub Leaves-map :
    {E A : Type 0} (P Q : World E → Type 0) (o : Outcome A × World E)
    → Leaves P o
    → ((w : World E) → P w → Q w)
    → Leaves Q o
unfolding Leaves
Leaves-map P Q (o, w) h up = up w h

pub resume-Leaves :
    {E A B : Type 0} (P Q : World E → Type 0) (o : Outcome A × World E) (rest : A → Py E B)
    → Leaves P o
    → ((w : World E) → P w → Q w)
    → ((a : A) (w : World E) → P w → Leaves Q (rest a w))
    → Leaves Q (resume o rest)
unfolding Leaves resume
resume-Leaves P Q (returned a, w) rest h up k = k a w h
resume-Leaves P Q (raised e, w) rest h up k = up w h

finished_at :
    {E A : Type 0} (Q : World E → Type 0) (o : Outcome A) (c : Outcome (Unit {0}) × World E)
    → Leaves Q c
    → Leaves Q (after_cleanup o c)
unfolding Leaves
finished_at Q o (returned _, w) h = h
finished_at Q o (raised e, w) h = h

module _ {E A : Type 0} where
  pub handled-Leaves :
      (P : World E → Type 0) (o : Outcome A × World E) (handler : Exn → Py E A)
      → Leaves P o
      → ((e : Exn) (w : World E) → P w → Leaves P (handler e w))
      → Leaves P (handled handler o)
  unfolding Leaves handled
  handled-Leaves P (returned a, w) handler h k = h
  handled-Leaves P (raised e, w) handler h k = k e w h

  -- A cleanup that turns `P` into `Q`, whatever it comes to itself.
  pub finished-Leaves :
      (P Q : World E → Type 0) (o : Outcome A × World E) (cleanup : Py E (Unit {0}))
      → Leaves P o
      → ((w : World E) → P w → Leaves Q (cleanup w))
      → Leaves Q (finished cleanup o)
  unfolding finished
  finished-Leaves P Q (o, w) cleanup h k = finished_at Q o (cleanup w) (k w (Leaves-elim P _ h))
