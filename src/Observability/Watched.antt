-- ===== src/Observability/Watched.antt =====
-- A watched call comes to what the call comes to, and leaves one span.
use self_healing_system_tfg.Base.{◌≡◌, refl, ◌∙◌, List, [], ◌∷◌, ◌++◌, none, some}
use self_healing_system_tfg.Python.Text.{Text, text}
use self_healing_system_tfg.Python.Effects.{
  Exn, Outcome, returned, raised, World, Py, pure, handled, finished, after_cleanup,
}
use self_healing_system_tfg.Observability.{Span, Sink, span_of, span}

-- A sink that keeps its spans in order, whether recording returns or raises.
abbrev pub Appends : {E : Type 0} → Sink E → (World E → List Span) → Type 0
Appends {E} sink spans = (s : Span) (w : World E) → spans ((sink s w).1) ≡ spans w ++ s ∷ []

swallowed :
    {E A : Type 0} (spans : World E → List Span) (o : Outcome A) (r : Outcome (Unit {0}) × World E)
    → ((after_cleanup o (handled (λ _. pure tt) r)).0 ≡ o)
      × (spans ((after_cleanup o (handled (λ _. pure tt) r)).1) ≡ spans (r.1))
unfolding handled
swallowed spans o (returned _, w) = (refl, refl)
swallowed spans o (raised e, w) = (refl, refl)

swallowed_outcome :
    {E A : Type 0} (o : Outcome A) (r : Outcome (Unit {0}) × World E)
    → (after_cleanup o (handled (λ _. pure tt) r)).0 ≡ o
unfolding handled
swallowed_outcome o (returned _, w) = refl
swallowed_outcome o (raised e, w) = refl

-- What a span tells of a call: its name, how it ended, and the caller's attributes, with those that it
-- added if the call returned.
abbrev pub Tells :
    {A : Type 0}
    → (Exn → Text)
    → Text
    → List (Text × Text)
    → (A → List (Text × Text))
    → Outcome A
    → Span
    → Type 0
Tells type_name name attributes enrich (returned a) s =
    (s.name ≡ name)
    × ((s.status ≡ text "ok") × ((s.error_type ≡ none) × (s.attributes ≡ attributes ++ enrich a)))
Tells type_name name attributes enrich (raised e) s =
    (s.name ≡ name)
    × ((s.status ≡ text "error")
        × ((s.error_type ≡ some (type_name e)) × (s.attributes ≡ attributes)))

span_of-Tells :
    {A : Type 0} (type_name : Exn → Text) (name : Text) (attributes : List (Text × Text))
    → (enrich : A → List (Text × Text)) (o : Outcome A)
    → Tells type_name name attributes enrich o (span_of type_name name attributes enrich o)
unfolding span_of
span_of-Tells type_name name attributes enrich (returned a) = (refl, (refl, (refl, refl)))
span_of-Tells type_name name attributes enrich (raised e) = (refl, (refl, (refl, refl)))

-- With a sink that keeps its spans in order, whether recording returns or raises, a watched call
-- returns or raises what the call does; and after it the sink has one span more than after the call:
-- with the call's name, with the status "ok" and the added attributes if the call returned, and with the
-- status "error" and the exception's type if it raised.
pub span_watches :
    {E A : Type 0} (type_name : Exn → Text) (sink : Sink E) (spans : World E → List Span)
    → (name : Text) (attributes : List (Text × Text)) (enrich : A → List (Text × Text))
    → (body : Py E A) (w : World E) → Appends sink spans
    → ((span type_name sink name attributes enrich body w).0 ≡ (body w).0)
      × ((s : Span) × (spans ((span type_name sink name attributes enrich body w).1)
            ≡ spans ((body w).1) ++ s ∷ [])
          × Tells type_name name attributes enrich ((body w).0) s)
unfolding span finished
span_watches type_name sink spans name attributes enrich body w appends =
    let s = span_of type_name name attributes enrich ((body w).0) in
    let kept = swallowed spans ((body w).0) (sink s ((body w).1)) in
    (
      kept.0,
      (
        s,
        kept.1 ∙ appends s ((body w).1),
        span_of-Tells type_name name attributes enrich ((body w).0),
      ),
    )

-- What the sink keeps makes no difference to the outcome.
pub span_outcome :
    {E A : Type 0} (type_name : Exn → Text) (sink : Sink E) (name : Text)
    (attributes : List (Text × Text)) (enrich : A → List (Text × Text)) (body : Py E A)
    (w : World E)
    → (span type_name sink name attributes enrich body w).0 ≡ (body w).0
unfolding span finished
span_outcome type_name sink name attributes enrich body w =
    swallowed_outcome ((body w).0)
      (sink (span_of type_name name attributes enrich ((body w).0)) ((body w).1))
