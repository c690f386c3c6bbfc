-- ===== src/Tests/Watching.antt =====
-- A watched call that raises, with the in-memory sink.
use self_healing_system_tfg.Base.{
  ◌≡◌, refl, false, List, [], ◌∷◌, ◌++◌, true, false, Option, none, some,
}
use self_healing_system_tfg.Python.Text.{Text, text, starts_with}
use self_healing_system_tfg.Python.Effects.{
  Exn, other, write_op, returned, raised, World, Py, throw, finished, handled,
}
use self_healing_system_tfg.Observability.{
  Span, Sink, record_in_memory, span_of, span, instrument_node, node_path,
}
use self_healing_system_tfg.Observability.Watched.{Tells, span_watches}
use self_healing_system_tfg.Observability.Jsonl.{IsAppended, record_jsonl, record_jsonl_appends}
use self_healing_system_tfg.Observability.Context.{ContextVar}
use self_healing_system_tfg.Observability.Aggregate.{AddsUp, aggregate, aggregate-AddsUp}
use self_healing_system_tfg.Observability.Llm.{
  Completion, Grows, completion_span, record_completion, record_completion-Grows, Registry,
  ensure_registered, ensure_registered_twice,
}

abbrev unwatched : World (List Span)
unwatched = record { files = []; denied = λ _ _. false; env = [] }

abbrev failing : Py (List Span) (Unit {0})
failing = throw (other (text "boom"))

abbrev any_name : Exn → Text
any_name _ = text "RuntimeError"

walked :
    node_path (
      (instrument_node any_name
        (text "fix")
        (λ (n : Text). failing)
        record_in_memory
        []
        unwatched).1.env)
    ≡ text "fix" ∷ []
unfolding instrument_node span span_of record_in_memory node_path starts_with text finished handled
walked = refl

span_watches_example :
    ((span any_name record_in_memory (text "fixer.fix") [] (λ _. []) failing unwatched).0
      ≡ raised (other (text "boom")))
    × ((s : Span) × ((span any_name record_in_memory
            (text "fixer.fix")
            []
            (λ _. [])
            failing
            unwatched).1.env
          ≡ [] ++ s ∷ [])
        × Tells {A = Unit {0}} any_name
            (text "fixer.fix")
            []
            (λ _. [])
            (raised (other (text "boom")))
            s)
unfolding record_in_memory
span_watches_example =
    span_watches any_name record_in_memory (λ w. w.env) (text "fixer.fix") [] (λ _. []) failing
      unwatched (λ s w. refl)

-- Two completions of two agents, one without its figures.
abbrev completed : Completion
completed = record {
  prompt = some 100;
  cached = some 40;
  completion = some 7;
  model = none;
  response_model = text "model";
}

abbrev two_completions : List Span
two_completions =
    completion_span (text "tester") completed
    ∷ completion_span (text "corrector") (record completed { cached = none })
    ∷ []

aggregate-AddsUp_example :
    AddsUp ((aggregate two_completions).totals) ((aggregate two_completions).span_count)
aggregate-AddsUp_example = aggregate-AddsUp two_completions

abbrev tester_runs : ContextVar (List Span) Text
tester_runs = record { get = λ w. text "tester"; set = λ agent w. w }

abbrev in_memory : ContextVar (List Span) (Option (Sink (List Span)))
in_memory = record { get = λ w. some record_in_memory; set = λ sink w. w }

record_completion-Grows_example :
    ((record_completion tester_runs in_memory completed unwatched).0 ≡ returned tt)
    × Grows completed ((aggregate (unwatched.env)).totals.llm_total) (
        (aggregate
          ((record_completion tester_runs in_memory completed unwatched).1.env)).totals.llm_total)
unfolding record_in_memory
record_completion-Grows_example =
    record_completion-Grows tester_runs in_memory record_in_memory (λ w. w.env) completed unwatched
      refl (λ s w. refl)

abbrev unregistered : Registry
unregistered = record { instance_made = none; callbacks = 5 ∷ [] }

ensure_registered_twice_example :
    ensure_registered true 2 (ensure_registered true 1 unregistered)
    ≡ ensure_registered true 1 unregistered
ensure_registered_twice_example = ensure_registered_twice true 1 2 unregistered

abbrev boom_span : Span
boom_span = completion_span (text "tester") completed

record_jsonl_appends_example :
    ((record_jsonl (λ s. s.name) (text "spans.jsonl") boom_span unwatched).0 ≡ returned tt)
    × ((unwatched.denied write_op (text "spans.jsonl") ≡ false
          → IsAppended
              (text "spans.jsonl")
              (boom_span.name ++ text "\n")
              unwatched
              ((record_jsonl (λ s. s.name) (text "spans.jsonl") boom_span unwatched).1))
        × (unwatched.denied write_op (text "spans.jsonl") ≡ true
            → (record_jsonl (λ s. s.name) (text "spans.jsonl") boom_span unwatched).1 ≡ unwatched))
record_jsonl_appends_example =
    record_jsonl_appends (λ s. s.name) (text "spans.jsonl") boom_span unwatched
