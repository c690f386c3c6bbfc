-- ===== src/Observability.antt =====
-- src/observability/span.py and src/core/domain/telemetry.py, with the in-memory and the fan-out
-- sinks of src/observability/sinks.py. Times and costs are left out.
pub mod Watched
pub mod Context
pub mod Ports
pub mod Session
pub mod Aggregate
pub mod Llm
pub mod Jsonl
use self_healing_system_tfg.Base.{
  ℕ, Bool, true, false, List, [], ◌∷◌, ◌++◌, Option, none, some, if◌then◌else◌, drop, length,
}
use self_healing_system_tfg.Python.Text.{Text, text, starts_with}
use self_healing_system_tfg.Python.Effects.{
  Exn, Outcome, returned, raised, World, Py, pure, rescue, finished, ◌>>◌,
}

-- The token counts among the attributes of an `llm.completion` span; a count that is missing is 0.
pub record TokenCounts : Type 0 where
  pub prompt_tokens : ℕ
  pub cached_tokens : ℕ
  pub completion_tokens : ℕ

abbrev pub no_tokens : TokenCounts
no_tokens = record { prompt_tokens = 0; cached_tokens = 0; completion_tokens = 0 }

-- `Span`, without its times; `status` is `"error"` exactly if there is an error type.
pub record Span : Type 0 where
  pub name : Text
  pub status : Text
  pub error_type : Option Text
  pub attributes : List (Text × Text)
  pub tokens : TokenCounts

-- `TelemetryPort`: what a sink does with a span.
abbrev pub Sink : Type 0 → Type 0
Sink E = Span → Py E (Unit {0})

-- `NullTelemetry`
unfoldable pub null_telemetry : {E : Type 0} → Sink E
null_telemetry s = pure tt

-- `InMemoryTelemetry.record`, in an environment that is the list of spans.
unfoldable pub record_in_memory : Sink (List Span)
record_in_memory s w = (returned tt, record w { env = w.env ++ s ∷ [] })

-- `MultiTelemetry`: each sink in turn, its errors swallowed.
unfoldable pub multi_telemetry : {E : Type 0} → List (Sink E) → Sink E
multi_telemetry [] s = pure tt
multi_telemetry (sink ∷ sinks) s = do rescue (sink s) (λ _. pure tt); multi_telemetry sinks s

-- `aggregate()["node_path"]`: the nodes that a run walked through.
unfoldable pub node_path : List Span → List Text
unfolding starts_with text
node_path [] = []
node_path (s ∷ ss) =
    let rest = node_path ss in
    if starts_with s.name (text "node.") then drop (length (text "node.")) s.name ∷ rest else rest

-- `type_name` is `type(exc).__name__`; `enrich` is what the caller adds to the attributes once the
-- block has returned.
module _ {A : Type 0} (type_name : Exn → Text) where
  unfoldable pub span_of : Text → List (Text × Text) → (A → List (Text × Text)) → Outcome A → Span
  unfolding text
  span_of name attributes enrich (returned a) = record {
    name = name;
    status = text "ok";
    error_type = none;
    attributes = attributes ++ enrich a;
    tokens = no_tokens;
  }
  span_of name attributes enrich (raised e) = record {
    name = name;
    status = text "error";
    error_type = some (type_name e);
    attributes = attributes;
    tokens = no_tokens;
  }

  module _ {E : Type 0} where
    -- `async with span(sink, name, **attributes)`: the span is recorded in the `finally`, and what
    -- recording raises is swallowed.
    unfoldable pub span :
        Sink E → Text → List (Text × Text) → (A → List (Text × Text)) → Py E A → Py E A
    unfolding span_of
    span sink name attributes enrich body w =
        let ran = body w in
        finished (rescue (sink (span_of name attributes enrich (ran.0))) (λ _. pure tt)) ran

-- `instrument_node`
unfoldable pub instrument_node :
    {E A B : Type 0} → (Exn → Text) → Text → (A → Py E B) → Sink E → A → Py E B
unfolding span text
instrument_node type_name name node sink a =
    span type_name sink (text "node." ++ name) [] (λ _. []) (node a)
