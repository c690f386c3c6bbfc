-- ===== src/Observability/Llm.antt =====
-- src/observability/llm.py: the callback that litellm calls after a completion, and its registration.
-- Costs are left out.
use self_healing_system_tfg.Base.{
  ◌+◌, ℕ, ◌==◌, ◌≡◌, refl, ap, Bool, true, false, List, [], ◌∷◌, ◌++◌, Option, none, some,
  if◌then◌else◌, any, Bool-cases, inl, inr, arith,
}
use self_healing_system_tfg.Python.Text.{Text, text, truthy, text_eq}
use self_healing_system_tfg.Python.Effects.{
  Outcome, returned, raised, World, Py, pure, rescue, handled,
}
use self_healing_system_tfg.Observability.{Span, TokenCounts, Sink}
use self_healing_system_tfg.Observability.Context.{ContextVar}
use self_healing_system_tfg.Observability.Watched.{Appends}
use self_healing_system_tfg.Observability.Aggregate.{
  LlmBucket, Totals, spent, add_span, add_spans, nothing_yet, add_spans-append, aggregate,
}

-- What `_record` reads of `kwargs` and of the response; a figure may be missing.
pub record Completion : Type 0 where
  pub prompt : Option ℕ
  pub cached : Option ℕ
  pub completion : Option ℕ
  pub model : Option Text
  pub response_model : Text

-- `int(x or 0)`
abbrev or_zero : Option ℕ → ℕ
or_zero none = 0
or_zero (some n) = n

unfoldable pub tokens_of : Completion → TokenCounts
tokens_of c = record {
  prompt_tokens = or_zero c.prompt;
  cached_tokens = or_zero c.cached;
  completion_tokens = or_zero c.completion;
}

-- `kwargs.get("model") or getattr(response_obj, "model", "")`
abbrev model_of : Completion → Text
model_of c = elim c.model [
  | none ↦ c.response_model
  | some name ↦ if truthy name then name else c.response_model
]

unfoldable pub completion_span : Text → Completion → Span
unfolding tokens_of text
completion_span agent c = record {
  name = text "llm.completion";
  status = text "ok";
  error_type = none;
  attributes = (text "agent", agent) ∷ (text "model", model_of c) ∷ [];
  tokens = tokens_of c;
}

module _ {E : Type 0} (current_agent : ContextVar E Text)
    (current_sink : ContextVar E (Option (Sink E))) where
  abbrev record_to : Option (Sink E) → Span → Py E (Unit {0})
  record_to none s = pure tt
  record_to (some sink) s = rescue (sink s) (λ _. pure tt)

  -- `_record`
  unfoldable pub record_completion : Completion → Py E (Unit {0})
  unfolding completion_span
  record_completion c w = record_to (current_sink.get w) (completion_span (current_agent.get w) c) w

-- What the module and `litellm.callbacks` hold: the instance of the logger, and the callbacks. `made` is
-- the instance that `_LLMTelemetry()` gives.
pub record Registry : Type 0 where
  pub instance_made : Option ℕ
  pub callbacks : List ℕ

-- `if _logger_instance not in callbacks: litellm.callbacks = [*callbacks, _logger_instance]`
unfoldable pub with_callback : ℕ → List ℕ → List ℕ
with_callback mine callbacks =
    if any (λ c. c == mine) callbacks then callbacks else callbacks ++ mine ∷ []

-- `ensure_registered`, if litellm can be imported; if it cannot, nothing is done.
unfoldable pub ensure_registered : Bool → ℕ → Registry → Registry
unfolding with_callback
ensure_registered false made r = r
ensure_registered true made r =
    let mine : ℕ = elim r.instance_made [ none ↦ made | some i ↦ i ] in
    record { instance_made = some mine; callbacks = with_callback mine r.callbacks }

swallow :
    {E : Type 0} (r : Outcome (Unit {0}) × World E)
    → ((handled (λ _. pure tt) r).0 ≡ returned tt) × ((handled (λ _. pure tt) r).1 ≡ r.1)
unfolding handled
swallow (returned u, w) = (refl, refl)
swallow (raised e, w) = (refl, refl)

-- A figure grows by a count, or stays if the count is missing.
abbrev pub GrowsBy : Option ℕ → ℕ → ℕ → Type 0
GrowsBy none before after = after ≡ before
GrowsBy (some n) before after = after ≡ before + n

-- A completion is one call more, and each figure grows by its own count.
pub record Grows (c : Completion) (before after : LlmBucket) : Type 0 where
  pub calls : after.calls ≡ before.calls + 1
  pub prompt : GrowsBy c.prompt before.prompt after.prompt
  pub cached : GrowsBy c.cached before.cached after.cached
  pub completion : GrowsBy c.completion before.completion after.completion

or_zero-GrowsBy : (o : Option ℕ) (n : ℕ) → GrowsBy o n (n + or_zero o)
or_zero-GrowsBy none n = omega arith
or_zero-GrowsBy (some k) n = refl

completion-Grows :
    (agent : Text) (c : Completion) (t : Totals)
    → Grows c t.llm_total ((add_span t (completion_span agent c)).llm_total)
unfolding add_span spent completion_span tokens_of text text_eq
completion-Grows agent c t = record {
  calls = refl;
  prompt = or_zero-GrowsBy c.prompt t.llm_total.prompt;
  cached = or_zero-GrowsBy c.cached t.llm_total.cached;
  completion = or_zero-GrowsBy c.completion t.llm_total.completion;
}

module _ {E : Type 0} (current_agent : ContextVar E Text)
    (current_sink : ContextVar E (Option (Sink E))) (sink : Sink E)
    (spans : World E → List Span) where
  -- With a sink that keeps its spans in order and that is the current one, the callback raises nothing,
  -- whether recording returns or raises, and the total of the aggregate grows by one call, and its
  -- prompt, cached and completion tokens by those of the completion, or not at all if they are missing.
  pub record_completion-Grows :
      (c : Completion) (w : World E)
      → current_sink.get w ≡ some sink
      → Appends sink spans
      → ((record_completion current_agent current_sink c w).0 ≡ returned tt)
        × Grows c ((aggregate (spans w)).totals.llm_total) (
            (aggregate
              (spans ((record_completion current_agent current_sink c w).1))).totals.llm_total)
  unfolding record_completion aggregate
  record_completion-Grows c w is_set appends =
      let s = completion_span (current_agent.get w) c in
      let (silent, kept) = swallow (sink s w) in
      rw is_set (
        silent,
        rw (kept, appends s w, add_spans-append (spans w) s nothing_yet)
            (completion-Grows (current_agent.get w) c (add_spans nothing_yet (spans w))),
      )

any-last : (n : ℕ) (ns : List ℕ) → any (λ c. c == n) (ns ++ n ∷ []) ≡ true
any-last n [] = ground arith
any-last n (m ∷ ns) = ground (arith, any-last n ns)

with_callback_twice :
    (mine : ℕ) (cs : List ℕ) → with_callback mine (with_callback mine cs) ≡ with_callback mine cs
unfolding with_callback
with_callback_twice mine cs = elim (Bool-cases (any (λ c. c == mine) cs)) [
  | inl there ↦ rw there (rw there refl)
  | inr missing ↦ rw (missing, any-last mine cs) refl
]

-- To register a second time, with whatever instance, changes nothing more.
pub ensure_registered_twice :
    (importable : Bool) (made made' : ℕ) (r : Registry)
    → ensure_registered importable made' (ensure_registered importable made r)
      ≡ ensure_registered importable made r
unfolding ensure_registered
ensure_registered_twice false made made' r = refl
ensure_registered_twice true made made' r =
    let mine : ℕ = elim r.instance_made [ none ↦ made | some i ↦ i ] in
    ap (λ cs. record { instance_made = some mine; callbacks = cs })
      (with_callback_twice mine r.callbacks)
