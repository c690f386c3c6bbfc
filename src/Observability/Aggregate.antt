-- ===== src/Observability/Aggregate.antt =====
-- `InMemoryTelemetry.aggregate` of src/observability/sinks.py, without its sums of times and costs.
use self_healing_system_tfg.Base.{
  ℕ, suc, ◌+◌, ◌≡◌, refl, List, [], ◌∷◌, ◌++◌, ◌∙◌, ap, if◌then◌else◌, length, arith, Bool-cases,
  inl, inr,
}
use self_healing_system_tfg.Python.Text.{Text, text, text_eq}
use self_healing_system_tfg.Observability.{Span, TokenCounts, node_path}

-- `_llm_bucket()`
pub record LlmBucket : Type 0 where
  pub calls : ℕ
  pub prompt : ℕ
  pub cached : ℕ
  pub completion : ℕ

abbrev pub llm_bucket : LlmBucket
llm_bucket = record { calls = 0; prompt = 0; cached = 0; completion = 0 }

pub record NameBucket : Type 0 where
  pub count : ℕ
  pub errors : ℕ

-- `attributes.get("agent", "unknown")`
unfoldable pub agent_of : List (Text × Text) → Text
unfolding text_eq text
agent_of [] = text "unknown"
agent_of ((key, value) ∷ rest) =
    let later = agent_of rest in if text_eq key (text "agent") then value else later

unfoldable pub spent : TokenCounts → LlmBucket → LlmBucket
spent t b = record {
  calls = b.calls + 1;
  prompt = b.prompt + t.prompt_tokens;
  cached = b.cached + t.cached_tokens;
  completion = b.completion + t.completion_tokens;
}

unfoldable pub counted : Span → NameBucket → NameBucket
unfolding text_eq text
counted s b = record {
  count = b.count + 1;
  errors = b.errors + (if text_eq s.status (text "error") then 1 else 0);
}

-- `d.setdefault(key, start)`, changed in place.
module _ {A : Type 0} (change : A → A) (start : A) where
  unfoldable pub change_at : Text → List (Text × A) → List (Text × A)
  unfolding text_eq
  change_at key [] = (key, change start) ∷ []
  change_at key ((k, a) ∷ rest) =
      let later = change_at key rest in
      if text_eq k key then (k, change a) ∷ rest else (k, a) ∷ later

pub record Totals : Type 0 where
  pub by_name : List (Text × NameBucket)
  pub llm_total : LlmBucket
  pub by_agent : List (Text × LlmBucket)

abbrev pub nothing_yet : Totals
nothing_yet = record { by_name = []; llm_total = llm_bucket; by_agent = [] }

-- The loop's body.
unfoldable pub add_span : Totals → Span → Totals
unfolding counted change_at spent agent_of text_eq text
add_span t s =
    let named = change_at (counted s) (record { count = 0; errors = 0 }) s.name t.by_name in
    if text_eq s.name (text "llm.completion")
    then record {
      by_name = named;
      llm_total = spent s.tokens t.llm_total;
      by_agent = change_at (spent s.tokens) llm_bucket (agent_of s.attributes) t.by_agent;
    }
    else record t { by_name = named }

unfoldable pub add_spans : Totals → List Span → Totals
unfolding add_span
add_spans t [] = t
add_spans t (s ∷ ss) = add_spans (add_span t s) ss

pub record Aggregate : Type 0 where
  pub span_count : ℕ
  pub path : List Text
  pub totals : Totals

unfoldable pub aggregate : List Span → Aggregate
unfolding add_spans node_path
aggregate spans = record {
  span_count = length spans;
  path = node_path spans;
  totals = add_spans nothing_yet spans;
}

-- The sum of a figure over the buckets.
unfoldable pub sum_of : {A : Type 0} → (A → ℕ) → List (Text × A) → ℕ
sum_of f [] = 0
sum_of f ((k, a) ∷ rest) = f a + sum_of f rest

-- A change that adds `n` to a figure that starts at 0 adds `n` to its sum.
sum-change_at :
    {A : Type 0} (f : A → ℕ) (n : ℕ) (change : A → A) (start : A) (key : Text) (l : List (Text × A))
    → f start ≡ 0
    → ((a : A) → f (change a) ≡ f a + n)
    → sum_of f (change_at change start key l) ≡ sum_of f l + n
unfolding sum_of change_at
sum-change_at f n change start key [] zero_start adds = omega (arith, adds start, zero_start)
sum-change_at f n change start key ((k, a) ∷ rest) zero_start adds =
    elim (Bool-cases (text_eq k key)) [
      | inl same ↦ rw same (omega (arith, adds a))
      | inr differs ↦
          rw differs (omega (arith, sum-change_at f n change start key rest zero_start adds))
    ]

-- The breakdown by agent adds up to the total, figure by figure, and the spans of all names are `n`.
pub record AddsUp (t : Totals) (n : ℕ) : Type 0 where
  pub calls : sum_of (λ b. b.calls) t.by_agent ≡ t.llm_total.calls
  pub prompt : sum_of (λ b. b.prompt) t.by_agent ≡ t.llm_total.prompt
  pub cached : sum_of (λ b. b.cached) t.by_agent ≡ t.llm_total.cached
  pub completion : sum_of (λ b. b.completion) t.by_agent ≡ t.llm_total.completion
  pub names : sum_of (λ b. b.count) t.by_name ≡ n

named-sum :
    (s : Span) (t : Totals) (n : ℕ)
    → sum_of (λ b. b.count) t.by_name ≡ n
    → sum_of
        (λ b. b.count)
        (change_at (counted s) (record { count = 0; errors = 0 }) s.name t.by_name)
      ≡ n + 1
unfolding counted
named-sum s t n h =
    sum-change_at (λ b. b.count) 1 (counted s) (record { count = 0; errors = 0 }) s.name t.by_name
      refl (λ b. refl)
    ∙ ap (λ k. k + 1) h

add-AddsUp : (t : Totals) (s : Span) (n : ℕ) → AddsUp t n → AddsUp (add_span t s) (n + 1)
unfolding add_span spent
add-AddsUp t s n h =
    let agent = agent_of s.attributes in
    elim (Bool-cases (text_eq s.name (text "llm.completion"))) [
      | inl llm ↦ rw llm (record {
        calls =
            sum-change_at (λ b. b.calls) 1 (spent s.tokens) llm_bucket agent t.by_agent refl
              (λ b. refl)
            ∙ ap (λ k. k + 1) h.calls;
        prompt =
            sum-change_at (λ b. b.prompt) s.tokens.prompt_tokens (spent s.tokens) llm_bucket agent
              t.by_agent refl (λ b. refl)
            ∙ ap (λ k. k + s.tokens.prompt_tokens) h.prompt;
        cached =
            sum-change_at (λ b. b.cached) s.tokens.cached_tokens (spent s.tokens) llm_bucket agent
              t.by_agent refl (λ b. refl)
            ∙ ap (λ k. k + s.tokens.cached_tokens) h.cached;
        completion =
            sum-change_at (λ b. b.completion) s.tokens.completion_tokens (spent s.tokens) llm_bucket
              agent t.by_agent refl (λ b. refl)
            ∙ ap (λ k. k + s.tokens.completion_tokens) h.completion;
        names = named-sum s t n h.names;
      })
      | inr plain ↦ rw plain (record {
        calls = h.calls;
        prompt = h.prompt;
        cached = h.cached;
        completion = h.completion;
        names = named-sum s t n h.names;
      })
    ]

spans-AddsUp :
    (ss : List Span) (t : Totals) (n : ℕ) → AddsUp t n → AddsUp (add_spans t ss) (n + length ss)
unfolding add_spans
spans-AddsUp [] t n h = let e : n + 0 ≡ n = omega arith in rw e h
spans-AddsUp (s ∷ ss) t n h =
    let e : n + suc (length ss) ≡ n + 1 + length ss = omega arith in
    rw e (spans-AddsUp ss (add_span t s) (n + 1) (add-AddsUp t s n h))

-- Whatever was recorded, the calls and the three token counts of the agents add up to those of the total,
-- and the counts of the names add up to the number of the spans.
pub aggregate-AddsUp :
    (spans : List Span) → AddsUp ((aggregate spans).totals) ((aggregate spans).span_count)
unfolding aggregate sum_of
aggregate-AddsUp spans =
    let e : length spans ≡ 0 + length spans = omega arith in
    rw e (
      spans-AddsUp spans nothing_yet 0
        (record { calls = refl; prompt = refl; cached = refl; completion = refl; names = refl }))

-- A span more is one more step of the loop.
pub add_spans-append :
    (ss : List Span) (s : Span) (t : Totals)
    → add_spans t (ss ++ s ∷ []) ≡ add_span (add_spans t ss) s
unfolding add_spans
add_spans-append [] s t = refl
add_spans-append (x ∷ ss) s t = add_spans-append ss s (add_span t x)
