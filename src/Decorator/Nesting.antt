-- ===== src/Decorator/Nesting.antt =====
-- The span that `open_span` of llm_metrics/decorator.py makes under a trace.
use llm_metrics.Prelude.{
  ℕ, String, Bool, true, Option, none, some, ◌≡◌, refl, first_some, if◌then◌else◌, ◌==◌, arith,
  subst, sym,
}
use llm_metrics.Value.{Value, Fields}
use llm_metrics.Models.{Trace, Observation}
use llm_metrics.Context.{Context}
use llm_metrics.Sdk.{Platform, Sdk, put_observation}
use llm_metrics.Decorator.{Span, open_span, span_in, child_span, create_span}

-- a span under the trace `v`, and its observation under the parent `parent`
pub record Child {W : Type 0} (v : Trace) (parent : Option String) (r : Option Span × Sdk W)
    : Type 0 where
  pub span : Span
  pub observation : Observation
  pub opened : r.0 ≡ some span
  pub alive : r.1.observations span.observation ≡ some observation
  pub trace_id : observation.trace_id ≡ v.id
  pub parent_id : observation.parent_id ≡ parent
  pub sampled : span.sampled ≡ v.sampled
  pub no_root : span.trace ≡ none

if-true {ℓ} : {A : Type ℓ} (b : Bool) (x y : A) → b ≡ true → (if b then x else y) ≡ x
if-true b x y on = rw on refl

module _ {W : Type 0} (p : Platform W) where
  child_span-Child :
      (n k : String) (i : Value) (m : Fields) (parent : Option String) (t : Option Trace)
      (v : Trace) (s : Sdk W)
      → t ≡ some v
      → Child v (first_some parent s.context.parent_id) (child_span p n k i m parent none t s)
  unfolding child_span create_span put_observation
  child_span-Child n k i m parent t v s there = rw there (record {
    span = _;
    observation = _;
    opened = refl;
    alive = if-true (s.next == s.next) _ _ (ground arith);
    trace_id = refl;
    parent_id = refl;
    sampled = refl;
    no_root = refl;
  })

  span_in-Child :
      (n k : String) (i : Value) (m : Fields) (parent : Option String) (c : Option ℕ) (t : ℕ)
      (v : Trace) (s : Sdk W)
      → c ≡ some t
      → s.traces t ≡ some v
      → Child v (first_some parent s.context.parent_id) (span_in p n k i m parent c s)
  unfolding span_in
  span_in-Child n k i m parent c t v s here there =
      rw here (child_span-Child n k i m parent (s.traces t) v s there)

  -- The same for a trace that is given, or else current.
  pub open_span-Given :
      (n k : String) (i : Value) (m : Fields) (given : Option ℕ) (parent : Option String) (t : ℕ)
      (v : Trace) (s : Sdk W)
      → s.runtime.settings.enabled ≡ true
      → first_some given s.context.trace ≡ some t
      → s.traces t ≡ some v
      → Child v (first_some parent s.context.parent_id) (open_span p n k i m given parent s)
  unfolding open_span
  open_span-Given n k i m given parent t v s on here there =
      subst (Child v (first_some parent s.context.parent_id))
        (sym (if-true s.runtime.settings.enabled _ _ on))
        (span_in-Child n k i m parent (first_some given s.context.trace) t v s here there)

  -- an open span: its observation is live and belongs to the trace that is current once the span
  -- is active
  pub record Live (span : Span) (s : Sdk W) : Type 0 where
    pub address : ℕ
    pub trace : Trace
    pub observation : Observation
    pub on : s.runtime.settings.enabled ≡ true
    pub current : first_some span.trace s.context.trace ≡ some address
    pub there : s.traces address ≡ some trace
    pub alive : s.observations span.observation ≡ some observation
    pub trace_id : observation.trace_id ≡ trace.id
    pub sampled : span.sampled ≡ trace.sampled

  unfoldable LiveIf : Option Span × Sdk W → Type 0
  LiveIf (none, s) = Unit
  LiveIf (some span, s) = Live span s

  -- the span `span` of a state, and what opening another one within it gives
  pub record Below (span : Span) (s : Sdk W) (r : Option Span × Sdk W) : Type 0 where
    pub trace : Trace
    pub observation : Observation
    pub alive : s.observations span.observation ≡ some observation
    pub same_trace : observation.trace_id ≡ trace.id
    pub same_verdict : span.sampled ≡ trace.sampled
    pub child : Child trace (some observation.id) r
