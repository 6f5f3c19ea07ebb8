-- ===== src/Decorator/Silence.antt =====
-- Decorated calls under a trace that was not sampled (llm_metrics/decorator.py).
use llm_metrics.Prelude.{
  ◌∙◌, ℕ, Bool, true, false, Option, none, some, ◌≡◌, refl, sym, subst, ap, if◌then◌else◌,
}
use llm_metrics.Prelude.Int.{◌-ℤ◌}
use llm_metrics.Value.{Value, null, Fields, Objects}
use llm_metrics.Models.{Trace, Observation, fail, end_observation}
use llm_metrics.Context.{enter_observation, exit_observation}
use llm_metrics.Sdk.{Platform, Sdk, modify_observation, put_observation}
use llm_metrics.Decorator.{
  Span, Spec, Outcome, returned, raising, open_span, begin, begin_with, span_in, child_span,
  create_span, call_in, wrap_sync, finish_span, finish_returned, finish_raised, close_span,
  end_root, activate, activate_in, with_observation, scoped, stored_output, String,
}
use llm_metrics.Decorator.Scope.{if-both, Same, Same-trans, modify_observation-Same}

pub if-false {ℓ} : {A : Type ℓ} (b : Bool) (x y : A) → b ≡ false → (if b then x else y) ≡ y
if-false b x y off = rw off refl

-- a span that did not make the trace, and is not sampled
unfoldable pub QuietSpan : Option Span → Type 0
QuietSpan none = Unit
QuietSpan (some span) = (span.trace ≡ none) × (span.sampled ≡ false)

module _ {W : Type 0} where
  -- the current trace is alive and was not sampled
  pub record Unsampled (s : Sdk W) : Type 0 where
    pub address : ℕ
    pub trace : Trace
    pub current : s.context.trace ≡ some address
    pub alive : s.traces address ≡ some trace
    pub off : trace.sampled ≡ false

  -- under an unsampled trace the function hands nothing over, and leaves such a trace current
  unfoldable pub Silent : (Sdk W → Outcome × Sdk W) → Type 0
  Silent f = (s : Sdk W) → Unsampled s → ((f s).1.runtime ≡ s.runtime) × Unsampled (f s).1

  pub Same-Unsampled : {s s' : Sdk W} → Same s s' → Unsampled s → Unsampled s'
  Same-Unsampled {s} {s'} same u = record {
    address = u.address;
    trace = u.trace;
    current = ap (λ c. c.trace) same.context ∙ u.current;
    alive = ap (λ f. f u.address) same.traces ∙ u.alive;
    off = u.off;
  }

  -- what opening a span under an unsampled trace gives
  pub record Quiet (s : Sdk W) (r : Option Span × Sdk W) : Type 0 where
    pub quiet : QuietSpan r.0
    pub same : Same s r.1

  pub unopened : (s : Sdk W) → Quiet s (none, s)
  unfolding QuietSpan
  unopened s = record {
    quiet = tt;
    same = record { context = refl; runtime = refl; traces = refl };
  }

  module _ (p : Platform W) where
    child_span-Quiet :
        (n k : String) (i : Value) (m : Fields) (parent : Option String) (v : Option Trace)
        (t : Trace) (s : Sdk W)
        → v ≡ some t
        → t.sampled ≡ false
        → Quiet s (child_span p n k i m parent none v s)
    unfolding child_span create_span put_observation QuietSpan
    child_span-Quiet n k i m parent v t s there off = rw there (record {
      quiet = (refl, off);
      same = record { context = refl; runtime = refl; traces = refl };
    })

    span_in-Quiet :
        (n k : String) (i : Value) (m : Fields) (parent : Option String) (c : Option ℕ) (s : Sdk W)
        → (u : Unsampled s) → c ≡ some u.address
        → Quiet s (span_in p n k i m parent c s)
    unfolding span_in
    span_in-Quiet n k i m parent c s u here =
        rw here (child_span-Quiet n k i m parent (s.traces u.address) u.trace s u.alive u.off)

    -- a span that is opened in the current trace, of whatever kind
    pub open_span-Quiet :
        (n k : String) (i : Value) (m : Fields) (parent : Option String) (s : Sdk W)
        → Unsampled s
        → Quiet s (open_span p n k i m none parent s)
    unfolding open_span
    open_span-Quiet n k i m parent s u =
        if-both (Quiet s) s.runtime.settings.enabled
          (span_in-Quiet n k i m parent s.context.trace s u u.current) (unopened s)

    begin_with-Quiet :
        (spec : Spec) (captured : Option Value) (s : Sdk W)
        → Unsampled s
        → Quiet s (begin_with p spec captured s)
    unfolding begin_with
    begin_with-Quiet spec none s u = unopened s
    begin_with-Quiet spec (some i) s u =
        open_span-Quiet spec.name spec.as_type i spec.metadata none s u

    begin-Quiet :
        (spec : Spec) (captured : Option Value) (s : Sdk W)
        → Unsampled s
        → Quiet s (begin p spec captured s)
    unfolding begin
    begin-Quiet spec captured s u =
        if-both (Quiet s) s.runtime.settings.enabled
          (if-both (Quiet s) _ (begin_with-Quiet spec captured s u)
            (begin_with-Quiet spec (some null) s u))
          (unopened s)

    end_root-none : (t : Option ℕ) (s : Sdk W) → t ≡ none → end_root p t s ≡ s
    unfolding end_root
    end_root-none t s own = rw own refl

    close_span-Same :
        (span : Span) (s : Sdk W) → QuietSpan (some span) → Same s (close_span p span s)
    unfolding close_span QuietSpan
    close_span-Same span s (own, off) =
        let s' : Sdk W =
          modify_observation span.observation (end_observation (p.utcnow s.world)) s in
        let closed : close_span p span s ≡ s' =
          if-false span.sampled _ _ off ∙ end_root-none span.trace s' own in
        subst (Same s) (sym closed) (modify_observation-Same span.observation _ s)

    finish_returned-Same :
        (span : Span) (out : Option (Option Value)) (s : Sdk W)
        → QuietSpan (some span)
        → Same s (finish_returned p span out s)
    unfolding finish_returned
    finish_returned-Same span none s q = record { context = refl; runtime = refl; traces = refl }
    finish_returned-Same span (some none) s q = close_span-Same span s q
    finish_returned-Same span (some (some out)) s q =
        Same-trans (modify_observation-Same span.observation (λ o. record o { output = out }) s)
          (close_span-Same span _ q)

    finish_raised-Same :
        (span : Span) (message : Option String) (s : Sdk W)
        → QuietSpan (some span)
        → Same s (finish_raised p span message s)
    unfolding finish_raised
    finish_raised-Same span none s q = record { context = refl; runtime = refl; traces = refl }
    finish_raised-Same span (some message) s q = close_span-Same span s q

    pub finish_span-Same :
        (objects : Objects) (span : Span) (r : Outcome) (c : Option Bool) (b : Bool) (s : Sdk W)
        → QuietSpan (some span)
        → Same s (finish_span p objects span r c b s)
    unfolding finish_span
    finish_span-Same objects span (raising e) c b s q =
        let time = λ (o : Observation). record o {
          latency_ms = some (p.perf_counter s.world -ℤ span.started);
        } in
        let timed : Sdk W = modify_observation span.observation time s in
        let timing = modify_observation-Same span.observation time s in
        let failing = modify_observation-Same span.observation (fail e) timed in
        Same-trans timing (Same-trans failing (finish_raised-Same span e.message _ q))
    finish_span-Same objects span (returned v) c b s q =
        let time = λ (o : Observation). record o {
          latency_ms = some (p.perf_counter s.world -ℤ span.started);
        } in
        Same-trans (modify_observation-Same span.observation time s)
          (finish_returned-Same span (stored_output p objects c b v s) _ q)

    with_observation-Silent :
        (o : ℕ) (v : Option Observation) (f : Sdk W → Outcome × Sdk W)
        → Silent f
        → Silent (with_observation o v f)
    unfolding with_observation scoped enter_observation exit_observation Silent
    with_observation-Silent o none f silent s u = silent s u
    with_observation-Silent o (some v) f silent s u =
        let s' : Sdk W = record s { context = enter_observation o v.id s.context } in
        let u' : Unsampled s' = record {
          address = u.address;
          trace = u.trace;
          current = u.current;
          alive = u.alive;
          off = u.off;
        } in
        let (kept, after) = silent s' u' in
        (
          kept,
          record {
            address = after.address;
            trace = after.trace;
            current = after.current;
            alive = after.alive;
            off = after.off;
          },
        )

    activate_in-Silent :
        (o : ℕ) (t : Option ℕ) (f : Sdk W → Outcome × Sdk W)
        → t ≡ none
        → Silent f
        → Silent (activate_in o t f)
    unfolding activate_in Silent
    activate_in-Silent o t f own silent s u =
        rw own (with_observation-Silent o (s.observations o) f silent s u)

    call_in-Silent :
        (objects : Objects) (c : Option Bool) (f : Sdk W → Outcome × Sdk W) (span : Option Span)
        → QuietSpan span
        → Silent f
        → Silent (call_in p objects c f span)
    unfolding call_in activate Silent
    call_in-Silent objects c f none q silent s u = silent s u
    call_in-Silent objects c f (some span) q silent s u =
        let own : span.trace ≡ none = unfold QuietSpan in q.0 in
        let (kept, after) = activate_in-Silent span.observation span.trace f own silent s u in
        let same = finish_span-Same objects span _ c true (activate span f s).1 q in
        (same.runtime ∙ kept, Same-Unsampled same after)

    -- A function that hands nothing to the pipeline while an unsampled trace is current, and leaves
    -- such a trace current, is the same when it is decorated: its wrapper hands nothing over and
    -- leaves an unsampled trace current.
    pub wrap_sync-Silent :
        (objects : Objects) (spec : Spec) (captured : Option Value) (f : Sdk W → Outcome × Sdk W)
        → Silent f
        → (s : Sdk W) → Unsampled s
        → let (outcome, s') = wrap_sync p objects spec captured f s in
          (s'.runtime ≡ s.runtime) × Unsampled s'
    unfolding wrap_sync Silent
    wrap_sync-Silent objects spec captured f silent s u =
        let opened = begin-Quiet spec captured s u in
        let (kept, after) =
          call_in-Silent objects spec.capture_output f (begin p spec captured s).0 opened.quiet
            silent (begin p spec captured s).1 (Same-Unsampled opened.same u) in
        (kept ∙ opened.same.runtime, after)
