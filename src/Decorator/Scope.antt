-- ===== src/Decorator/Scope.antt =====
-- The outcome and the context of a decorated call (llm_metrics/decorator.py).
use llm_metrics.Prelude.Int.{ℤ}
use llm_metrics.Prelude.Int.{◌-ℤ◌}
use llm_metrics.Prelude.{
  ◌∙◌, ℕ, Bool, first_some, true, false, Option, none, some, ◌≡◌, refl, ap, if◌then◌else◌, arith,
}
use llm_metrics.Value.{Value, Objects}
use llm_metrics.Models.{Trace, Observation}
use llm_metrics.Context.{Context, exit_all, exit_observation, enter_observation}
use llm_metrics.Sdk.{
  put_trace, put_observation, Platform, Sdk, emit, modify_observation, set_observation,
  modify_trace, set_trace,
}
use llm_metrics.Decorator.{
  Span, Spec, Outcome, returned, raising, open_span, begin, begin_with, span_in, child_span,
  create_span, create_trace, call_in, wrap_sync, finish_span, finish_returned, finish_raised,
  close_span, end_root, emit_root, activate, activate_in, with_trace, with_observation, scoped,
  stored_output, put_trace, sample, put_observation, null, String, Fields, end_observation, fail,
}

pub if-both {ℓ ℓ'} :
    {A : Type ℓ} {x y : A} (P : A → Type ℓ') (b : Bool) → P x → P y → P (if b then x else y)
if-both P true px py = px
if-both P false px py = py

module _ {W : Type 0} where
  -- the function leaves the context as it found it
  unfoldable pub KeepsContext : {A : Type 0} → (Sdk W → A × Sdk W) → Type 0
  KeepsContext f = (s : Sdk W) → (f s).1.context ≡ s.context

  -- what changes an observation only
  pub record Same (s s' : Sdk W) : Type 0 where
    pub context : s'.context ≡ s.context
    pub runtime : s'.runtime ≡ s.runtime
    pub traces : s'.traces ≡ s.traces

  pub Same-trans : {s s' s'' : Sdk W} → Same s s' → Same s' s'' → Same s s''
  Same-trans p q = record {
    context = q.context ∙ p.context;
    runtime = q.runtime ∙ p.runtime;
    traces = q.traces ∙ p.traces;
  }

  set_observation-Same :
      (o : ℕ) (f : Observation → Observation) (v : Option Observation) (s : Sdk W)
      → Same s (set_observation o f v s)
  unfolding set_observation
  set_observation-Same o f none s = record { context = refl; runtime = refl; traces = refl }
  set_observation-Same o f (some v) s = record { context = refl; runtime = refl; traces = refl }

  pub modify_observation-Same :
      (o : ℕ) (f : Observation → Observation) (s : Sdk W) → Same s (modify_observation o f s)
  unfolding modify_observation
  modify_observation-Same o f s = set_observation-Same o f _ s

  set_trace-context :
      (t : ℕ) (f : Trace → Trace) (v : Option Trace) (s : Sdk W)
      → (set_trace t f v s).context ≡ s.context
  unfolding set_trace
  set_trace-context t f none s = refl
  set_trace-context t f (some v) s = refl

  module _ (p : Platform W) where
    end_root-context : (t : Option ℕ) (s : Sdk W) → (end_root p t s).context ≡ s.context
    unfolding end_root modify_trace
    end_root-context none s = refl
    end_root-context (some t) s = set_trace-context t _ _ s

    emit_root-context : (t : Option ℕ) (s : Sdk W) → (emit_root p t s).context ≡ s.context
    unfolding emit_root emit
    emit_root-context none s = refl
    emit_root-context (some t) s = refl

    close_span-context : (span : Span) (s : Sdk W) → (close_span p span s).context ≡ s.context
    unfolding close_span emit
    close_span-context span s =
        let s' : Sdk W =
          modify_observation span.observation (end_observation (p.utcnow s.world)) s in
        let before : (end_root p span.trace s').context ≡ s.context =
          end_root-context span.trace s'
          ∙ (modify_observation-Same span.observation (end_observation (p.utcnow s.world))
              s).context in
        if-both (λ (r : Sdk W). r.context ≡ s.context) span.sampled
          (emit_root-context span.trace _ ∙ before) before

    finish_returned-context :
        (span : Span) (out : Option (Option Value)) (s : Sdk W)
        → (finish_returned p span out s).context ≡ s.context
    unfolding finish_returned
    finish_returned-context span none s = refl
    finish_returned-context span (some none) s = close_span-context span s
    finish_returned-context span (some (some out)) s =
        let store = λ (o : Observation). record o { output = out } in
        close_span-context span (modify_observation span.observation store s)
        ∙ (modify_observation-Same span.observation store s).context

    finish_raised-context :
        (span : Span) (message : Option String) (s : Sdk W)
        → (finish_raised p span message s).context ≡ s.context
    unfolding finish_raised
    finish_raised-context span none s = refl
    finish_raised-context span (some message) s = close_span-context span s

    pub finish_span-context :
        (objects : Objects) (span : Span) (r : Outcome) (c : Option Bool) (b : Bool) (s : Sdk W)
        → (finish_span p objects span r c b s).context ≡ s.context
    unfolding finish_span
    finish_span-context objects span (raising e) c b s =
        let time = λ (o : Observation). record o {
          latency_ms = some (p.perf_counter s.world -ℤ span.started);
        } in
        let timed : Sdk W = modify_observation span.observation time s in
        finish_raised-context span e.message (modify_observation span.observation (fail e) timed)
        ∙ (modify_observation-Same span.observation (fail e) timed).context
        ∙ (modify_observation-Same span.observation time s).context
    finish_span-context objects span (returned v) c b s =
        let time = λ (o : Observation). record o {
          latency_ms = some (p.perf_counter s.world -ℤ span.started);
        } in
        finish_returned-context span (stored_output p objects c b v s)
          (modify_observation span.observation time s)
        ∙ (modify_observation-Same span.observation time s).context

    sample-context : (rate : ℤ) (s : Sdk W) → (sample p rate s).1.context ≡ s.context
    unfolding sample
    sample-context rate s = ground arith

    sample-runtime : (rate : ℤ) (s : Sdk W) → (sample p rate s).1.runtime ≡ s.runtime
    unfolding sample
    sample-runtime rate s = ground arith

    -- what opening a span leaves as it was
    pub record Before (s s' : Sdk W) : Type 0 where
      pub context : s'.context ≡ s.context
      pub runtime : s'.runtime ≡ s.runtime

    child_span-Before :
        (n k : String) (i : Value) (m : Fields) (parent : Option String) (made : Option ℕ)
        (v : Option Trace) (s : Sdk W)
        → Before s (child_span p n k i m parent made v s).1
    unfolding child_span create_span put_observation
    child_span-Before n k i m parent made none s = record { context = refl; runtime = refl }
    child_span-Before n k i m parent made (some v) s = record { context = refl; runtime = refl }

    span_in-Before :
        (n k : String) (i : Value) (m : Fields) (parent : Option String) (t : Option ℕ) (s : Sdk W)
        → Before s (span_in p n k i m parent t s).1
    unfolding span_in create_trace put_trace
    span_in-Before n k i m parent (some t) s = child_span-Before n k i m parent none _ s
    span_in-Before n k i m parent none s =
        let b = child_span-Before n k i m parent _ _ (create_trace p n s).1 in
        record {
          context = b.context ∙ sample-context s.runtime.settings.sample_rate s;
          runtime = b.runtime ∙ sample-runtime s.runtime.settings.sample_rate s;
        }

    pub open_span-Before :
        (n k : String) (i : Value) (m : Fields) (t : Option ℕ) (parent : Option String) (s : Sdk W)
        → Before s (open_span p n k i m t parent s).1
    unfolding open_span
    open_span-Before n k i m t parent s =
        if-both (λ (r : Option Span × Sdk W). Before s r.1) s.runtime.settings.enabled
          (span_in-Before n k i m parent (first_some t s.context.trace) s)
          (record { context = refl; runtime = refl })

    begin_with-Before :
        (spec : Spec) (captured : Option Value) (s : Sdk W)
        → Before s (begin_with p spec captured s).1
    unfolding begin_with
    begin_with-Before spec none s = record { context = refl; runtime = refl }
    begin_with-Before spec (some i) s =
        open_span-Before spec.name spec.as_type i spec.metadata none none s

    pub begin-Before :
        (spec : Spec) (captured : Option Value) (s : Sdk W) → Before s (begin p spec captured s).1
    unfolding begin
    begin-Before spec captured s =
        let P = λ (r : Option Span × Sdk W). Before s r.1 in
        if-both P s.runtime.settings.enabled
          (if-both P _ (begin_with-Before spec captured s) (begin_with-Before spec (some null) s))
          (record { context = refl; runtime = refl })

    -- where the function itself was called, and what it did there
    pub record Ran (f : Sdk W → Outcome × Sdk W) (s : Sdk W) (result : Outcome × Sdk W)
        : Type 0 where
      pub entry : Sdk W
      pub untouched : entry.runtime ≡ s.runtime
      pub outcome : result.0 ≡ (f entry).0

    with_observation-Ran :
        (o : ℕ) (v : Option Observation) (f : Sdk W → Outcome × Sdk W) (s : Sdk W)
        → Ran f s (with_observation o v f s)
    unfolding with_observation scoped
    with_observation-Ran o none f s = record { entry = s; untouched = refl; outcome = refl }
    with_observation-Ran o (some v) f s = record { entry = _; untouched = refl; outcome = refl }

    activate_in-Ran :
        (o : ℕ) (t : Option ℕ) (f : Sdk W → Outcome × Sdk W) (s : Sdk W)
        → Ran f s (activate_in o t f s)
    unfolding activate_in with_trace scoped
    activate_in-Ran o none f s = with_observation-Ran o _ f s
    activate_in-Ran o (some t) f s =
        let ran = with_observation-Ran o _ f _ in
        record { entry = ran.entry; untouched = ran.untouched; outcome = ran.outcome }

    call_in-Ran :
        (objects : Objects) (c : Option Bool) (f : Sdk W → Outcome × Sdk W) (span : Option Span)
        (s : Sdk W)
        → Ran f s (call_in p objects c f span s)
    unfolding call_in activate
    call_in-Ran objects c f none s = record { entry = s; untouched = refl; outcome = refl }
    call_in-Ran objects c f (some span) s =
        let ran = activate_in-Ran span.observation span.trace f s in
        record { entry = ran.entry; untouched = ran.untouched; outcome = ran.outcome }

    -- The wrapper gives its caller exactly the outcome, value or exception, of a run of the
    -- function, which starts before anything is handed to the pipeline.
    pub wrap_sync-Ran :
        (objects : Objects) (spec : Spec) (captured : Option Value) (f : Sdk W → Outcome × Sdk W)
        (s : Sdk W)
        → Ran f s (wrap_sync p objects spec captured f s)
    unfolding wrap_sync
    wrap_sync-Ran objects spec captured f s =
        let ran =
          call_in-Ran objects spec.capture_output f (begin p spec captured s).0
            (begin p spec captured s).1 in
        record {
          entry = ran.entry;
          untouched = ran.untouched ∙ (begin-Before spec captured s).runtime;
          outcome = ran.outcome;
        }

    with_observation-KeepsContext :
        {A : Type 0} (o : ℕ) (v : Option Observation) (f : Sdk W → A × Sdk W)
        → KeepsContext f
        → KeepsContext (with_observation o v f)
    unfolding with_observation scoped exit_observation enter_observation KeepsContext
    with_observation-KeepsContext o none f keeps s = keeps s
    with_observation-KeepsContext o (some v) f keeps s =
        ap
          (λ (c : Context). record c {
            observation = s.context.observation;
            parent_id = s.context.parent_id;
          })
          (keeps (record s { context = enter_observation o v.id s.context }))

    pub activate_in-KeepsContext :
        {A : Type 0} (o : ℕ) (t : Option ℕ) (f : Sdk W → A × Sdk W)
        → KeepsContext f
        → KeepsContext (activate_in o t f)
    unfolding activate_in with_trace scoped exit_all KeepsContext
    activate_in-KeepsContext o none f keeps s = with_observation-KeepsContext o _ f keeps s
    activate_in-KeepsContext o (some t) f keeps s = refl

    call_in-context :
        (objects : Objects) (c : Option Bool) (f : Sdk W → Outcome × Sdk W) (span : Option Span)
        (s : Sdk W)
        → KeepsContext f
        → (call_in p objects c f span s).1.context ≡ s.context
    unfolding call_in activate KeepsContext
    call_in-context objects c f none s keeps = keeps s
    call_in-context objects c f (some span) s keeps =
        let (r, s') = activate span f s in
        finish_span-context objects span r c true s'
        ∙ activate_in-KeepsContext span.observation span.trace f keeps s

    -- If a function leaves the context variables as it found them, so does its wrapper, whether it
    -- returns or raises.
    pub wrap_sync-KeepsContext :
        (objects : Objects) (spec : Spec) (captured : Option Value) (f : Sdk W → Outcome × Sdk W)
        → KeepsContext f
        → (s : Sdk W) → (wrap_sync p objects spec captured f s).1.context ≡ s.context
    unfolding wrap_sync KeepsContext
    wrap_sync-KeepsContext objects spec captured f keeps s =
        call_in-context objects spec.capture_output f (begin p spec captured s).0
          (begin p spec captured s).1 keeps
        ∙ (begin-Before spec captured s).context
