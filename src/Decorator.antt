-- ===== src/Decorator.antt =====
-- llm_metrics/decorator.py: spans, and the wrapper around a plain call. The async wrapper is the
-- same code with `await`.
pub mod Nesting
pub mod Observe
pub mod Scope
pub mod Silence
use llm_metrics.Prelude.{
  ℕ, zero, suc, ◌+◌, String, Bool, true, false, Option, none, some, if◌then◌else◌, or_else,
  first_some, is_some, [],
}
use llm_metrics.Prelude.Int.{ℤ, pos, ◌-ℤ◌, leb_ℤ}
use llm_metrics.Value.{Value, null, Fields, end, Objects, fields_of}
use llm_metrics.Capture.{redact, summarise_at}
use llm_metrics.Models.{
  Trace, Observation, DateTime, Exception, ObservationStatus, fail, end_trace, end_observation,
}
use llm_metrics.Context.{Context, enter_trace, exit_all, enter_observation, exit_observation}
use llm_metrics.Runtime.{Settings, one}
use llm_metrics.Sdk.{
  Platform, Sdk, Event, emit, put_trace, put_observation, modify_trace, modify_observation,
}

-- `_Span`; `trace` is set only if this span made the root trace
pub record Span : Type 0 where
  pub observation : ℕ
  pub trace : Option ℕ
  pub sampled : Bool
  pub started : ℤ

-- `_Spec`, without the signature
pub record Spec : Type 0 where
  pub name : String
  pub as_type : String
  pub capture_input : Option Bool
  pub capture_output : Option Bool
  pub metadata : Fields

-- how a call ends: it returns a value, or raises
pub data Outcome : Type 0 where
  returned : Value → Outcome
  raising : Exception → Outcome

module _ {W : Type 0} (p : Platform W) where
  unfoldable pub sample : ℤ → Sdk W → Bool × Sdk W
  sample rate s =
      if leb_ℤ one rate
      then (true, s)
      else if leb_ℤ rate (pos 0)
      then (false, s)
      else (let (kept, w) = p.draw_below rate s.world in (kept, record s { world = w }))

  -- the root trace of `open_span`: its address, and the state with it
  unfoldable pub create_trace : String → Sdk W → ℕ × Sdk W
  unfolding sample put_trace
  create_trace name s =
      let settings = s.runtime.settings in
      let (kept, s') = sample settings.sample_rate s in
      let trace : Trace = record {
        id = p.new_id s.next;
        name = name;
        user_id = none;
        session_id = none;
        tags = [];
        environment = settings.environment;
        release = settings.release;
        metadata = end;
        start_time = p.utcnow s'.world;
        end_time = none;
        sampled = kept;
      } in
      (s.next, record (put_trace s.next trace s') { next = suc s.next })

  -- the observation of `open_span`, under the trace at `t`, whose value is `trace`
  unfoldable pub create_span :
      String → String → Value → Fields → Option ℕ → Trace → Option String → Sdk W → Span × Sdk W
  unfolding put_observation
  create_span name as_type input metadata created trace parent_id s =
      let observation : Observation = record {
        id = p.new_id s.next;
        trace_id = trace.id;
        name = name;
        parent_id = first_some parent_id s.context.parent_id;
        type = as_type;
        model = null;
        input = redact s.runtime.settings.redact input;
        output = null;
        prompt_tokens = none;
        completion_tokens = none;
        cached_tokens = none;
        reasoning_tokens = none;
        latency_ms = none;
        prompt_name = none;
        prompt_version = none;
        status = ObservationStatus.ok;
        status_message = none;
        metadata = metadata;
        start_time = p.utcnow s.world;
        end_time = none;
      } in
      (
        record {
          observation = s.next;
          trace = created;
          sampled = trace.sampled;
          started = p.perf_counter s.world;
        },
        record (put_observation s.next observation s) { next = suc s.next },
      )

  -- the span of `open_span` under the trace `v`, which lives at the address that was found
  unfoldable pub child_span :
      String
      → String
      → Value
      → Fields
      → Option String
      → Option ℕ
      → Option Trace
      → Sdk W
      → Option Span × Sdk W
  unfolding create_span
  child_span name as_type input metadata parent_id created none s = (none, s)
  child_span name as_type input metadata parent_id created (some v) s =
      let (span, s') = create_span name as_type input metadata created v parent_id s in
      (some span, s')

  -- the span of `open_span`, by the trace that was given or is open
  unfoldable pub span_in :
      String → String → Value → Fields → Option String → Option ℕ → Sdk W → Option Span × Sdk W
  unfolding create_trace child_span
  span_in name as_type input metadata parent_id (some t) s =
      child_span name as_type input metadata parent_id none (s.traces t) s
  span_in name as_type input metadata parent_id none s =
      let (t, s') = create_trace name s in
      child_span name as_type input metadata parent_id (some t) (s'.traces t) s'

  -- `open_span`; nothing means "carry on uninstrumented"
  unfoldable pub open_span :
      String → String → Value → Fields → Option ℕ → Option String → Sdk W → Option Span × Sdk W
  unfolding span_in
  open_span name as_type input metadata trace parent_id s =
      if s.runtime.settings.enabled
      then span_in name as_type input metadata parent_id (first_some trace s.context.trace) s
      else (none, s)

  -- `_begin` where the arguments are captured, as `captured`; nothing if that raised
  unfoldable pub begin_with : Spec → Option Value → Sdk W → Option Span × Sdk W
  unfolding open_span
  begin_with spec none s = (none, s)
  begin_with spec (some input) s = open_span spec.name spec.as_type input spec.metadata none none s

  -- `_begin`
  unfoldable pub begin : Spec → Option Value → Sdk W → Option Span × Sdk W
  unfolding begin_with
  begin spec captured s =
      if s.runtime.settings.enabled
      then (if or_else spec.capture_input s.runtime.settings.capture_input
          then begin_with spec captured s
          else begin_with spec (some null) s)
      else (none, s)

  -- the value that `finish_span` stores for a call that returned; `none` if summarising raised
  unfoldable pub stored_output :
      Objects → Option Bool → Bool → Value → Sdk W → Option (Option Value)
  stored_output objects capture_output summarises null s = some none
  stored_output objects capture_output summarises v s =
      let settings = s.runtime.settings in
      if or_else capture_output settings.capture_output
      then (if summarises
          then elim (summarise_at objects settings.max_value_chars v) [
            | none ↦ none
            | some out ↦ some (some (redact settings.redact out))
          ]
          else some (some (redact settings.redact v)))
      else some none

  -- the root trace's end, and the trace handed over, for a span that made it
  unfoldable pub end_root : Option ℕ → Sdk W → Sdk W
  unfolding modify_trace
  end_root none s = s
  end_root (some t) s = modify_trace t (end_trace (p.utcnow s.world)) s

  unfoldable pub emit_root : Option ℕ → Sdk W → Sdk W
  unfolding emit
  emit_root none s = s
  emit_root (some t) s = emit (Event.trace t) s

  -- the last lines of `finish_span`: close, and emit the trace before the observation
  unfoldable pub close_span : Span → Sdk W → Sdk W
  unfolding modify_observation end_root emit_root emit
  close_span span s =
      let s' =
        end_root span.trace
          (modify_observation span.observation (end_observation (p.utcnow s.world)) s) in
      if span.sampled
      then emit (Event.observation span.observation) (emit_root span.trace s')
      else s'

  -- `finish_span` for a call that returned, by the value to store
  unfoldable pub finish_returned : Span → Option (Option Value) → Sdk W → Sdk W
  unfolding close_span modify_observation
  finish_returned span none s = s
  finish_returned span (some none) s = close_span span s
  finish_returned span (some (some out)) s =
      close_span span (modify_observation span.observation (λ o. record o { output = out }) s)

  -- `finish_span` for a call that raised, by the exception's text; nothing if that raised
  unfoldable finish_raised : Span → Option String → Sdk W → Sdk W
  unfolding close_span
  finish_raised span none s = s
  finish_raised span (some message) s = close_span span s

  -- `finish_span`
  unfoldable pub finish_span : Objects → Span → Outcome → Option Bool → Bool → Sdk W → Sdk W
  unfolding modify_observation stored_output finish_returned finish_raised
  finish_span objects span (raising e) capture_output summarises s = finish_raised span e.message (
      modify_observation span.observation (fail e) (
        modify_observation span.observation
          (λ o. record o { latency_ms = some (p.perf_counter s.world -ℤ span.started) }) s))
  finish_span objects span (returned v) capture_output summarises s =
      finish_returned span (stored_output objects capture_output summarises v s) (
        modify_observation span.observation
          (λ o. record o { latency_ms = some (p.perf_counter s.world -ℤ span.started) }) s)

-- A context manager of context.py around a body: the variables are set, the body runs, and the
-- tokens put the old values back, also if the body raised.
module _ {W A : Type 0} where
  unfoldable pub scoped :
      (Context → Context) → (Context → Context → Context) → (Sdk W → A × Sdk W) → Sdk W → A × Sdk W
  scoped enter exit body s =
      let (r, s') = body (record s { context = enter s.context }) in
      (r, record s' { context = exit s.context s'.context })

  unfoldable pub with_trace : ℕ → (Sdk W → A × Sdk W) → Sdk W → A × Sdk W
  unfolding scoped enter_trace exit_all
  with_trace t = scoped (enter_trace t) exit_all

  -- `use_observation` of the observation `v` at `o`; its id is read from the live object
  unfoldable pub with_observation : ℕ → Option Observation → (Sdk W → A × Sdk W) → Sdk W → A × Sdk W
  unfolding scoped enter_observation exit_observation
  with_observation o none body s = body s
  with_observation o (some v) body s = scoped (enter_observation o v.id) exit_observation body s

  -- `_Span.activate`, by the trace that the span made
  unfoldable pub activate_in : ℕ → Option ℕ → (Sdk W → A × Sdk W) → Sdk W → A × Sdk W
  unfolding with_trace with_observation
  activate_in o none body s = with_observation o (s.observations o) body s
  activate_in o (some t) body s =
      with_trace t (λ s'. with_observation o (s'.observations o) body s') s

  unfoldable pub activate : Span → (Sdk W → A × Sdk W) → Sdk W → A × Sdk W
  unfolding activate_in
  activate span body s = activate_in span.observation span.trace body s

module _ {W : Type 0} (p : Platform W) where
  -- the wrapper's body, by the span that `_begin` gave
  unfoldable pub call_in :
      Objects → Option Bool → (Sdk W → Outcome × Sdk W) → Option Span → Sdk W → Outcome × Sdk W
  unfolding activate finish_span
  call_in objects capture_output func none s = func s
  call_in objects capture_output func (some span) s =
      let (r, s') = activate span func s in (r, finish_span p objects span r capture_output true s')

  -- `_wrap_sync`: the wrapped function, with its arguments captured as `captured`
  unfoldable pub wrap_sync :
      Objects → Spec → Option Value → (Sdk W → Outcome × Sdk W) → Sdk W → Outcome × Sdk W
  unfolding begin call_in
  wrap_sync objects spec captured func s =
      let (span, s') = begin p spec captured s in call_in objects spec.capture_output func span s'
