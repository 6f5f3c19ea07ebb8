-- ===== src/LangChain/Nesting.antt =====
-- Where llm_metrics/integrations/langchain.py hangs a run whose parent it knows.
use llm_metrics.Prelude.{ℕ, String, true, Option, some, ◌≡◌, refl, sym, ap, first_some, subst}
use llm_metrics.Value.{Value, Fields, Objects}
use llm_metrics.Capture.{summarise}
use llm_metrics.Models.{Trace, Observation}
use llm_metrics.Sdk.{Platform, Sdk}
use llm_metrics.Annotate.{id_of}
use llm_metrics.Duck.{update_fields}
use llm_metrics.Decorator.{Span, open_span}
use llm_metrics.Decorator.Nesting.{Child, open_span-Given}
use llm_metrics.LangChain.{Run, Tracer, parent_of, put_child, open_under, open_run}

module _ {W : Type 0} (p : Platform W) (objects : Objects) where
  -- the run was opened under the trace `v` and the observation with the id `above`, and put into
  -- the map with its parent's trace
  pub record Nested (v : Trace) (above : String) (run_id : ℕ) (parent : Run) (t : Tracer)
      (r : Tracer × Sdk W) : Type 0 where
    pub opened : Option Span × Sdk W
    pub child : Child v (some above) opened
    pub stored : r ≡ put_child p objects run_id parent opened.0 t opened.1

  under-Nested :
      (run_id : ℕ) (parent : Run) (n a : String) (i : Value) (m : Fields) (address : ℕ) (v : Trace)
      (o : Observation) (t : Tracer) (s : Sdk W)
      → s.runtime.settings.enabled ≡ true
      → parent.trace ≡ some address
      → s.traces address ≡ some v
      → s.observations parent.span.observation ≡ some o
      → Nested v o.id run_id parent t (open_under p objects (some parent) run_id n a i m t s)
  unfolding open_under
  under-Nested run_id parent n a i m address v o t s on same there alive =
      let input = summarise objects s.runtime.settings.max_value_chars i in
      let given : first_some parent.trace s.context.trace ≡ some address =
        ap (λ c. first_some c s.context.trace) same in
      let id : first_some (id_of (s.observations parent.span.observation)) s.context.parent_id
          ≡ some o.id =
        ap (λ c. first_some (id_of c) s.context.parent_id) alive in
      record {
        opened = _;
        child =
            subst
              (λ c. Child v c (
                open_span p n a input (update_fields m t.metadata) parent.trace
                  (id_of (s.observations parent.span.observation)) s))
              id
              (open_span-Given p n a input (update_fields m t.metadata) parent.trace
                (id_of (s.observations parent.span.observation)) address v s on given there);
        stored = refl;
      }

  -- While instrumentation is on: a run whose parent is in the map, with a live observation and a
  -- live trace, hangs under that observation and in that trace, with its sampling verdict,
  -- whatever the ambient context of the calling thread is.
  pub open_run-Nested :
      (run_id : ℕ) (above : Option ℕ) (parent : Run) (n a : String) (i : Value) (m : Fields)
      (address : ℕ) (v : Trace) (o : Observation) (t : Tracer) (s : Sdk W)
      → s.runtime.settings.enabled ≡ true
      → parent_of above t ≡ some parent
      → parent.trace ≡ some address
      → s.traces address ≡ some v
      → s.observations parent.span.observation ≡ some o
      → Nested v o.id run_id parent t (open_run p objects run_id above n a i m t s)
  unfolding open_run
  open_run-Nested run_id above parent n a i m address v o t s on known same there alive =
      subst (λ c. Nested v o.id run_id parent t (open_under p objects c run_id n a i m t s))
        (sym known) (under-Nested run_id parent n a i m address v o t s on same there alive)
