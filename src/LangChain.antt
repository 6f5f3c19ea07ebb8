-- ===== src/LangChain.antt =====
-- `LlmMetricsTracer` of llm_metrics/integrations/langchain.py: the map of open runs, and how a run
-- is opened and closed. Run ids are numbers.
pub mod Extract
pub mod Hooks
pub mod Bounds
pub mod Nesting
use llm_metrics.Prelude.{
  ℕ, suc, ◌+◌, String, Bool, true, false, ◌&&◌, not, Option, none, some, List, [], ◌∷◌, length, ltb,
  ◌==◌, if◌then◌else◌, first_some, is_some, is_blank, max,
}
use llm_metrics.Prelude.Int.{ℤ}
use llm_metrics.Value.{Value, Fields, Objects}
use llm_metrics.Capture.{summarise}
use llm_metrics.Models.{Trace, Observation, Exception}
use llm_metrics.Sdk.{Platform, Sdk, modify_trace}
use llm_metrics.Annotate.{id_of}
use llm_metrics.Duck.{update_fields}
use llm_metrics.Decorator.{Span, Outcome, returned, raising, open_span, finish_span}

-- `_Run`; the trace that the subtree belongs to is an address
pub record Run : Type 0 where
  pub span : Span
  pub trace : Option ℕ
  pub started : ℤ
  pub first_token_at : Option ℤ

pub record Tracer : Type 0 where
  pub trace_name : Option String
  pub user_id : Option String
  pub metadata : Fields
  pub max_runs : ℕ
  -- `_runs`, oldest first
  pub runs : List (ℕ × Run)
  pub dropped_runs : ℕ

-- the constructor; a cap below 1 becomes 1
unfoldable pub new_tracer : Option String → Option String → Fields → ℕ → Tracer
new_tracer trace_name user_id metadata max_runs = record {
  trace_name = trace_name;
  user_id = user_id;
  metadata = metadata;
  max_runs = max 1 max_runs;
  runs = [];
  dropped_runs = 0;
}

-- `self._runs[run_id] = run` on an `OrderedDict`: a known id keeps its place
unfoldable pub set_run : ℕ → Run → List (ℕ × Run) → List (ℕ × Run)
set_run k r [] = (k, r) ∷ []
set_run k r ((j, q) ∷ rs) = if j == k then (j, r) ∷ rs else (j, q) ∷ set_run k r rs

-- the loop that evicts: what is left, and how many went
unfoldable pub evict : ℕ → List (ℕ × Run) → List (ℕ × Run) × ℕ
evict cap [] = ([], 0)
evict cap (r ∷ rs) =
    let (kept, n) = evict cap rs in if ltb cap (length (r ∷ rs)) then (kept, suc n) else (r ∷ rs, 0)

-- `_put`
unfoldable pub put_run : ℕ → Run → Tracer → Tracer
unfolding set_run evict
put_run k r t =
    let (kept, n) = evict t.max_runs (set_run k r t.runs) in
    record t { runs = kept; dropped_runs = t.dropped_runs + n }

-- `_get`
unfoldable pub find_run : ℕ → List (ℕ × Run) → Option Run
find_run k [] = none
find_run k ((j, r) ∷ rs) = if j == k then some r else find_run k rs

-- `_pop`, as the map that is left
unfoldable pub remove_run : ℕ → List (ℕ × Run) → List (ℕ × Run)
remove_run k [] = []
remove_run k ((j, r) ∷ rs) = if j == k then rs else (j, r) ∷ remove_run k rs

-- `if text`, for an optional text
abbrev given_text : Option String → Bool
given_text none = false
given_text (some s) = not (is_blank s)

-- the parent of a new run, if its id is known
unfoldable pub parent_of : Option ℕ → Tracer → Option Run
unfolding find_run
parent_of none t = none
parent_of (some k) t = find_run k t.runs

-- the renaming of a trace that the tracer made
unfoldable name_trace : {W : Type 0} → Option String → Option ℕ → Sdk W → Sdk W
unfolding modify_trace
name_trace none made s = s
name_trace (some name) none s = s
name_trace (some name) (some t) s =
    if is_blank name then s else modify_trace t (λ v. record v { name = name }) s

-- the user of the tracer, filled in where the trace has none
unfoldable fill_user : {W : Type 0} → Option String → Option ℕ → Sdk W → Sdk W
unfolding modify_trace
fill_user none trace s = s
fill_user (some user) none s = s
fill_user (some user) (some t) s =
    if is_blank user
    then s
    else modify_trace t (λ v. record v { user_id = first_some v.user_id (some user) }) s

module _ {W : Type 0} (p : Platform W) (objects : Objects) where
  abbrev new_run : Span → Option ℕ → Sdk W → Run
  new_run span trace s = record {
    span = span;
    trace = trace;
    started = p.perf_counter s.world;
    first_token_at = none;
  }

  -- the rest of `_open` under the parent `parent`
  unfoldable pub put_child : ℕ → Run → Option Span → Tracer → Sdk W → Tracer × Sdk W
  unfolding put_run
  put_child run_id parent none t s = (t, s)
  put_child run_id parent (some span) t s = (put_run run_id (new_run span parent.trace s) t, s)

  -- the rest of `_open` at the root of a tree
  unfoldable pub put_root : ℕ → Option Span → Tracer → Sdk W → Tracer × Sdk W
  unfolding put_run name_trace fill_user
  put_root run_id none t s = (t, s)
  put_root run_id (some span) t s =
      let trace = first_some span.trace s.context.trace in
      let s' = fill_user t.user_id trace (name_trace t.trace_name span.trace s) in
      (put_run run_id (new_run span trace s') t, s')

  -- `_open`, by the parent's run
  unfoldable pub open_under :
      Option Run → ℕ → String → String → Value → Fields → Tracer → Sdk W → Tracer × Sdk W
  unfolding put_child put_root open_span update_fields summarise
  open_under (some parent) run_id name as_type input metadata t s =
      let (span, s') =
        open_span p name as_type (summarise objects s.runtime.settings.max_value_chars input)
          (update_fields metadata t.metadata) parent.trace
          (id_of (s.observations parent.span.observation)) s in
      put_child run_id parent span t s'
  open_under none run_id name as_type input metadata t s =
      let (span, s') =
        open_span p name as_type (summarise objects s.runtime.settings.max_value_chars input)
          (update_fields metadata t.metadata) none none s in
      put_root run_id span t s'

  unfoldable pub open_run :
      ℕ → Option ℕ → String → String → Value → Fields → Tracer → Sdk W → Tracer × Sdk W
  unfolding open_under parent_of
  open_run run_id parent name as_type input metadata t s =
      open_under (parent_of parent t) run_id name as_type input metadata t s

  -- what is handed to `finish_span`: a returned value is summarised first
  unfoldable reduced : Outcome → Sdk W → Outcome
  unfolding summarise
  reduced (raising e) s = raising e
  reduced (returned v) s = returned (summarise objects s.runtime.settings.max_value_chars v)

  -- `_close`, by the run that was popped
  unfoldable pub close_with : Option Run → ℕ → Outcome → Tracer → Sdk W → Tracer × Sdk W
  unfolding finish_span reduced remove_run
  close_with none run_id outcome t s = (t, s)
  close_with (some run) run_id outcome t s = (
    record t { runs = remove_run run_id t.runs },
    finish_span p objects run.span (reduced outcome s) none false s,
  )

  unfoldable pub close_run : ℕ → Outcome → Tracer → Sdk W → Tracer × Sdk W
  unfolding close_with find_run
  close_run run_id outcome t s = close_with (find_run run_id t.runs) run_id outcome t s
