-- ===== src/Annotate/Silence.antt =====
-- Annotations (llm_metrics/annotate.py) inside a decorated call under an unsampled trace.
use llm_metrics.Prelude.{
  sym, subst, ℕ, false, Option, none, some, List, [], ◌∷◌, ◌≡◌, refl, ◌∙◌, All, arith, ap,
}
use llm_metrics.Value.{Value, Objects}
use llm_metrics.Models.{Trace}
use llm_metrics.Sdk.{Platform, Sdk, modify_trace, put_trace}
use llm_metrics.Decorator.{Spec, Outcome, wrap_sync}
use llm_metrics.Decorator.Scope.{modify_observation-Same}
use llm_metrics.Decorator.Silence.{Unsampled, Silent, Same-Unsampled, wrap_sync-Silent}
use llm_metrics.Annotate.{
  TraceUpdate, ObservationUpdate, ScoreCall, annotate_trace, annotate_observation, update_trace,
  update_trace_at, update_observation, update_observation_at, score,
}
use llm_metrics.Annotate.Laws.{score-Unsampled}

-- a call of the annotation functions
pub data Annotation : Type 0 where
  updates_trace : TraceUpdate → Annotation
  updates_observation : ObservationUpdate → Annotation
  scores : ScoreCall → Annotation

-- a score is given no ids, so that it goes to the current trace
abbrev pub IsAmbient : Annotation → Type 0
IsAmbient (scores c) = (c.trace_id ≡ none) × (c.observation_id ≡ none)
IsAmbient _ = Unit

module _ {W : Type 0} where
  modify_trace-Unsampled :
      (t : ℕ) (v : Trace) (f : Trace → Trace) (s : Sdk W)
      → s.context.trace ≡ some t
      → s.traces t ≡ some v
      → (f v).sampled ≡ false
      → ((modify_trace t f s).runtime ≡ s.runtime) × Unsampled (modify_trace t f s)
  unfolding modify_trace put_trace
  modify_trace-Unsampled t v f s here there off =
      rw there
        (refl, record { address = t; trace = f v; current = here; alive = ground arith; off = off })

  update_trace_at-Unsampled :
      (a : TraceUpdate) (c : Option ℕ) (s : Sdk W)
      → s.context.trace ≡ c
      → Unsampled s
      → ((update_trace_at a c s).1.runtime ≡ s.runtime) × Unsampled (update_trace_at a c s).1
  unfolding update_trace_at annotate_trace
  update_trace_at-Unsampled a none s here u = (refl, u)
  update_trace_at-Unsampled a (some t) s here u =
      let there : s.traces t ≡ some u.trace = cc (here, u.current, u.alive) in
      modify_trace-Unsampled t u.trace (annotate_trace a) s here there u.off

  update_observation_at-Unsampled :
      (a : ObservationUpdate) (o : Option ℕ) (s : Sdk W)
      → Unsampled s
      → ((update_observation_at a o s).1.runtime ≡ s.runtime)
        × Unsampled (update_observation_at a o s).1
  unfolding update_observation_at
  update_observation_at-Unsampled a none s u = (refl, u)
  update_observation_at-Unsampled a (some o) s u =
      let same = modify_observation-Same o (annotate_observation a) s in
      (same.runtime, Same-Unsampled same u)

  module _ (p : Platform W) where
    pub annotate : Annotation → Sdk W → Sdk W
    annotate (updates_trace a) s = (update_trace a s).1
    annotate (updates_observation a) s = (update_observation a s).1
    annotate (scores c) s = (score p c s).1

    pub annotate_all : List Annotation → Sdk W → Sdk W
    annotate_all [] s = s
    annotate_all (a ∷ notes) s = annotate_all notes (annotate a s)

    annotate-Unsampled :
        (a : Annotation) (s : Sdk W)
        → IsAmbient a
        → Unsampled s
        → ((annotate a s).runtime ≡ s.runtime) × Unsampled (annotate a s)
    unfolding annotate update_trace update_observation
    annotate-Unsampled (updates_trace a) s h u =
        update_trace_at-Unsampled a s.context.trace s refl u
    annotate-Unsampled (updates_observation a) s h u =
        update_observation_at-Unsampled a s.context.observation s u
    annotate-Unsampled (scores c) s h u =
        let e = score-Unsampled p c s u h.0 h.1 in
        (ap (λ r. r.1.runtime) e, subst (λ (s' : Sdk W). Unsampled s') (sym (ap (λ r. r.1) e)) u)

    annotate_all-Unsampled :
        (notes : List Annotation) (s : Sdk W)
        → All IsAmbient notes
        → Unsampled s
        → ((annotate_all notes s).runtime ≡ s.runtime) × Unsampled (annotate_all notes s)
    unfolding annotate_all
    annotate_all-Unsampled [] s h u = (refl, u)
    annotate_all-Unsampled (a ∷ notes) s h u =
        let (kept, after) = annotate-Unsampled a s h.0 u in
        let (kept_all, after_all) = annotate_all-Unsampled notes (annotate a s) h.1 after in
        (kept_all ∙ kept, after_all)

    -- a function that annotates and then ends as `o`
    abbrev pub annotating : List Annotation → Outcome → Sdk W → Outcome × Sdk W
    annotating notes o s = (o, annotate_all notes s)

    -- Sampling covers annotations. A decorated function that makes any calls of `update_trace`,
    -- `update_observation` and `score` without ids, in any order, and then returns or raises, hands
    -- nothing to the pipeline under an unsampled trace, and the trace is still unsampled after it:
    -- no update changes the verdict.
    pub annotating-Silent :
        (objects : Objects) (spec : Spec) (captured : Option Value) (notes : List Annotation)
        (o : Outcome) (s : Sdk W)
        → All IsAmbient notes
        → Unsampled s
        → let (outcome, s') = wrap_sync p objects spec captured (annotating notes o) s in
          (s'.runtime ≡ s.runtime) × Unsampled s'
    annotating-Silent objects spec captured notes o s h u =
        wrap_sync-Silent p objects spec captured (annotating notes o)
          (unfold Silent in λ s' u'. annotate_all-Unsampled notes s' h u') s u
