-- ===== src/Annotate/Laws.antt =====
-- The tags, the scores and the unsampled trace of llm_metrics/annotate.py.
use llm_metrics.Prelude.{
  ◌∙◌, ℕ, true, false, ◌||◌, Option, none, some, String, List, [], ◌∷◌, ◌++◌, ◌≡◌, refl, sym,
  Bool-cases, inl, inr, str_eq, str_eq_iff, arith, is_some, subst,
}
use llm_metrics.Annotate.{has, add_tags, ScoreCall, score, score_ambient, live}
use llm_metrics.Models.{Trace, Observation}
use llm_metrics.Sdk.{Platform, Sdk}
use llm_metrics.Decorator.Scope.{if-both}
use llm_metrics.Decorator.Silence.{Unsampled, if-false}

-- no tag twice
unfoldable Distinct : List String → Type 0
Distinct [] = Unit
Distinct (t ∷ ts) = (has t ts ≡ false) × Distinct ts

has-snoc : (x t : String) (ts : List String) → has x (ts ++ t ∷ []) ≡ (has x ts || str_eq x t)
unfolding has
has-snoc x t [] = ground arith
has-snoc x t (u ∷ us) = ground (arith, has-snoc x t us)

Distinct-snoc :
    (t : String) (ts : List String) → has t ts ≡ false → Distinct ts → Distinct (ts ++ t ∷ [])
unfolding has Distinct
Distinct-snoc t [] new d = (refl, tt)
Distinct-snoc t (u ∷ us) new d = (
  ground (arith, d.0, has-snoc u t us, str_eq_iff t u, str_eq_iff u t),
  Distinct-snoc t us (ground arith) d.1,
)

has-elsewhere :
    (x t : String) (ts : List String) → has t ts ≡ true → str_eq x t ≡ true → has x ts ≡ true
has-elsewhere x t ts there same =
    subst (λ (u : String). has u ts ≡ true) (sym ((str_eq_iff x t).0 same)) there

-- After the tag loop of `update_trace`, a tag is among the trace's tags exactly if it was before
-- or was given.
has-add_tags :
    (x : String) (new ts : List String) → has x (add_tags new ts) ≡ (has x ts || has x new)
unfolding has add_tags
has-add_tags x [] ts = ground arith
has-add_tags x (t ∷ new) ts = elim (Bool-cases (has t ts)) [
  | inl there ↦ rw there (ground (arith, has-add_tags x new ts, has-elsewhere x t ts there))
  | inr absent ↦ rw absent (ground (arith, has-add_tags x new (ts ++ t ∷ []), has-snoc x t ts))
]

-- Tags that hold no duplicate hold none after the tag loop of `update_trace`, whatever duplicates
-- were given.
add_tags-Distinct : (new ts : List String) → Distinct ts → Distinct (add_tags new ts)
unfolding add_tags
add_tags-Distinct [] ts d = d
add_tags-Distinct (t ∷ new) ts d = elim (Bool-cases (has t ts)) [
  | inl there ↦ rw there (add_tags-Distinct new ts d)
  | inr absent ↦ rw absent (add_tags-Distinct new (ts ++ t ∷ []) (Distinct-snoc t ts absent d))
]

given_none : {a b : Option String} → a ≡ none → b ≡ none → (is_some a || is_some b) ≡ false
given_none no_a no_b = rw (no_a, no_b) refl

live_some {ℓ} : {A : Type ℓ} {c : Option ℕ} {k : ℕ} (f : ℕ → Option A) → c ≡ some k → live f c ≡ f k
unfolding live
live_some f here = rw here refl

module _ {W : Type 0} (p : Platform W) where
  score_ambient-off :
      (c : ScoreCall) (t : Option Trace) (v : Trace) (o : Option Observation) (s : Sdk W)
      → t ≡ some v
      → v.sampled ≡ false
      → score_ambient p c t o s ≡ (none, s)
  unfolding score_ambient
  score_ambient-off c t v o s there off = rw there (rw off refl)

  -- Under an unsampled trace, a score without ids is not made: `score` returns nothing and
  -- changes nothing, enabled or not.
  pub score-Unsampled :
      (c : ScoreCall) (s : Sdk W)
      → Unsampled s
      → c.trace_id ≡ none
      → c.observation_id ≡ none
      → score p c s ≡ (none, s)
  unfolding score live
  score-Unsampled c s u no_trace no_observation =
      let no_ids : (is_some c.trace_id || is_some c.observation_id) ≡ false =
        given_none no_trace no_observation in
      let here : live s.traces s.context.trace ≡ some u.trace =
        live_some s.traces u.current ∙ u.alive in
      if-both (λ (r : Option String × Sdk W). r ≡ (none, s)) s.runtime.settings.enabled
        (if-false _ _ _ no_ids ∙ score_ambient-off c _ u.trace _ s here u.off) refl
