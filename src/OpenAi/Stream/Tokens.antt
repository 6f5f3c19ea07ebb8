-- ===== src/OpenAi/Stream/Tokens.antt =====
-- The token counts of an OpenAI stream and of a whole response
-- (llm_metrics/integrations/openai.py).
use llm_metrics.Prelude.{
  false, Option, none, some, List, [], ◌∷◌, ◌++◌, All, ◌≡◌, refl, ◌∙◌, sym, ap,
}
use llm_metrics.Prelude.Int.{ℤ}
use llm_metrics.Value.{Value, null, Fields, end, field, Objects}
use llm_metrics.Models.{Observation}
use llm_metrics.Duck.{Duck, get, either, is_null}
use llm_metrics.Stream.Marks.{observe_all}
use llm_metrics.OpenAi.{
  apply_usage, apply_details, set_counts, usage_extra, put_usage, usage_completion,
}
use llm_metrics.OpenAi.Response.{read, read_facts, set_model, response_facts}
use llm_metrics.OpenAi.Stream.{State, observe, apply}
use llm_metrics.OpenAi.Stream.Usage.{Reports, IsPart, IsSilent, Knows, stream-Knows}

module _ (d : Duck) (objects : Objects) where
  -- the token counts of an observation
  abbrev pub counts : Observation → List (Option ℤ)
  counts o = o.prompt_tokens ∷ o.completion_tokens ∷ o.cached_tokens ∷ o.reasoning_tokens ∷ []

  counts-put_usage : (extra : Fields) (o : Observation) → counts (put_usage extra o) ≡ counts o
  unfolding put_usage
  counts-put_usage end o = refl
  counts-put_usage (field k v fs) o = refl

  counts-apply_details :
      (a b usage : Value) (o o' : Observation)
      → counts (apply_details d a b usage o) ≡ counts (apply_details d a b usage o')
  unfolding apply_details set_counts
  counts-apply_details a b usage o o' =
      counts-put_usage (usage_extra d a b) (set_counts d a b usage o)
      ∙ sym (counts-put_usage (usage_extra d a b) (set_counts d a b usage o'))

  counts-apply_usage :
      (usage : Value) (o o' : Observation)
      → is_null usage ≡ false
      → counts (apply_usage d usage o) ≡ counts (apply_usage d usage o')
  unfolding apply_usage
  counts-apply_usage null o o' there = cc
  counts-apply_usage usage o o' there =
      counts-apply_details
        (either d (get d usage "prompt_tokens_details") (get d usage "input_tokens_details"))
        (either d (get d usage "completion_tokens_details") (get d usage "output_tokens_details"))
        usage o o'

  counts-read_facts :
      (r : Option (Unit {0}) × Fields) (response : Value) (o : Observation)
      → counts (read_facts d objects r response o).0 ≡ counts o
  unfolding read_facts
  counts-read_facts (none, facts) response o = refl
  counts-read_facts (some done, facts) response o = refl

  counts-apply :
      (usage : Value) (st : State) (o o' : Observation)
      → is_null usage ≡ false
      → Knows d objects usage st
      → counts (apply d objects st o).1 ≡ counts (apply_usage d usage o')
  unfolding apply
  counts-apply usage st o o' there k =
      rw (k.usage) (counts-apply_usage usage (record o { model = st.own.model }) o' there)

  -- A stream and a response that report the same usage give the same four token counts: if a
  -- chunk reports a usage, it is no completed response of the Responses API, and the chunks after
  -- it report none and are none either, then whatever came before it, the counts written at the
  -- end of the stream are those read from any response that carries that usage, also if reading
  -- the rest of it raises, and the output rate is computed from the same completion tokens.
  pub stream-response :
      (usage : Value) (before after : List (ℤ × Value)) (now : ℤ) (chunk : Value) (st : State)
      (o : Observation) (response : Value) (kwargs : Fields) (o' : Observation)
      → Reports d objects usage chunk
      → IsPart d objects chunk
      → All (λ (c : ℤ × Value). IsSilent d objects c.1) after
      → get d response "usage" ≡ usage
      → let end_state = observe_all (observe d objects) (before ++ (now, chunk) ∷ after) st in
        (counts (apply d objects end_state o).1 ≡ counts (read d objects response kwargs o').0)
        × (end_state.completion_tokens ≡ usage_completion d usage)
  unfolding read
  stream-response usage before after now chunk st o response kwargs o' reports part quiet same_one =
      let knows = stream-Knows d objects usage before after now chunk st reports part quiet in
      (
        counts-apply usage _ o _ (reports.1) knows
            ∙ ap (λ (u : Value). counts (apply_usage d u (set_model d objects response kwargs o')))
                (sym same_one)
            ∙ sym (counts-read_facts (response_facts d objects response end) response _),
        knows.completion,
      )
