-- ===== src/Anthropic/Stream/Tokens.antt =====
-- The token counts of an Anthropic stream and of a whole message
-- (llm_metrics/integrations/anthropic.py).
use llm_metrics.Prelude.{
  false, Option, none, some, List, [], ◌∷◌, All, ◌≡◌, refl, ◌∙◌, sym, ap, arith,
}
use llm_metrics.Prelude.Int.{ℤ}
use llm_metrics.Value.{Value, null, mapping, Fields, end, Objects}
use llm_metrics.Models.{Observation}
use llm_metrics.Models.Wire.{get_field}
use llm_metrics.Duck.{Duck, get, is_null, strict_int}
use llm_metrics.Stream.Marks.{observe_all}
use llm_metrics.OpenAi.{put_names}
use llm_metrics.Anthropic.{
  apply_usage, write_counts, set_prompt, set_cached, set_cache_write, read, set_model,
  message_facts, read_facts,
}
use llm_metrics.Anthropic.Stream.{State, usage_keys, observe, apply, write_facts, end_facts}
use llm_metrics.Anthropic.Stream.Usage.{tracked, last_reported, held}

module _ (d : Duck) (objects : Objects) where
  -- the token counts of an observation
  abbrev pub counts : Observation → List (Option ℤ)
  counts o = o.prompt_tokens ∷ o.completion_tokens ∷ o.cached_tokens ∷ o.reasoning_tokens ∷ []

  -- which counts are written depends on four numbers and on what was there
  counts-write_counts :
      (a b c e : Option ℤ) (m : Value) (o : Observation)
      → counts (write_counts a b c e (record o { model = m })) ≡ counts (write_counts a b c e o)
  unfolding write_counts set_prompt set_cached set_cache_write
  counts-write_counts none none none e m o = refl
  counts-write_counts none none (some w) e m o = ground arith
  counts-write_counts none (some r) none e m o = refl
  counts-write_counts none (some r) (some w) e m o = ground arith
  counts-write_counts (some f) none none e m o = refl
  counts-write_counts (some f) none (some w) e m o = ground arith
  counts-write_counts (some f) (some r) none e m o = refl
  counts-write_counts (some f) (some r) (some w) e m o = ground arith

  apply_usage-eq :
      (usage : Value) (o : Observation)
      → is_null usage ≡ false
      → apply_usage d usage o
        ≡ write_counts
            (strict_int (get d usage "input_tokens"))
            (strict_int (get d usage "cache_read_input_tokens"))
            (strict_int (get d usage "cache_creation_input_tokens"))
            (strict_int (get d usage "output_tokens"))
            o
  unfolding apply_usage
  apply_usage-eq null o h = cc
  apply_usage-eq usage o h = refl

  counts-write_facts :
      (facts : Option Fields) (o : Observation)
      → counts (write_facts d objects facts o).1 ≡ counts o
  counts-write_facts none o = refl
  counts-write_facts (some facts) o = refl

  counts-read_facts :
      (facts : Option Fields) (message : Value) (o : Observation)
      → counts (read_facts d objects facts message o).0 ≡ counts o
  counts-read_facts none message o = refl
  counts-read_facts (some facts) message o = refl

  -- the usage has, under each of the four keys, what the events report last
  abbrev pub Adds : Value → List (ℤ × Value) → Type 0
  Adds usage cs = All (λ k. strict_int (get d usage k) ≡ last_reported d objects k cs) usage_keys

  counts-model :
      (usage m : Value) (o : Observation)
      → is_null usage ≡ false
      → counts (apply_usage d usage (record o { model = m })) ≡ counts (apply_usage d usage o)
  counts-model usage m o there =
      ap counts (apply_usage-eq usage (record o { model = m }) there)
      ∙ counts-write_counts (strict_int (get d usage "input_tokens"))
          (strict_int (get d usage "cache_read_input_tokens"))
          (strict_int (get d usage "cache_creation_input_tokens"))
          (strict_int (get d usage "output_tokens")) m o
      ∙ sym (ap counts (apply_usage-eq usage o there))

  counts-apply :
      (st : State) (o : Observation)
      → counts (apply d objects st o).1 ≡ counts (apply_usage d (mapping st.own.usage) o)
  unfolding apply
  counts-apply st o =
      let facts = put_names st.own.tool_calls st.own.facts in
      counts-write_facts (end_facts d objects (get_field "stop_reason" facts) facts)
        (apply_usage d (mapping st.own.usage) (record o { model = st.own.model }))
      ∙ counts-model (mapping st.own.usage) st.own.model o refl

  counts-read :
      (message : Value) (kwargs : Fields) (o : Observation)
      → is_null (get d message "usage") ≡ false
      → counts (read d objects message kwargs o).0
        ≡ counts (apply_usage d (get d message "usage") o)
  unfolding read set_model
  counts-read message kwargs o there =
      counts-read_facts (message_facts d objects message) message
        (apply_usage d (get d message "usage") (set_model d objects message kwargs o))
      ∙ counts-model (get d message "usage") (set_model d objects message kwargs o).model o there

  counts-agree :
      (u v : Value) (o : Observation)
      → is_null u ≡ false
      → is_null v ≡ false
      → All (λ k. strict_int (get d u k) ≡ strict_int (get d v k)) usage_keys
      → counts (apply_usage d u o) ≡ counts (apply_usage d v o)
  counts-agree u v o hu hv (fresh, (output, (cache_read, (cache_write, t)))) = ap counts (
      apply_usage-eq u o hu
      ∙ (λ i. write_counts (fresh i) (cache_read i) (cache_write i) (output i) o)
      ∙ sym (apply_usage-eq v o hv))

  -- A stream and a message that report the same counts give the same token counts: whatever
  -- events come, in whatever order, also ones whose reading raises, if the usage of a message has
  -- under each of the four keys the count that the events report last, or no count if they report
  -- none, then the counts written at the end of a new stream are those read from the message, also
  -- if reading the rest of either raises.
  pub stream-message :
      (cs : List (ℤ × Value)) (st : State) (message : Value) (kwargs : Fields) (o : Observation)
      → st.own.usage ≡ end
      → is_null (get d message "usage") ≡ false
      → Adds (get d message "usage") cs
      → counts (apply d objects (observe_all (observe d objects) cs st) o).1
        ≡ counts (read d objects message kwargs o).0
  stream-message cs st message kwargs o fresh there
        (fresh_in, (output, (cache_read, (cache_write, t)))) =
      let (k1, (k2, (k3, (k4, u)))) = tracked d objects in
      counts-apply (observe_all (observe d objects) cs st) o
      ∙ counts-agree _ (get d message "usage") o refl there (
        held d objects "input_tokens" k1 cs st fresh ∙ sym fresh_in,
        (
          held d objects "output_tokens" k2 cs st fresh ∙ sym output,
          (
            held d objects "cache_read_input_tokens" k3 cs st fresh ∙ sym cache_read,
            (held d objects "cache_creation_input_tokens" k4 cs st fresh ∙ sym cache_write, tt),
          ),
        ),
      )
      ∙ sym (counts-read message kwargs o there)
