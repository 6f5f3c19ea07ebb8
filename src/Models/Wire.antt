-- ===== src/Models/Wire.antt =====
-- Reading the payloads of llm_metrics/models.py back: what the server sees of an event.
use llm_metrics.Prelude.Int.{ℤ}
use llm_metrics.Prelude.{
  List, [], ◌∷◌, map, none, ◌≡◌, refl, String, Option, some, arith, str_eq, str_eq_iff,
  if◌then◌else◌,
}
use llm_metrics.Value.{items_of, sequence, Value, text, null, Fields, end, field, put_field}
use llm_metrics.Models.{
  put, opt_text, DateTime, put_tags, trace_payload, Trace, mapping, observation_payload, float, int,
  opt_int, Observation, opt_float, status_text,
}

-- `payload.get(key)`
unfoldable pub get_field : String → Fields → Option Value
get_field k end = none
get_field k (field (text j) v fs) = if str_eq j k then some v else get_field k fs
get_field k (field j v fs) = get_field k fs

pub get_field-put_field :
    (j k : String) (v : Value) (fs : Fields)
    → get_field j (put_field k v fs) ≡ (if str_eq k j then some v else get_field j fs)
unfolding get_field
get_field-put_field j k v end = refl
get_field-put_field j k v (field (text i) w fs) =
    ground (arith, str_eq_iff i k, str_eq_iff i j, str_eq_iff k j, get_field-put_field j k v fs)
get_field-put_field j k v (field _ w fs) = get_field-put_field j k v fs

-- what a key that may be left out reads as
abbrev present : Value → Option Value → Option Value
present null before = before
present v before = some v

get_field-put :
    (j k : String) (v : Value) (fs : Fields)
    → get_field j (put k v fs) ≡ (if str_eq k j then present v (get_field j fs) else get_field j fs)
unfolding put
get_field-put j k null fs = ground arith
get_field-put j k v fs = get_field-put_field j k v fs

-- an optional text as the server reads it
abbrev read_text : Option String → Option Value
read_text none = none
read_text (some s) = some (text s)

present-opt_text : (o : Option String) → present (opt_text o) none ≡ read_text o
present-opt_text none = refl
present-opt_text (some s) = refl

abbrev read_tags : List String → Option Value
read_tags [] = none
read_tags (t ∷ ts) = some (sequence (items_of (map text (t ∷ ts))))

tags_value : List String → Value
tags_value [] = null
tags_value (t ∷ ts) = sequence (items_of (map text (t ∷ ts)))

put_tags-eq-put : (ts : List String) (fs : Fields) → put_tags ts fs ≡ put "tags" (tags_value ts) fs
unfolding put_tags put tags_value
put_tags-eq-put [] fs = refl
put_tags-eq-put (t ∷ ts) fs = refl

present-tags_value : (ts : List String) → present (tags_value ts) none ≡ read_tags ts
unfolding tags_value
present-tags_value [] = refl
present-tags_value (t ∷ ts) = refl

abbrev read_int : Option ℤ → Option Value
read_int none = none
read_int (some n) = some (int n)

abbrev read_float : Option ℤ → Option Value
read_float none = none
read_float (some n) = some (float n)

present-opt_int : (o : Option ℤ) → present (opt_int o) none ≡ read_int o
present-opt_int none = refl
present-opt_int (some n) = refl

present-opt_float : (o : Option ℤ) → present (opt_float o) none ≡ read_float o
present-opt_float none = refl
present-opt_float (some n) = refl

ruleset reads = (
  get_field-put, present-opt_text, present-tags_value, put_tags-eq-put, present-opt_int,
  present-opt_float,
)

module _ (isoformat : DateTime → String) where
  -- The id, name, metadata, user, session, environment, release and tags of a trace read back from
  -- its payload as they were set; what is `None`, and an empty list of tags, has no key, and the
  -- sampling verdict is not sent.
  pub trace_payload_lem :
      (t : Trace)
      → let p = trace_payload isoformat t in
        (get_field "id" p ≡ some (text t.id))
        × (get_field "name" p ≡ some (text t.name))
        × (get_field "metadata" p ≡ some (mapping t.metadata))
        × (get_field "user_id" p ≡ read_text t.user_id)
        × (get_field "session_id" p ≡ read_text t.session_id)
        × (get_field "environment" p ≡ read_text t.environment)
        × (get_field "release" p ≡ read_text t.release)
        × (get_field "tags" p ≡ read_tags t.tags)
        × (get_field "sampled" p ≡ none)
  unfolding trace_payload get_field
  trace_payload_lem t = (
    simp reads,
    simp reads,
    simp reads,
    simp reads,
    simp reads,
    simp reads,
    simp reads,
    simp reads,
    simp reads,
  )

  -- The ids, status, model, input, output, token counts and latency of an observation read back
  -- from its payload as they were set; what is `None` has no key, and there is no cost.
  pub observation_payload_lem :
      (o : Observation)
      → let p = observation_payload isoformat o in
        (get_field "id" p ≡ some (text o.id))
        × (get_field "trace_id" p ≡ some (text o.trace_id))
        × (get_field "parent_id" p ≡ read_text o.parent_id)
        × (get_field "status" p ≡ some (text (status_text o.status)))
        × (get_field "status_message" p ≡ read_text o.status_message)
        × (get_field "model" p ≡ present o.model none)
        × (get_field "input" p ≡ present o.input none)
        × (get_field "output" p ≡ present o.output none)
        × (get_field "prompt_tokens" p ≡ read_int o.prompt_tokens)
        × (get_field "completion_tokens" p ≡ read_int o.completion_tokens)
        × (get_field "cached_tokens" p ≡ read_int o.cached_tokens)
        × (get_field "reasoning_tokens" p ≡ read_int o.reasoning_tokens)
        × (get_field "latency_ms" p ≡ read_float o.latency_ms)
        × (get_field "cost" p ≡ none)
  unfolding observation_payload get_field
  observation_payload_lem o = (
    simp reads,
    simp reads,
    simp reads,
    simp reads,
    simp reads,
    simp reads,
    simp reads,
    simp reads,
    simp reads,
    simp reads,
    simp reads,
    simp reads,
    simp reads,
    simp reads,
  )
