-- ===== src/OpenAi.antt =====
-- llm_metrics/integrations/openai.py: what is read from the arguments of a call and from its
-- response.
pub mod Response
pub mod Stream
pub mod Create
use llm_metrics.Prelude.{
  ℕ, String, Bool, true, false, not, ◌&&◌, ◌||◌, Option, none, some, List, [], ◌∷◌, ◌++◌, map,
  is_blank, first_some, str_eq, if◌then◌else◌, ◌⧺◌, decimal,
}
use llm_metrics.Prelude.Int.{ℤ}
use llm_metrics.Value.{
  Value, null, bool, int, text, sequence, mapping, Fields, end, field, put_field, items_of, Objects,
}
use llm_metrics.Capture.{key_text}
use llm_metrics.Models.{Observation}
use llm_metrics.Models.Wire.{get_field}
use llm_metrics.Duck.{
  Duck, get, truthy, either, iterate, iterate_or, truthy_only, picked, plain, strict_int, is_text,
  is_zero, is_null, has_key, length_of, update_fields,
}
use llm_metrics.Raising.{Raising, ◌>>=◌, ◌>>◌, give, modify, evaluate, for_each}

-- `_TRACKED_PARAMS`
abbrev pub tracked_params : List String
tracked_params =
    "model" ∷ "temperature" ∷ "top_p" ∷ "max_tokens" ∷ "max_completion_tokens" ∷ "max_output_tokens"
    ∷ "n" ∷ "stream" ∷ "seed" ∷ "response_format" ∷ "reasoning_effort" ∷ "service_tier" ∷ []

-- the keys of the two APIs under one word each, for a count or for its details
abbrev prompt_names : List String
prompt_names = "prompt_tokens" ∷ "input_tokens" ∷ []

abbrev completion_names : List String
completion_names = "completion_tokens" ∷ "output_tokens" ∷ []

-- `extra[key] = value`, where the value is an int that is not 0
unfoldable put_count : String → Option ℤ → Fields → Fields
put_count key none extra = extra
put_count key (some n) extra = if is_zero n then extra else put_field key (int n) extra

-- `if extra: observation.metadata["usage"] = extra`
unfoldable pub put_usage : Fields → Observation → Observation
put_usage end o = o
put_usage (field k v extra) o = record o {
  metadata = put_field "usage" (mapping (field k v extra)) o.metadata;
}

-- `if names: facts["tool_calls"] = names`
unfoldable pub put_names : List Value → Fields → Fields
put_names [] facts = facts
put_names (v ∷ vs) facts = put_field "tool_calls" (sequence (items_of (v ∷ vs))) facts

abbrev put_refusal : Bool → Fields → Fields
put_refusal true facts = put_field "refusal" (bool true) facts
put_refusal false facts = facts

module _ (d : Duck) where
  -- `_extract_input`
  unfoldable first_present : List String → Fields → Value
  unfolding plain
  first_present [] kwargs = null
  first_present (k ∷ ks) kwargs = elim (get_field k kwargs) [
    | none ↦ first_present ks kwargs
    | some v ↦ plain d v
  ]

  unfoldable pub extract_input : Fields → Value
  unfolding first_present
  extract_input kwargs = first_present ("messages" ∷ "input" ∷ "prompt" ∷ []) kwargs

  -- the name of a tool: `function.name`, or its own
  unfoldable tool_name : Value → Value
  unfolding get either
  tool_name tool = either d (get d (get d tool "function") "name") (get d tool "name")

  abbrev put_tools : Option (List Value) → Fields → Option Fields
  put_tools none metadata = none
  put_tools (some tools) metadata =
      some
        (put_field "tools" (sequence (items_of (truthy_only d (map (tool_name) tools)))) metadata)

  -- `_extract_params`; nothing if it raises
  unfoldable pub extract_params : Fields → Option Fields
  unfolding picked get truthy iterate truthy_only tool_name
  extract_params kwargs =
      let metadata = picked d tracked_params kwargs end in
      let tools = get d (mapping kwargs) "tools" in
      if truthy d tools then put_tools (iterate d tools) metadata else some metadata

  -- `_first_int`
  unfoldable first_int : Value → List String → Option ℤ
  unfolding get strict_int
  first_int obj [] = none
  first_int obj (k ∷ ks) = first_some (strict_int (get d obj k)) (first_int obj ks)

  -- `_completion_tokens`
  unfoldable pub usage_completion : Value → Option ℤ
  unfolding first_int
  usage_completion usage = first_int usage completion_names

  -- the counts of `metadata["usage"]`
  unfoldable pub usage_extra : (prompt_details output_details : Value) → Fields
  unfolding get strict_int put_count
  usage_extra prompt_details output_details =
      put_count "rejected_prediction_tokens"
        (strict_int (get d output_details "rejected_prediction_tokens"))
        (put_count "accepted_prediction_tokens"
          (strict_int (get d output_details "accepted_prediction_tokens"))
          (put_count "audio_output_tokens" (strict_int (get d output_details "audio_tokens")) (
            put_count "audio_input_tokens" (strict_int (get d prompt_details "audio_tokens")) end)))

  -- the four counts of `_apply_usage`, by the two detail objects
  unfoldable pub set_counts : Value → Value → Value → Observation → Observation
  unfolding first_int usage_completion
  set_counts prompt_details output_details usage o = record o {
    prompt_tokens = first_int usage prompt_names;
    completion_tokens = usage_completion usage;
    cached_tokens = first_int prompt_details ("cached_tokens" ∷ []);
    reasoning_tokens = first_int output_details ("reasoning_tokens" ∷ []);
  }

  -- the rest of `_apply_usage`
  unfoldable pub apply_details : Value → Value → Value → Observation → Observation
  unfolding put_usage usage_extra set_counts
  apply_details prompt_details output_details usage o =
      put_usage (usage_extra prompt_details output_details)
        (set_counts prompt_details output_details usage o)

  -- `_apply_usage`
  unfoldable pub apply_usage : Value → Observation → Observation
  unfolding apply_details get either
  apply_usage null o = o
  apply_usage usage o =
      apply_details
        (either d (get d usage "prompt_tokens_details") (get d usage "input_tokens_details"))
        (either d (get d usage "completion_tokens_details") (get d usage "output_tokens_details"))
        usage o

  -- `if value: facts[key] = value`
  unfoldable put_truthy : String → Value → Fields → Fields
  unfolding truthy
  put_truthy key v facts = if truthy d v then put_field key v facts else facts

  abbrev put_response_id : Value → Fields → Fields
  put_response_id (text t) facts =
      if is_blank t || has_key "response_id" facts
      then facts
      else put_field "response_id" (text t) facts
  put_response_id v facts = facts

  -- `_collect_identity`
  unfoldable pub collect_identity : Value → Fields → Fields
  unfolding put_truthy get get_field
  collect_identity response facts = put_response_id (get d response "id") (
      put_truthy "service_tier" (get d response "service_tier")
        (put_truthy "system_fingerprint" (get d response "system_fingerprint") facts))

  -- `a == b`
  abbrev same_value : Value → Value → Bool
  same_value (text a) (text b) = str_eq a b
  same_value a b = d.same a b

  abbrev is_hashable : Value → Bool
  is_hashable (sequence vs) = false
  is_hashable (mapping fs) = false
  is_hashable v = true

  -- `len(set(reasons)) == 1` of a list that begins with `first`; nothing if a value is unhashable
  unfoldable all_same : Value → List Value → Option Bool
  all_same first [] = some true
  all_same first (r ∷ rs) =
      let rest = all_same first rs in
      if not (is_hashable r)
      then none
      else elim rest [ none ↦ none | some b ↦ some (same_value first r && b) ]

  abbrev reason_of : Value → List Value → Option Bool → Fields → Option Fields
  reason_of first rs none facts = none
  reason_of first rs (some true) facts = some (put_field "finish_reason" first facts)
  reason_of first rs (some false) facts =
      some (put_field "finish_reason" (sequence (items_of (first ∷ rs))) facts)

  -- the finish reasons of the choices that have one
  unfoldable pub put_reasons : List Value → Fields → Option Fields
  unfolding all_same
  put_reasons [] facts = some facts
  put_reasons (r ∷ rs) facts = if is_hashable r then reason_of r rs (all_same r rs) facts else none

  -- the names of the calls that have one
  unfoldable call_names : List Value → List Value
  unfolding truthy_only get
  call_names calls = truthy_only d (map (λ call. get d (get d call "function") "name") calls)

  -- the loop over the choices; it gives the names of the tools
  unfoldable pub choice_names : List Value → Raising Fields (List Value)
  unfolding get truthy iterate_or call_names
  choice_names [] = give []
  choice_names (choice ∷ rest) = do
    let message = get d choice "message"
    modify (put_refusal (truthy d (get d message "refusal")))
    calls ← evaluate (iterate_or d (get d message "tool_calls"))
    names ← choice_names rest
    give (call_names calls ++ names)
