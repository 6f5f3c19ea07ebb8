-- ===== src/Anthropic.antt =====
-- llm_metrics/integrations/anthropic.py: what is read from the arguments of a call and from the
-- message that it returns. `_get`, `_as_int`, `_plain` and `_prune` are those of openai.py.
pub mod Stream
pub mod Create
pub mod Manager
use llm_metrics.Prelude.{
  ℕ, String, Bool, true, false, not, Option, none, some, List, [], ◌∷◌, map, or_else, str_eq,
  if◌then◌else◌,
}
use llm_metrics.Prelude.Int.{ℤ, pos, ◌+ℤ◌}
use llm_metrics.Value.{
  Value, null, bool, int, text, sequence, mapping, Fields, end, put_field, fields_of, items_of,
  Objects,
}
use llm_metrics.Capture.{key_text}
use llm_metrics.Models.{Observation}
use llm_metrics.Duck.{
  Duck, get, truthy, either, iterate, iterate_or, truthy_only, picked, plain, strict_int, is_text,
  is_zero, is_null, update_fields,
}
use llm_metrics.OpenAi.{put_names}

-- `_TRACKED_PARAMS`
abbrev pub tracked_params : List String
tracked_params =
    "model" ∷ "max_tokens" ∷ "temperature" ∷ "top_p" ∷ "top_k" ∷ "stop_sequences" ∷ "stream"
    ∷ "service_tier" ∷ []

-- `_STOP_REASONS`, with the reason itself where there is no entry
unfoldable reason_word : String → String
reason_word reason =
    if str_eq reason "end_turn"
    then "stop"
    else if str_eq reason "stop_sequence"
    then "stop"
    else if str_eq reason "max_tokens"
    then "length"
    else if str_eq reason "tool_use"
    then "tool_calls"
    else if str_eq reason "refusal"
    then "content_filter"
    else reason

-- a count that may be missing, as a summand
abbrev or_zero : Option ℤ → ℤ
or_zero n = or_else n (pos 0)

-- the counts of `_apply_usage`, as they were read
unfoldable pub set_prompt : Option ℤ → Option ℤ → Option ℤ → Observation → Observation
set_prompt none cache_read cache_write o = o
set_prompt (some fresh) cache_read cache_write o = record o {
  prompt_tokens = some (fresh +ℤ or_zero cache_read +ℤ or_zero cache_write);
}

unfoldable pub set_cached : Option ℤ → Observation → Observation
set_cached none o = o
set_cached (some n) o = record o { cached_tokens = some n }

unfoldable pub set_cache_write : Option ℤ → Observation → Observation
set_cache_write none o = o
set_cache_write (some n) o = if is_zero n then o else record o {
  metadata =
      put_field "usage" (mapping (fields_of (("cache_creation_input_tokens", int n) ∷ [])))
        o.metadata;
}

unfoldable pub write_counts :
    (fresh cache_read cache_write output : Option ℤ) → Observation → Observation
unfolding set_prompt set_cached set_cache_write
write_counts fresh cache_read cache_write output o = set_cache_write cache_write (
    set_cached cache_read
      (record (set_prompt fresh cache_read cache_write o) { completion_tokens = output }))

module _ (d : Duck) where
  -- `_apply_usage`
  unfoldable pub apply_usage : Value → Observation → Observation
  unfolding write_counts get strict_int
  apply_usage null o = o
  apply_usage usage o =
      write_counts (strict_int (get d usage "input_tokens"))
        (strict_int (get d usage "cache_read_input_tokens"))
        (strict_int (get d usage "cache_creation_input_tokens"))
        (strict_int (get d usage "output_tokens")) o

  abbrev plain_or_null : Value → Value
  plain_or_null null = null
  plain_or_null v = plain d v

  -- `_extract_input`
  unfoldable pub extract_input : Fields → Value
  unfolding get plain
  extract_input kwargs =
      let messages = get d (mapping kwargs) "messages" in
      let system = get d (mapping kwargs) "system" in
      if is_null system
      then plain_or_null messages
      else mapping (fields_of (("system", plain d system) ∷ ("messages", plain d messages) ∷ []))

  abbrev put_budget : Value → Fields → Fields
  put_budget null metadata = metadata
  put_budget budget metadata = put_field "thinking_budget_tokens" budget metadata

  -- the part of `_extract_params` about `thinking`
  unfoldable put_thinking : Value → Fields → Fields
  unfolding get
  put_thinking (mapping fs) metadata =
      put_budget (get d (mapping fs) "budget_tokens")
        (put_field "thinking" (get d (mapping fs) "type") metadata)
  put_thinking v metadata = metadata

  abbrev put_tools : Option (List Value) → Fields → Option Fields
  put_tools none metadata = none
  put_tools (some tools) metadata = some (
      put_field "tools"
        (sequence (items_of (truthy_only d (map (λ tool. get d tool "name") tools)))) metadata)

  -- `_extract_params`; nothing if it raises
  unfoldable pub extract_params : Fields → Option Fields
  unfolding picked get put_thinking truthy iterate truthy_only
  extract_params kwargs =
      let metadata =
        put_thinking (get d (mapping kwargs) "thinking") (picked d tracked_params kwargs end) in
      let tools = get d (mapping kwargs) "tools" in
      if truthy d tools then put_tools (iterate d tools) metadata else some metadata

module _ (d : Duck) (objects : Objects) where
  infixl 5 ◌>>=◌
  abbrev ◌>>=◌ {ℓ κ} : {A : Type ℓ} {B : Type κ} → Option A → (A → Option B) → Option B
  none >>= f = none
  some a >>= f = f a

  -- `_finish_reason`; nothing if `str` raised
  unfoldable pub finish_reason : Value → Option Value
  unfolding reason_word
  finish_reason stop_reason = do
    reason ← key_text objects stop_reason
    some (text (reason_word reason))

  -- `str(block.name)` of each block that calls a tool
  unfoldable tool_names : List Value → Option (List Value)
  unfolding get truthy
  tool_names [] = some []
  tool_names (block ∷ rest) = do
    let names = tool_names rest
    if is_text "tool_use" (get d block "type")
        then (if truthy d (get d block "name")
            then (do
              name ← key_text objects (get d block "name")
              more ← names
              some (text name ∷ more))
            else names)
        else names

  -- `if response_id: facts["response_id"] = response_id`
  unfoldable put_id : Value → Fields → Fields
  unfolding truthy
  put_id id facts = if truthy d id then put_field "response_id" id facts else facts

  unfoldable put_stop : Value → Fields → Option Fields
  unfolding truthy finish_reason
  put_stop stop_reason facts =
      if truthy d stop_reason
      then (do
        reason ← finish_reason stop_reason
        let facts' = put_field "finish_reason" reason facts
        some (
            if is_text "refusal" stop_reason
            then put_field "refusal" (bool true) facts'
            else facts'))
      else some facts

  -- the facts of `_apply_facts`; nothing if it raises
  unfoldable pub message_facts : Value → Option Fields
  unfolding get put_id put_stop iterate_or tool_names put_names
  message_facts message = do
    facts ← put_stop (get d message "stop_reason") (put_id (get d message "id") end)
    blocks ← iterate_or d (get d message "content")
    names ← tool_names blocks
    some (put_names names facts)

  abbrev text_output : List Value → Value
  text_output (b ∷ []) =
      if is_text "text" (get d b "type") then get d b "text" else sequence (items_of (b ∷ []))
  text_output bs = sequence (items_of bs)

  -- `_extract_output`; nothing if it raises
  unfoldable pub extract_output : Value → Option Value
  unfolding get plain iterate
  extract_output message =
      let content = get d message "content" in
      if is_null content
      then some (plain_or_null d message)
      else (do blocks ← iterate d content; some (text_output (map (plain d) blocks)))

  unfoldable pub set_model : Value → Fields → Observation → Observation
  unfolding either get
  set_model message kwargs o = record o {
    model = either d (get d message "model") (get d (mapping kwargs) "model");
  }

  abbrev pub read_facts : Option Fields → Value → Observation → Observation × Option Value
  read_facts none message o = (o, none)
  read_facts (some facts) message o =
      (record o { metadata = update_fields facts o.metadata }, extract_output message)

  -- the `try` block of `_complete`
  unfoldable pub read : Value → Fields → Observation → Observation × Option Value
  unfolding message_facts apply_usage set_model get extract_output update_fields
  read message kwargs o =
      read_facts (message_facts message) message
        (apply_usage d (get d message "usage") (set_model message kwargs o))
