-- ===== src/Anthropic/Stream.antt =====
-- `_AnthropicStreamState` of llm_metrics/integrations/anthropic.py: how the events of a stream are
-- read. The clock is read when an event comes, and is an argument.
pub mod Events
pub mod Usage
pub mod Tokens
use llm_metrics.Prelude.{
  String, Bool, true, false, ◌&&◌, ◌||◌, Option, none, some, List, [], ◌∷◌, ◌++◌, str_eq,
  if◌then◌else◌,
}
use llm_metrics.Prelude.Int.{ℤ}
use llm_metrics.Value.{
  Value, null, int, text, sequence, mapping, Fields, end, field, put_field, items_of, Objects,
}
use llm_metrics.Capture.{key_text}
use llm_metrics.Models.{Observation}
use llm_metrics.Models.Wire.{get_field}
use llm_metrics.Duck.{Duck, get, truthy, strict_int, is_text, update_fields}
use llm_metrics.Stream.{StreamState, Provider, mark_first_token}
use llm_metrics.Raising.{Raising, ◌>>=◌, ◌>>◌, give, modify, evaluate}
use llm_metrics.OpenAi.{put_names}
use llm_metrics.OpenAi.Response.{is_present}
use llm_metrics.Anthropic.{finish_reason, apply_usage}

-- the fields of the subclass; `tool_calls` holds texts
pub record Own : Type 0 where
  pub model : Value
  pub usage : Fields
  pub facts : Fields
  pub tool_calls : List Value

abbrev pub State : Type 0
State = StreamState Own

abbrev pub new_own : Own
new_own = record { model = null; usage = end; facts = end; tool_calls = [] }

-- `_USAGE_KEYS`
abbrev pub usage_keys : List String
usage_keys =
    "input_tokens" ∷ "output_tokens" ∷ "cache_read_input_tokens" ∷ "cache_creation_input_tokens"
    ∷ []

abbrev pub put_fact : String → Value → State → State
put_fact key v st = record st { own = record st.own { facts = put_field key v st.own.facts } }

-- `usage[key] = value`, if there is a value
unfoldable pub put_int : String → Option ℤ → Fields → Fields
put_int key none usage = usage
put_int key (some n) usage = put_field key (int n) usage

-- `self.text.append(text)`
abbrev pub append_text : Value → State → State
append_text (text t) st = record st { text = st.text ++ t ∷ [] }
append_text v st = st

abbrev pub append_name : String → State → State
append_name name st = record st {
  own = record st.own { tool_calls = st.own.tool_calls ++ text name ∷ [] };
}

-- `facts.pop(key)`
unfoldable pop_field : String → Fields → Fields
pop_field k end = end
pop_field k (field (text j) v fs) = if str_eq j k then fs else field (text j) v (pop_field k fs)
pop_field k (field j v fs) = field j v (pop_field k fs)

module _ (d : Duck) (objects : Objects) where
  -- the loop of `_merge_usage`
  unfoldable pub merge_keys : List String → Value → Fields → Fields
  unfolding get strict_int put_int
  merge_keys [] usage merged = merged
  merge_keys (k ∷ ks) usage merged =
      merge_keys ks usage (put_int k (strict_int (get d usage k)) merged)

  -- `_merge_usage`
  unfoldable pub merge_usage : Value → State → State
  unfolding merge_keys get_field strict_int
  merge_usage null st = st
  merge_usage usage st =
      let merged = merge_keys usage_keys usage st.own.usage in
      record st {
        own = record st.own { usage = merged };
        completion_tokens = strict_int (get d (mapping merged) "output_tokens");
      }

  -- `if value: self.facts[key] = value`
  unfoldable pub put_fact_if : String → Value → State → State
  unfolding truthy
  put_fact_if key v st = if truthy d v then put_fact key v st else st

  unfoldable pub on_message_start : Value → State → State
  unfolding get merge_usage put_fact_if
  on_message_start message st = put_fact_if "response_id" (get d message "id") (
      merge_usage (get d message "usage")
        (record st { own = record st.own { model = get d message "model" } }))

  unfoldable pub on_block_start : ℤ → Value → Raising State (Unit {0})
  unfolding get truthy mark_first_token
  on_block_start now block =
      if is_text "tool_use" (get d block "type") && truthy d (get d block "name")
      then (do
        modify (mark_first_token now)
        name ← evaluate (key_text objects (get d block "name"))
        modify (append_name name))
      else give tt

  unfoldable pub on_block_delta : ℤ → Value → State → State
  unfolding get mark_first_token
  on_block_delta now delta st =
      if is_present (get d delta "text")
      then append_text (get d delta "text") (mark_first_token now st)
      else if is_text "thinking_delta" (get d delta "type")
          || is_text "input_json_delta" (get d delta "type")
      then mark_first_token now st
      else st

  unfoldable pub on_message_delta : Value → State → State
  unfolding get merge_usage put_fact_if
  on_message_delta event st =
      merge_usage (get d event "usage")
        (put_fact_if "stop_reason" (get d (get d event "delta") "stop_reason") st)

  -- `_observe`
  unfoldable pub observe : ℤ → Value → Raising State (Unit {0})
  unfolding get on_message_start on_block_start on_block_delta on_message_delta
  observe now event =
      let kind = get d event "type" in
      if is_text "message_start" kind
      then modify (on_message_start (get d event "message"))
      else if is_text "content_block_start" kind
      then on_block_start now (get d event "content_block")
      else if is_text "content_block_delta" kind
      then modify (on_block_delta now (get d event "delta"))
      else if is_text "message_delta" kind
      then modify (on_message_delta event)
      else give tt

  abbrev with_reason : Option Value → Fields → Option Fields
  with_reason none facts = none
  with_reason (some reason) facts =
      some (put_field "finish_reason" reason (pop_field "stop_reason" facts))

  -- the facts at the end of `_apply`; nothing if it raises
  unfoldable pub end_facts : Option Value → Fields → Option Fields
  unfolding finish_reason pop_field
  end_facts none facts = some facts
  end_facts (some stop_reason) facts = with_reason (finish_reason d objects stop_reason) facts

  abbrev pub write_facts : Option Fields → Observation → Bool × Observation
  write_facts none o = (false, o)
  write_facts (some facts) o = (true, record o { metadata = update_fields facts o.metadata })

  -- `_apply`, and whether it returned
  unfoldable pub apply : State → Observation → Bool × Observation
  unfolding apply_usage put_names get_field end_facts update_fields
  apply st o =
      let facts = put_names st.own.tool_calls st.own.facts in
      write_facts (end_facts (get_field "stop_reason" facts) facts)
        (apply_usage d (mapping st.own.usage) (record o { model = st.own.model }))

  -- what the proxy calls, around a stream whose own methods are given
  unfoldable pub provider : {S W : Type 0} → Provider S Own W → Provider S Own W
  unfolding observe apply
  provider stream = record stream {
    observe_chunk = λ event now st. (observe now event st).1;
    apply = apply;
    round_ms = d.round_ms;
    rate = d.rate;
  }
