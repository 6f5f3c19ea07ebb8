-- ===== src/LangChain/Extract.antt =====
-- The extraction functions of llm_metrics/integrations/langchain.py. `none` means that `str` of a
-- host object raised, where a function can raise.
use llm_metrics.Prelude.{
  ℕ, ◌+◌, String, Option, none, some, List, [], ◌∷◌, ◌++◌, map, or_else, first_some, if◌then◌else◌,
  text_length,
}
use llm_metrics.Value.{
  Value, null, int, float, text, sequence, mapping, Items, Fields, end, put_field, fields_of,
  items_of, Objects,
}
use llm_metrics.Capture.{key_text, summarise}
use llm_metrics.Models.{Observation}
use llm_metrics.Duck.{as_int, Duck, get, truthy, either, iterate, to_float, update_fields}

infixl 5 ◌>>=◌
abbrev pub ◌>>=◌ {ℓ κ} : {A : Type ℓ} {B : Type κ} → Option A → (A → Option B) → Option B
none >>= f = none
some a >>= f = f a

-- `values[-1]` of a list that is not empty
abbrev last_of : Value → Items → Value
last_of v Items.nil = v
last_of v (Items.cons w ws) = last_of w ws

unfoldable pub tracked_params : List String
tracked_params = "model" ∷ "model_name" ∷ "temperature" ∷ "top_p" ∷ "max_tokens" ∷ "stop" ∷ []

module _ (d : Duck) (objects : Objects) where
  -- the end of `_name`
  unfoldable fallback_name : Fields → String → Option String
  unfolding truthy get
  fallback_name kwargs default =
      let name = get d (mapping kwargs) "name" in
      if truthy d name then key_text objects name else some default

  unfoldable id_name : Value → Fields → String → Option String
  unfolding fallback_name
  id_name (sequence (Items.cons v vs)) kwargs default = key_text objects (last_of v vs)
  id_name ident kwargs default = fallback_name kwargs default

  -- `_name`
  unfoldable pub run_name : Value → Fields → String → Option String
  unfolding truthy get id_name fallback_name
  run_name (mapping fs) kwargs default =
      let name = get d (mapping fs) "name" in
      if truthy d name
      then key_text objects name
      else id_name (get d (mapping fs) "id") kwargs default
  run_name serialized kwargs default = fallback_name kwargs default

  unfoldable supplied : Value → Fields → Fields
  unfolding update_fields
  supplied (mapping fs) metadata = update_fields fs metadata
  supplied v metadata = metadata

  -- `_tags`
  unfoldable pub tag_metadata : Fields → Option Fields
  unfolding truthy get iterate supplied
  tag_metadata kwargs =
      let tags = get d (mapping kwargs) "tags" in
      if truthy d tags
      then (do
        ts ← iterate d tags
        some (
            supplied (get d (mapping kwargs) "metadata")
              (put_field "tags" (sequence (items_of ts)) end)))
      else some (supplied (get d (mapping kwargs) "metadata") end)

  abbrev keep_param : String → Value → Fields → Fields
  keep_param k null out = out
  keep_param k v out = put_field k v out

  unfoldable params_of : List String → Fields → Fields → Fields
  unfolding get
  params_of [] params out = out
  params_of (k ∷ ks) params out = params_of ks params (keep_param k (get d (mapping params) k) out)

  -- `_invocation_params`, of `kwargs.get("invocation_params")`
  unfoldable pub invocation_params : Value → Fields
  unfolding params_of tracked_params
  invocation_params (mapping params) = params_of tracked_params params end
  invocation_params v = end

  unfoldable message_fields : Value → Value → Value → Fields
  unfolding truthy
  message_fields role content tool_calls =
      let plain = fields_of (("role", role) ∷ ("content", content) ∷ []) in
      if truthy d tool_calls then put_field "tool_calls" tool_calls plain else plain

  -- `_plain_message`, by the role and the content
  unfoldable plain_with : Value → Value → Value → Value
  unfolding message_fields get
  plain_with null null message = message
  plain_with role content message =
      mapping (message_fields role content (get d message "tool_calls"))

  unfoldable plain_message : Value → Value
  unfolding plain_with get either
  plain_message m = plain_with (either d (get d m "type") (get d m "role")) (get d m "content") m

  unfoldable plain_batches : List Value → Option (List Value)
  unfolding iterate plain_message
  plain_batches [] = some []
  plain_batches (b ∷ bs) = do
    ms ← iterate d b
    rest ← plain_batches bs
    some (sequence (items_of (map plain_message ms)) ∷ rest)

  -- one batch alone is taken out of its list
  abbrev single : List Value → Value
  single (b ∷ []) = b
  single bs = sequence (items_of bs)

  -- `_plain_messages`
  unfoldable pub plain_messages : Value → Value
  unfolding plain_batches iterate
  plain_messages messages = elim (iterate d messages >>= plain_batches) [
    | none ↦ messages
    | some bs ↦ single bs
  ]

  unfoldable flatten : List Value → Option (List Value)
  unfolding iterate
  flatten [] = some []
  flatten (b ∷ bs) = do gs ← iterate d b; rest ← flatten bs; some (gs ++ rest)

  -- `_flat_generations`
  unfoldable pub flat_generations : Value → List Value
  unfolding get truthy iterate flatten
  flat_generations response =
      let gens = get d response "generations" in
      if truthy d gens then or_else (iterate d gens >>= flatten) [] else []

  -- the first usage that a generation's message carries
  unfoldable message_usage : List Value → Option Value
  unfolding get truthy
  message_usage [] = none
  message_usage (g ∷ gs) =
      let usage = get d (get d g "message") "usage_metadata" in
      let rest = message_usage gs in if truthy d usage then some usage else rest

  -- `_apply_usage`, by that usage
  unfoldable usage_from : Option Value → Value → Observation → Observation
  unfolding get either as_int
  usage_from (some usage) response o = record o {
    prompt_tokens = as_int (get d usage "input_tokens");
    completion_tokens = as_int (get d usage "output_tokens");
    cached_tokens = as_int (get d (get d usage "input_token_details") "cache_read");
    reasoning_tokens = as_int (get d (get d usage "output_token_details") "reasoning");
  }
  usage_from none response o =
      let llm_output = get d response "llm_output" in
      let usage = either d (get d llm_output "token_usage") (get d llm_output "usage") in
      record o {
        prompt_tokens = as_int (get d usage "prompt_tokens");
        completion_tokens = as_int (get d usage "completion_tokens");
      }

  unfoldable pub apply_usage : Value → Observation → Observation
  unfolding usage_from message_usage flat_generations
  apply_usage response o = usage_from (message_usage (flat_generations response)) response o

  -- the loop of `_finish_reason`; the inner `none` is `None`
  unfoldable pub reason_in : List Value → Option (Option String)
  unfolding get truthy
  reason_in [] = some none
  reason_in (g ∷ gs) =
      let info = get d (get d g "generation_info") "finish_reason" in
      let reason =
        if truthy d info
        then info
        else get d (get d (get d g "message") "response_metadata") "finish_reason" in
      let rest = reason_in gs in
      if truthy d reason then (key_text objects reason >>= λ r. some (some r)) else rest

  -- the loop of `_llm_model`
  unfoldable model_in : List Value → Option (Option String)
  unfolding get either truthy
  model_in [] = some none
  model_in (g ∷ gs) =
      let metadata = get d (get d g "message") "response_metadata" in
      let model = either d (get d metadata "model_name") (get d metadata "model") in
      let rest = model_in gs in
      if truthy d model then (key_text objects model >>= λ m. some (some m)) else rest

  -- `_llm_model`
  unfoldable pub llm_model : Value → Option (Option String)
  unfolding model_in flat_generations get either truthy
  llm_model response =
      let llm_output = get d response "llm_output" in
      let model = either d (get d llm_output "model_name") (get d llm_output "model") in
      if truthy d model
      then (key_text objects model >>= λ m. some (some m))
      else model_in (flat_generations response)

  abbrev texts_of : List Value → List Value
  texts_of [] = []
  texts_of (text t ∷ vs) = text t ∷ texts_of vs
  texts_of (v ∷ vs) = texts_of vs

  abbrev output_from : ℕ → List Value → Value
  output_from limit [] = null
  output_from limit (t ∷ []) = summarise objects limit t
  output_from limit ts = summarise objects limit (sequence (items_of ts))

  -- `_llm_output`
  unfoldable pub llm_output : ℕ → Value → Value
  unfolding get flat_generations summarise
  llm_output limit response =
      output_from limit (texts_of (map (λ g. get d g "text") (flat_generations response)))

  abbrev number : Value → Option Value
  number (int n) = some (float (to_float n))
  number (float x) = some (float x)
  number v = none

  -- `_score`
  unfoldable pub score_of : Value → Option Value
  unfolding get
  score_of doc =
      let metadata = get d doc "metadata" in
      first_some (number (get d metadata "score")) (
        first_some (number (get d metadata "relevance_score"))
          (number (get d metadata "similarity")))

  -- `_document`, by the content
  unfoldable document_with : ℕ → Value → Value → Value
  unfolding summarise get either
  document_with limit null doc = summarise objects limit doc
  document_with limit content doc = mapping (
      fields_of (
        ("page_content", summarise objects limit content)
        ∷ ("metadata", either d (get d doc "metadata") (mapping end))
        ∷ []))

  unfoldable pub document : ℕ → Value → Value
  unfolding document_with get
  document limit doc = document_with limit (get d doc "page_content") doc

  abbrev chars : Value → ℕ
  chars (text t) = text_length t
  chars v = 0

  -- `sum(len(c) …)` over the contents that are texts
  unfoldable pub retrieved_chars : List Value → ℕ
  unfolding get
  retrieved_chars [] = 0
  retrieved_chars (v ∷ vs) = chars (get d v "page_content") + retrieved_chars vs
