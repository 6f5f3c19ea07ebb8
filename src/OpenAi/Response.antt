-- ===== src/OpenAi/Response.antt =====
-- llm_metrics/integrations/openai.py: the facts of a whole response, and what is recorded of a
-- call that returned one.
use llm_metrics.Prelude.{
  ℕ, Bool, not, false, Option, none, some, List, [], ◌∷◌, ◌++◌, map, is_blank, if◌then◌else◌, ◌⧺◌,
  decimal,
}
use llm_metrics.Value.{Value, text, sequence, mapping, Fields, end, put_field, items_of, Objects}
use llm_metrics.Capture.{key_text}
use llm_metrics.Models.{Observation}
use llm_metrics.Duck.{
  Duck, get, truthy, either, iterate, iterate_or, truthy_only, plain, is_text, is_null, length_of,
  update_fields,
}
use llm_metrics.Raising.{Raising, ◌>>=◌, ◌>>◌, give, modify, evaluate}
use llm_metrics.OpenAi.{
  apply_usage, collect_identity, put_reasons, choice_names, put_names, put_refusal,
}

abbrev drop_nulls : List Value → List Value
drop_nulls [] = []
drop_nulls (v ∷ vs) = let rest = drop_nulls vs in if is_null v then rest else v ∷ rest

-- `isinstance(v, str) and v`
abbrev pub is_present : Value → Bool
is_present (text t) = not (is_blank t)
is_present v = false

module _ (d : Duck) (objects : Objects) where
  -- the finish reason that a response of the Responses API reports
  unfoldable put_status : Value → Value → Fields → Fields
  unfolding get truthy either
  put_status response status facts =
      if is_text "incomplete" status
      then put_field "finish_reason"
          (either d (get d (get d response "incomplete_details") "reason") status) facts
      else if truthy d status
      then put_field "finish_reason" (if is_text "completed" status then text "stop" else status)
          facts
      else facts

  -- the loop over the parts of a message
  unfoldable part_facts : List Value → Fields → Fields
  unfolding get
  part_facts [] facts = facts
  part_facts (part ∷ rest) facts =
      part_facts rest (put_refusal (is_text "refusal" (get d part "type")) facts)

  -- one round of the loop over the items of the output; it gives the name of a called tool
  unfoldable item_names : Value → Raising Fields (List Value)
  unfolding get truthy iterate_or part_facts
  item_names item =
      let kind = get d item "type" in
      if is_text "function_call" kind
      then (if truthy d (get d item "name")
          then (do name ← evaluate (key_text objects (get d item "name")); give (text name ∷ []))
          else give [])
      else if is_text "message" kind
      then (do
        parts ← evaluate (iterate_or d (get d item "content"))
        modify (part_facts parts)
        give [])
      else give []

  unfoldable output_names : List Value → Raising Fields (List Value)
  unfolding item_names
  output_names [] = give []
  output_names (item ∷ rest) = do
    names ← item_names item
    more ← output_names rest
    give (names ++ more)

  -- `_collect_response_api_facts`
  unfoldable pub collect_response_api : Value → Raising Fields (Unit {0})
  unfolding put_status get iterate_or output_names put_names
  collect_response_api response = do
    modify (put_status response (get d response "status"))
    items ← evaluate (iterate_or d (get d response "output"))
    names ← output_names items
    modify (put_names names)

  -- the branch of `_apply_response_facts` with choices
  unfoldable collect_choices : Value → Raising Fields (Unit {0})
  unfolding get iterate truthy_only put_reasons choice_names put_names
  collect_choices choices = do
    cs ← evaluate (iterate d choices)
    facts ← λ facts. (some facts, facts)
    reasoned ←
        evaluate
          (put_reasons d (truthy_only d (map (λ choice. get d choice "finish_reason") cs)) facts)
    modify (λ _. reasoned)
    names ← choice_names d cs
    modify (put_names names)

  -- the facts of `_apply_response_facts`
  unfoldable pub response_facts : Value → Raising Fields (Unit {0})
  unfolding collect_identity get truthy collect_choices collect_response_api
  response_facts response = do
    modify (collect_identity d response)
    if truthy d (get d response "choices")
        then collect_choices (get d response "choices")
        else collect_response_api response

  -- the messages of the choices, taken out of their list if there is one alone
  abbrev messages_output : List Value → Option Value
  messages_output [] = none
  messages_output (m ∷ []) = some m
  messages_output ms = some (sequence (items_of ms))

  abbrev embeddings : Option ℕ → Option Value
  embeddings none = none
  embeddings (some n) = some (text ("<" ⧺ decimal n ⧺ " embedding(s)>"))

  -- the end of `_extract_output`, for a response without messages
  unfoldable other_output : Value → Option Value
  unfolding get plain length_of decimal
  other_output response =
      if is_present (get d response "output_text")
      then some (get d response "output_text")
      else if not (is_null (get d response "output"))
      then some (plain d (get d response "output"))
      else if not (is_null (get d response "data"))
      then embeddings (length_of d (get d response "data"))
      else some (plain d response)

  abbrev or_other : Option Value → Value → Option Value
  or_other (some v) response = some v
  or_other none response = other_output response

  abbrev choices_output : Option (List Value) → Value → Option Value
  choices_output none response = none
  choices_output (some cs) response =
      or_other (messages_output (drop_nulls (map (λ choice. plain d (get d choice "message")) cs)))
        response

  -- `_extract_output`; nothing if it raises
  unfoldable pub extract_output : Value → Option Value
  unfolding get truthy iterate other_output plain
  extract_output response =
      let choices = get d response "choices" in
      if truthy d choices
      then choices_output (iterate d choices) response
      else other_output response

  -- the end of the `try` block of `_complete`, by the facts
  unfoldable pub read_facts :
      Option (Unit {0}) × Fields → Value → Observation → Observation × Option Value
  unfolding extract_output update_fields
  read_facts (none, facts) response o = (o, none)
  read_facts (some done, facts) response o =
      (record o { metadata = update_fields facts o.metadata }, extract_output response)

  unfoldable pub set_model : Value → Fields → Observation → Observation
  unfolding either get
  set_model response kwargs o = record o {
    model = either d (get d response "model") (get d (mapping kwargs) "model");
  }

  -- the `try` block of `_complete`
  unfoldable pub read : Value → Fields → Observation → Observation × Option Value
  unfolding read_facts response_facts apply_usage set_model get
  read response kwargs o =
      read_facts (response_facts response end) response
        (apply_usage d (get d response "usage") (set_model response kwargs o))
