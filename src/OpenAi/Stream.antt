-- ===== src/OpenAi/Stream.antt =====
-- `_OpenAIStreamState` of llm_metrics/integrations/openai.py: how the chunks of a stream are read.
-- The clock is read when a chunk comes, and is an argument.
pub mod Chunks
pub mod Usage
pub mod Tokens
use llm_metrics.Prelude.{
  String, Bool, true, false, ◌&&◌, Option, none, some, List, [], ◌∷◌, ◌++◌, map, if◌then◌else◌, not,
}
use llm_metrics.Prelude.Int.{ℤ, leb_ℤ}
use llm_metrics.Value.{Value, null, bool, text, sequence, Fields, end, put_field, items_of, Objects}
use llm_metrics.Models.{Observation}
use llm_metrics.Duck.{
  Duck, get, truthy, either, iterate_or, as_int, is_text, is_null, update_fields,
}
use llm_metrics.Stream.{StreamState, Provider, mark_first_token}
use llm_metrics.Raising.{Raising, ◌>>=◌, ◌>>◌, give, modify, evaluate, for_each}
use llm_metrics.OpenAi.{collect_identity, usage_completion, apply_usage}
use llm_metrics.OpenAi.Response.{collect_response_api, is_present}

-- the fields of the subclass; `tool_calls` is the dict by index, in order of insertion
pub record Own : Type 0 where
  pub model : Value
  pub usage : Value
  pub facts : Fields
  pub tool_calls : List (ℤ × Value)

abbrev pub State : Type 0
State = StreamState Own

-- the fields of a new state
abbrev pub new_own : Own
new_own = record { model = null; usage = null; facts = end; tool_calls = [] }

abbrev pub put_fact : String → Value → State → State
put_fact key v st = record st { own = record st.own { facts = put_field key v st.own.facts } }

-- `dict.setdefault`
unfoldable pub set_default : ℤ → Value → List (ℤ × Value) → List (ℤ × Value)
set_default k v [] = (k, v) ∷ []
set_default k v ((j, w) ∷ rest) =
    if leb_ℤ j k && leb_ℤ k j then (j, w) ∷ rest else (j, w) ∷ set_default k v rest

-- the values in the order of their keys
unfoldable insert_sorted : ℤ × Value → List (ℤ × Value) → List (ℤ × Value)
insert_sorted (k, v) [] = (k, v) ∷ []
insert_sorted (k, v) ((j, w) ∷ rest) =
    if leb_ℤ k j then (k, v) ∷ (j, w) ∷ rest else (j, w) ∷ insert_sorted (k, v) rest

unfoldable sorted : List (ℤ × Value) → List (ℤ × Value)
unfolding insert_sorted
sorted [] = []
sorted (e ∷ es) = insert_sorted e (sorted es)

-- `self.text.append(piece)`
abbrev pub append_text : Value → State → State
append_text (text t) st = record st { text = st.text ++ t ∷ [] }
append_text v st = st

-- a piece of text, if it is a text that is not empty
unfoldable pub put_piece : ℤ → Value → State → State
unfolding mark_first_token
put_piece now piece st =
    if is_present piece then append_text piece (mark_first_token now st) else st

unfoldable pub put_refused : ℤ → Bool → State → State
unfolding mark_first_token
put_refused now true st = put_fact "refusal" (bool true) (mark_first_token now st)
put_refused now false st = st

abbrev pub name_call : Option ℤ → Value → State → State
name_call none name st = st
name_call (some index) name st = record st {
  own = record st.own { tool_calls = set_default index name st.own.tool_calls };
}

-- work on the facts alone
unfoldable pub in_facts : {A : Type 0} → Raising Fields A → Raising State A
in_facts m st =
    let (r, facts) = m st.own.facts in (r, record st { own = record st.own { facts = facts } })

module _ (d : Duck) (objects : Objects) where
  unfoldable pub set_usage : Value → State → State
  unfolding usage_completion
  set_usage null st = st
  set_usage usage st = record st {
    completion_tokens = usage_completion d usage;
    own = record st.own { usage = usage };
  }

  -- the first lines of `_observe`
  unfoldable pub observe_head : Value → State → State
  unfolding set_usage either get collect_identity
  observe_head chunk st =
      let named = record st {
        own = record st.own { model = either d st.own.model (get d chunk "model") };
      } in
      let counted = set_usage (get d chunk "usage") named in
      record counted {
        own = record counted.own { facts = collect_identity d chunk counted.own.facts };
      }

  -- one tool call of a delta
  unfoldable pub observe_call : ℤ → Value → State → State
  unfolding mark_first_token get truthy as_int set_default
  observe_call now call st =
      let marked = mark_first_token now st in
      let name = get d (get d call "function") "name" in
      if truthy d name then name_call (as_int (get d call "index")) name marked else marked

  unfoldable pub observe_delta : ℤ → Value → Raising State (Unit {0})
  unfolding put_piece put_refused get truthy iterate_or for_each observe_call
  observe_delta now delta = do
    modify (put_piece now (get d delta "content"))
    modify (put_refused now (truthy d (get d delta "refusal")))
    calls ← evaluate (iterate_or d (get d delta "tool_calls"))
    for_each (λ call. modify (observe_call now call)) calls

  unfoldable pub put_reason : Value → State → State
  unfolding truthy
  put_reason reason st = if truthy d reason then put_fact "finish_reason" reason st else st

  unfoldable pub observe_choice : ℤ → Value → Raising State (Unit {0})
  unfolding get put_reason observe_delta
  observe_choice now choice = do
    modify (put_reason (get d choice "finish_reason"))
    if is_null (get d choice "delta") then give tt else observe_delta now (get d choice "delta")

  -- the usage and the model of a completed response
  unfoldable pub take_final : Value → State → State
  unfolding either get usage_completion
  take_final final st =
      let usage = either d (get d final "usage") st.own.usage in
      record st {
        completion_tokens = usage_completion d usage;
        own = record st.own { usage = usage; model = either d (get d final "model") st.own.model };
      }

  -- the part of `_observe` for the Responses API
  unfoldable pub observe_event : ℤ → Value → Raising State (Unit {0})
  unfolding put_piece get take_final collect_response_api
  observe_event now chunk = do
    modify (put_piece now (get d chunk "delta"))
    if not (is_null (get d chunk "response")) && is_text "response.completed" (get d chunk "type")
        then (do
          modify (take_final (get d chunk "response"))
          in_facts (collect_response_api d objects (get d chunk "response")))
        else give tt

  -- `_observe`
  unfoldable pub observe : ℤ → Value → Raising State (Unit {0})
  unfolding observe_head get iterate_or for_each observe_choice observe_event
  observe now chunk = do
    modify (observe_head chunk)
    choices ← evaluate (iterate_or d (get d chunk "choices"))
    for_each (observe_choice now) choices
    observe_event now chunk

  unfoldable put_tool_calls : List (ℤ × Value) → Fields → Fields
  unfolding sorted
  put_tool_calls [] facts = facts
  put_tool_calls (e ∷ es) facts =
      put_field "tool_calls" (sequence (items_of (map (λ (e : ℤ × Value). e.1) (sorted (e ∷ es)))))
        facts

  -- `_apply`, which does not raise
  unfoldable pub apply : State → Observation → Bool × Observation
  unfolding apply_usage put_tool_calls update_fields
  apply st o =
      let o' = apply_usage d st.own.usage (record o { model = st.own.model }) in
      (
        true,
        record o' {
          metadata = update_fields (put_tool_calls st.own.tool_calls st.own.facts) o'.metadata;
        },
      )

  -- what the proxy calls, around a stream whose own methods are given
  unfoldable pub provider : {S W : Type 0} → Provider S Own W → Provider S Own W
  unfolding observe apply
  provider stream = record stream {
    observe_chunk = λ chunk now st. (observe now chunk st).1;
    apply = apply;
    round_ms = d.round_ms;
    rate = d.rate;
  }
