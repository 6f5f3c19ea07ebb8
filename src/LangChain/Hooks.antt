-- ===== src/LangChain/Hooks.antt =====
-- The callbacks of `LlmMetricsTracer` in llm_metrics/integrations/langchain.py. `kwargs` are the
-- further keyword arguments; a hook that raises stops where it is.
pub mod Runs
use llm_metrics.Prelude.{
  ℕ, String, Bool, true, false, not, ◌&&◌, Option, none, some, List, [], ◌∷◌, map, or_else,
  first_some, is_some, is_blank, if◌then◌else◌, length,
}
use llm_metrics.Prelude.Int.{ℤ, pos, ◌-ℤ◌, leb_ℤ}
use llm_metrics.Value.{
  Value, null, int, float, text, sequence, mapping, Fields, end, put_field, items_of, Objects,
}
use llm_metrics.Capture.{key_text}
use llm_metrics.Models.{Observation, Exception, opt_text}
use llm_metrics.Sdk.{Platform, Sdk, modify_observation}
use llm_metrics.Duck.{Duck, get, either, truthy, is_zero, update_fields}
use llm_metrics.Decorator.{Outcome, returned, raising}
use llm_metrics.LangChain.{Run, Tracer, find_run, set_run, open_run, close_run}
use llm_metrics.LangChain.Extract.{
  run_name, tag_metadata, invocation_params, plain_messages, apply_usage, flat_generations,
  reason_in, llm_model, llm_output, score_of, document, retrieved_chars,
}

-- `{**_tags(kwargs), **params}`
abbrev with_params : Option Fields → Fields → Option Fields
with_params none params = none
with_params (some tags) params = some (update_fields params tags)

abbrev put_reason : Option String → Fields → Fields
put_reason none fs = fs
put_reason (some reason) fs =
    if is_blank reason then fs else put_field "finish_reason" (text reason) fs

abbrev any_some : List (Option Value) → Bool
any_some [] = false
any_some (none ∷ vs) = any_some vs
any_some (some v ∷ vs) = true

abbrev or_null : Option Value → Value
or_null none = null
or_null (some v) = v

abbrev put_scores : List (Option Value) → Fields → Fields
put_scores scores fs =
    if any_some scores
    then put_field "retrieval_scores" (sequence (items_of (map or_null scores))) fs
    else fs

module _ {W : Type 0} (p : Platform W) (objects : Objects) (d : Duck) where
  -- `_open` with the name and the tags of a hook, unless computing them raised
  unfoldable pub open_named :
      Option String
      → Option Fields
      → String
      → Value
      → ℕ
      → Option ℕ
      → Tracer
      → Sdk W
      → Tracer × Sdk W
  unfolding open_run
  open_named none tags as_type input run_id parent t s = (t, s)
  open_named (some name) none as_type input run_id parent t s = (t, s)
  open_named (some name) (some tags) as_type input run_id parent t s =
      open_run p objects run_id parent name as_type input tags t s

  unfoldable pub on_chain_start :
      Value → Value → ℕ → Option ℕ → Fields → Tracer → Sdk W → Tracer × Sdk W
  unfolding open_named
  on_chain_start serialized inputs run_id parent kwargs =
      open_named (run_name d objects serialized kwargs "chain") (tag_metadata d objects kwargs)
        "span" inputs run_id parent

  -- `on_chain_end` and `on_chain_error`; those of tools, and the other errors, are the same
  unfoldable pub on_end : Outcome → ℕ → Tracer → Sdk W → Tracer × Sdk W
  unfolding close_run
  on_end outcome run_id = close_run p objects run_id outcome

  unfoldable pub on_tool_start :
      Value → Value → Option Value → ℕ → Option ℕ → Fields → Tracer → Sdk W → Tracer × Sdk W
  unfolding open_named
  on_tool_start serialized input_str inputs run_id parent kwargs =
      open_named (run_name d objects serialized kwargs "tool") (tag_metadata d objects kwargs)
        "tool" (or_else inputs input_str) run_id parent

  unfoldable pub on_retriever_start :
      Value → Value → ℕ → Option ℕ → Fields → Tracer → Sdk W → Tracer × Sdk W
  unfolding open_named
  on_retriever_start serialized query run_id parent kwargs =
      open_named (run_name d objects serialized kwargs "retriever") (tag_metadata d objects kwargs)
        "retrieval" query run_id parent

  -- the model that the parameters name
  unfoldable model_param : Fields → Option String
  unfolding get either truthy key_text
  model_param params =
      let model = either d (get d (mapping params) "model") (get d (mapping params) "model_name") in
      if truthy d model then key_text objects model else none

  -- the end of `_start_generation`, by the run in the map and that model
  unfoldable pub set_model : Option Run → Option String → Sdk W → Sdk W
  unfolding modify_observation
  set_model none model s = s
  set_model (some run) none s = s
  set_model (some run) (some model) s =
      modify_observation run.span.observation (λ o. record o { model = text model }) s

  -- `_start_generation`
  unfoldable pub start_generation :
      Value → Value → ℕ → Option ℕ → Fields → Tracer → Sdk W → Tracer × Sdk W
  unfolding open_named set_model model_param invocation_params
  start_generation serialized input run_id parent kwargs t s =
      let params = invocation_params d objects (get d (mapping kwargs) "invocation_params") in
      let name = run_name d objects serialized kwargs "llm" in
      let tags = tag_metadata d objects kwargs in
      let (t', s') =
        open_named name (with_params tags params) "generation" input run_id parent t s in
      (
        t',
        if is_some name && is_some tags
            then set_model (find_run run_id t'.runs) (model_param params) s'
            else s',
      )

  unfoldable pub on_llm_start :
      Value → Value → ℕ → Option ℕ → Fields → Tracer → Sdk W → Tracer × Sdk W
  unfolding start_generation
  on_llm_start serialized prompts = start_generation serialized prompts

  unfoldable pub on_chat_model_start :
      Value → Value → ℕ → Option ℕ → Fields → Tracer → Sdk W → Tracer × Sdk W
  unfolding start_generation plain_messages
  on_chat_model_start serialized messages =
      start_generation serialized (plain_messages d objects messages)

  -- `on_llm_new_token`, by the run in the map
  unfoldable pub mark_token : Option Run → ℕ → Tracer → Sdk W → Tracer × Sdk W
  unfolding set_run
  mark_token none run_id t s = (t, s)
  mark_token (some run) run_id t s =
      let marked = record run {
        first_token_at = first_some run.first_token_at (some (p.perf_counter s.world));
      } in
      (record t { runs = set_run run_id marked t.runs }, s)

  unfoldable pub on_llm_new_token : ℕ → Tracer → Sdk W → Tracer × Sdk W
  unfolding mark_token
  on_llm_new_token run_id t s = mark_token (find_run run_id t.runs) run_id t s

  -- the model that an observation has after `on_llm_end`; the outer `none` means that it raised
  unfoldable model_after : Option Observation → Value → Option Value
  unfolding llm_model truthy
  model_after none response = some null
  model_after (some o) response =
      if truthy d o.model
      then some o.model
      else elim (llm_model d objects response) as (λ _. Option Value) [
        | none ↦ none
        | some m ↦ some (opt_text m)
      ]

  abbrev put_rate : Option ℤ → ℤ → Fields → Fields
  put_rate none generating fs = fs
  put_rate (some tokens) generating fs =
      if not (is_zero tokens) && not (leb_ℤ generating (pos 0))
      then put_field "output_tokens_per_second" (float (d.rate tokens generating)) fs
      else fs

  -- the timing that `on_llm_end` writes
  unfoldable token_timing : Option ℤ → ℤ → ℤ → Option ℤ → Fields → Fields
  token_timing none started now tokens fs = fs
  token_timing (some first) started now tokens fs =
      put_rate tokens (now -ℤ first)
        (put_field "time_to_first_token_ms" (float (d.round_ms (first -ℤ started))) fs)

  -- the metadata that `on_llm_end` writes
  unfoldable llm_metadata : Option String → Run → ℤ → Observation → Observation
  unfolding token_timing
  llm_metadata reason run now o = record o {
    metadata =
        token_timing run.first_token_at run.started now o.completion_tokens
          (put_reason reason o.metadata);
  }

  -- the end of `on_llm_end`, by the finish reason
  unfoldable pub llm_close :
      Option (Option String) → Run → Value → ℕ → Tracer → Sdk W → Tracer × Sdk W
  unfolding close_run modify_observation llm_metadata llm_output
  llm_close none run response run_id t s = (t, s)
  llm_close (some reason) run response run_id t s =
      close_run p objects run_id
        (returned (llm_output d objects s.runtime.settings.max_value_chars response)) t
        (modify_observation run.span.observation (llm_metadata reason run (p.perf_counter s.world))
          s)

  -- the middle of `on_llm_end`, by the model
  unfoldable pub llm_model_close : Option Value → Run → Value → ℕ → Tracer → Sdk W → Tracer × Sdk W
  unfolding llm_close modify_observation reason_in flat_generations
  llm_model_close none run response run_id t s = (t, s)
  llm_model_close (some model) run response run_id t s =
      llm_close (reason_in d objects (flat_generations d objects response)) run response run_id t
        (modify_observation run.span.observation (λ o. record o { model = model }) s)

  -- `on_llm_end`, by the run in the map
  unfoldable pub llm_end : Option Run → Value → ℕ → Tracer → Sdk W → Tracer × Sdk W
  unfolding llm_model_close modify_observation apply_usage model_after
  llm_end none response run_id t s = (t, s)
  llm_end (some run) response run_id t s =
      let s' = modify_observation run.span.observation (apply_usage d objects response) s in
      llm_model_close (model_after (s'.observations run.span.observation) response) run response
        run_id t s'

  unfoldable pub on_llm_end : Value → ℕ → Tracer → Sdk W → Tracer × Sdk W
  unfolding llm_end
  on_llm_end response run_id t s = llm_end (find_run run_id t.runs) response run_id t s

  -- the metadata that `on_retriever_end` writes
  unfoldable retrieval_metadata : List Value → Observation → Observation
  unfolding retrieved_chars score_of
  retrieval_metadata documents o = record o {
    metadata = put_scores (map (score_of d objects) documents) (
        put_field "retrieved_chars" (int (pos (retrieved_chars d objects documents)))
          (put_field "documents" (int (pos (length documents))) o.metadata));
  }

  -- the first lines of `on_retriever_end`, by the run in the map
  unfoldable write_retrieval : Option Run → List Value → Sdk W → Sdk W
  unfolding modify_observation retrieval_metadata
  write_retrieval none documents s = s
  write_retrieval (some run) documents s =
      modify_observation run.span.observation (retrieval_metadata documents) s

  unfoldable pub on_retriever_end : List Value → ℕ → Tracer → Sdk W → Tracer × Sdk W
  unfolding write_retrieval close_run document
  on_retriever_end documents run_id t s =
      let limit = s.runtime.settings.max_value_chars in
      close_run p objects run_id
        (returned (sequence (items_of (map (document d objects limit) documents)))) t
        (write_retrieval (find_run run_id t.runs) documents s)
