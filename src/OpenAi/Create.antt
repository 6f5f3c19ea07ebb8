-- ===== src/OpenAi/Create.antt =====
-- The wrappers of llm_metrics/integrations/openai.py around a method of the client. An `await`
-- belongs to what the provider's method does, so that both wrappers have one model.
use llm_metrics.Prelude.{ℕ, String, Option}
use llm_metrics.Value.{Value, Fields, Objects}
use llm_metrics.Sdk.{Platform, Sdk}
use llm_metrics.Duck.{Duck}
use llm_metrics.Decorator.{Span, Outcome}
use llm_metrics.Calls.{Reader, Response, open_call, complete, wrap_call}
use llm_metrics.OpenAi.{extract_input, extract_params}
use llm_metrics.OpenAi.Response.{read}
use llm_metrics.OpenAi.Stream.{Own, new_own}

module _ {S : Type 0} (d : Duck) (objects : Objects) (stream_of : Value → S) where
  -- how a method of that observation name reads its calls
  unfoldable pub reader : String → Reader S Own
  unfolding extract_input extract_params read
  reader name = record {
    name = name;
    input = extract_input d;
    params = extract_params d;
    read = read d objects;
    own = new_own;
    stream_of = stream_of;
  }

  module _ {W : Type 0} (p : Platform W) where
    -- `_open`
    unfoldable pub open_ : String → Fields → Sdk W → Option Span × Sdk W
    unfolding open_call reader
    open_ name = open_call p objects d (reader name)

    -- `_complete`
    unfoldable pub complete_call : String → Span → Value → Fields → Sdk W → Sdk W
    unfolding complete reader
    complete_call name = complete p objects d (reader name)

    -- `_sync_wrapper`
    unfoldable sync_wrapper :
        (Option ℕ → Sdk W → Outcome × Sdk W)
        → String
        → Option ℕ
        → Fields
        → Sdk W
        → Response S Own × Sdk W
    unfolding wrap_call reader
    sync_wrapper original name = wrap_call p objects d (reader name) original

    -- `_async_wrapper`
    unfoldable async_wrapper :
        (Option ℕ → Sdk W → Outcome × Sdk W)
        → String
        → Option ℕ
        → Fields
        → Sdk W
        → Response S Own × Sdk W
    unfolding wrap_call reader
    async_wrapper original name = wrap_call p objects d (reader name) original
