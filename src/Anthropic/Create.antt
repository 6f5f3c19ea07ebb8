-- ===== src/Anthropic/Create.antt =====
-- The wrappers of llm_metrics/integrations/anthropic.py around `messages.create`. An `await`
-- belongs to what the provider's method does, so that both wrappers have one model.
use llm_metrics.Prelude.{ℕ, Option}
use llm_metrics.Value.{Value, Fields, Objects}
use llm_metrics.Sdk.{Platform, Sdk}
use llm_metrics.Duck.{Duck}
use llm_metrics.Decorator.{Span, Outcome}
use llm_metrics.Calls.{Reader, Response, open_call, complete, wrap_call}
use llm_metrics.Anthropic.{extract_input, extract_params, read}
use llm_metrics.Anthropic.Stream.{Own, new_own}

module _ {S : Type 0} (d : Duck) (objects : Objects) (stream_of : Value → S) where
  -- how calls and messages are read; `name` is `_NAME`
  unfoldable pub reader : Reader S Own
  unfolding extract_input extract_params read
  reader = record {
    name = "anthropic.messages";
    input = extract_input d;
    params = extract_params d;
    read = read d objects;
    own = new_own;
    stream_of = stream_of;
  }

  module _ {W : Type 0} (p : Platform W) where
    -- `_open`
    unfoldable pub open_ : Fields → Sdk W → Option Span × Sdk W
    unfolding open_call reader
    open_ = open_call p objects d reader

    -- `_complete`
    unfoldable pub complete_call : Span → Value → Fields → Sdk W → Sdk W
    unfolding complete reader
    complete_call = complete p objects d reader

    -- `_sync_create`
    unfoldable sync_create :
        (Option ℕ → Sdk W → Outcome × Sdk W) → Option ℕ → Fields → Sdk W → Response S Own × Sdk W
    unfolding wrap_call reader
    sync_create = wrap_call p objects d reader

    -- `_async_create`
    unfoldable async_create :
        (Option ℕ → Sdk W → Outcome × Sdk W) → Option ℕ → Fields → Sdk W → Response S Own × Sdk W
    unfolding wrap_call reader
    async_create = wrap_call p objects d reader
