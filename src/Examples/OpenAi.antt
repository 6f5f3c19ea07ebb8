-- ===== src/Examples/OpenAi.antt =====
-- Calls and streams of a wrapped OpenAI client.
use llm_metrics.Prelude.{
  is_some, ◌&&◌, ℕ, String, ◌≡◌, refl, true, false, none, some, Option, List, [], ◌∷◌, ◌⊎◌,
}
use llm_metrics.Prelude.Int.{ℤ, pos}
use llm_metrics.Value.{Value, int, bool, text, sequence, mapping, items_of, fields_of, end, Fields}
use llm_metrics.Models.Wire.{get_field}
use llm_metrics.Sdk.{Sdk}
use llm_metrics.Decorator.{Span, Outcome, returned}
use llm_metrics.Duck.{get}
use llm_metrics.Examples.Sending.{objects, observation}
use llm_metrics.Examples.LangChain.{duck}
use llm_metrics.Examples.Tracing.{platform, start, unsampled, unsampled-Unsampled, boom}
use llm_metrics.Calls.{Reader, new_state, open_call, wrap_call}
use llm_metrics.Calls.Transparent.{Passed, asks_stream, wrap_call-Passed}
use llm_metrics.Calls.Silence.{end_stream, wrap_call-Silent}
use llm_metrics.Decorator.Silence.{Silent, Unsampled}
use llm_metrics.Stream.{Provider, stopped}
use llm_metrics.Stream.Marks.{IsFresh, FirstAt, observe_all}
use llm_metrics.OpenAi.{usage_completion}
use llm_metrics.OpenAi.Response.{read}
use llm_metrics.OpenAi.Stream.{State, Own, new_own, observe, apply, provider}
use llm_metrics.OpenAi.Stream.Chunks.{calls, observe-Keeps, observe_chunks-FirstAt}
use llm_metrics.OpenAi.Stream.Usage.{Reports, IsPart}
use llm_metrics.OpenAi.Stream.Tokens.{counts, stream-response}
use llm_metrics.OpenAi.Create.{reader}

abbrev span : Span
span = record { observation = 0; trace = none; sampled = true; started = pos 0 }

abbrev object_of : List (String × Value) → Value
object_of es = mapping (fields_of es)

abbrev usage : Value
usage = object_of (("prompt_tokens", int (pos 3)) ∷ ("completion_tokens", int (pos 2)) ∷ [])

abbrev hello : Value
hello = object_of (
    (
      "choices",
      sequence
          (items_of (object_of (("delta", object_of (("content", text "hi") ∷ [])) ∷ []) ∷ [])),
    )
    ∷ [])

abbrev last_chunk : Value
last_chunk = object_of (("usage", usage) ∷ [])

abbrev chunks : List (ℤ × Value)
chunks = (pos 1, hello) ∷ (pos 2, last_chunk) ∷ []

abbrev reading : State
reading = new_state new_own span

reading-IsFresh : IsFresh calls (observe duck objects) (observe-Keeps duck objects) reading
unfolding new_state
reading-IsFresh = record { first = refl; text = refl; names = refl }

last_chunk-Reports : Reports duck objects usage last_chunk
unfolding get get_field
last_chunk-Reports = (refl, refl)

last_chunk-IsPart : IsPart duck objects last_chunk
unfolding get get_field
last_chunk-IsPart = refl

usage-reported : get duck last_chunk "usage" ≡ usage
unfolding get get_field
usage-reported = refl

observe_chunks-FirstAt_example :
    IsFresh calls
      (observe duck objects)
      (observe-Keeps duck objects)
      (observe_all (observe duck objects) chunks reading)
    ⊎ FirstAt calls
        (observe duck objects)
        (observe-Keeps duck objects)
        chunks
        reading
        (observe_all (observe duck objects) chunks reading)
observe_chunks-FirstAt_example = observe_chunks-FirstAt duck objects chunks reading reading-IsFresh

stream-response_example :
    let end_state = observe_all (observe duck objects) chunks reading in
    (counts duck objects (apply duck objects end_state observation).1
      ≡ counts duck objects (read duck objects last_chunk end observation).0)
    × (end_state.completion_tokens ≡ usage_completion duck usage)
stream-response_example =
    stream-response duck objects usage ((pos 1, hello) ∷ []) [] (pos 2) last_chunk reading
      observation last_chunk end observation last_chunk-Reports last_chunk-IsPart tt usage-reported

-- a provider's method that answers at once
abbrev answers : Option ℕ → Sdk ℕ → Outcome × Sdk ℕ
answers active s = (returned last_chunk, s)

answers-Silent : (active : Option ℕ) → Silent (answers active)
unfolding Silent
answers-Silent active s u = (refl, u)

-- `create(stream=True)`
abbrev kwargs : Fields
kwargs = fields_of (("model", text "gpt") ∷ ("stream", bool true) ∷ [])

abbrev method : Reader ℕ Own
method = reader duck objects (λ v. 0) "openai.chat.completions"

wrap_call-Passed_example :
    Passed platform objects duck method answers
      (is_some (open_call platform objects duck method kwargs start).0 && asks_stream duck kwargs)
      start
      (wrap_call platform objects duck method answers none kwargs start)
wrap_call-Passed_example = wrap_call-Passed platform objects duck method answers none kwargs start

-- a provider's stream that has ended
abbrev ended : Provider ℕ Own ℕ
ended = record {
  next_chunk = λ n w. (stopped, 0, w);
  enter = λ n w. (n, w);
  exit = λ n w. (n, w);
  close_stream = λ n w. (0, w);
  observe_chunk = λ c now st. st;
  apply = λ st o. (true, o);
  round_ms = λ n. n;
  rate = λ tokens time. tokens;
}

wrap_call-Silent_example :
    let (response, s) = wrap_call platform objects duck method answers none kwargs unsampled in
    (s.runtime ≡ unsampled.runtime)
    × Unsampled s
    × ((end_stream platform objects
          (provider duck objects ended)
          response
          (some boom)
          false
          start).runtime
        ≡ start.runtime)
wrap_call-Silent_example =
    wrap_call-Silent platform objects duck method answers none kwargs answers-Silent unsampled
      unsampled-Unsampled (provider duck objects ended) (some boom) false start
