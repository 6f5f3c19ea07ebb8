-- ===== src/Lib.antt =====
-- llm-metrics is a Python SDK that records what an application does with language models. This
-- library models its core and proves what makes it correct.
--
-- The parts and how they work together. A decorated function (llm_metrics/decorator.py), a wrapped
-- method of an OpenAI or Anthropic client (llm_metrics/integrations/openai.py, anthropic.py) or a
-- LangChain callback (llm_metrics/integrations/langchain.py) opens a span under the trace in the
-- context variables (llm_metrics/context.py), runs, and closes the span. A response that is a
-- stream is handed to the caller in a proxy, which reads its chunks and closes the span at its end
-- (llm_metrics/integrations/_stream.py). While a provider's method runs, a hook on the HTTP client
-- writes headers into the observation (llm_metrics/integrations/_transport.py); code inside a span
-- may annotate it and its trace (llm_metrics/annotate.py). The finished objects
-- (llm_metrics/models.py) go to the default pipeline (llm_metrics/_runtime.py): one bounded buffer
-- with a flush thread (llm_metrics/buffer.py), which hands batches to one HTTP client
-- (llm_metrics/client.py). All of it is bounded by a deadline that shutdown arms.
--
-- Which file models which part.
--   Prelude: shared names, Boolean tests, lists, texts and integers.
--   Value: the Python values that are captured or sent. Floats are whole millionths.
--   Capture: `_summarise`, `summarise`, `_clip`, `_safe_repr` and `redact` of decorator.py.
--     Recursion is on the value; `repr` and `str` of the host's objects are parameters that may
--     raise.
--   Deadline: `Deadline` of buffer.py, in whole microseconds; the clock's reading is an argument.
--   Buffer: `EventBuffer` of buffer.py, one operation at a time. `Host` holds the clock, `to_dict`
--     and the flush target. The loop of `_drain` runs on fuel; more fuel than there are queued
--     events is enough, as each round but the last takes an event off the queue. Buffer.Threads is
--     the same state under any threads in any interleaving, as a step relation.
--   Client: `IngestClient` of client.py. `Net` holds the network, the clock, the random source,
--     JSON and `float`. The attempts are counted down, as in the source.
--   Models: the event classes of models.py and their payloads. `isoformat` is a parameter.
--   Context: the three context variables of context.py.
--   Runtime: the settings and the pipeline of _runtime.py. Buffers and clients are addresses, and
--     what is done to them is a list of calls. Runtime.Environment: the settings that environment
--     variables give at the start.
--   Sdk: the state that the decorator works on; live traces and observations are in a store, as the
--     source mutates them in place and emits the object itself.
--   Decorator: spans and the wrapper of a plain function of decorator.py. A decorated function is a
--     function of the state that returns a value or raises. Decorator.Observe: what `observe`
--     decides about a function and how arguments are captured; binding to a signature is a
--     parameter.
--   Generator: `_wrap_gen` and `_wrap_async_gen` of decorator.py, as the generator that the
--     consumer calls `next`, `close` and `throw` on; the decorated generator is the record `Body`.
--   Annotate: `update_trace`, `update_observation` and `score` of annotate.py.
--   Stream: `StreamState` and `TracedStream` of integrations/_stream.py. The provider's stream and
--     its reading of a chunk are the fields of `Provider`.
--   Stats: `Stats` and `stats` of _runtime.py.
--   Duck: how the modules under integrations read the objects of other packages: `_get`, truth
--     tests, `len`, iteration, `_plain`. What the objects do is the record `Duck`.
--   Raising: code that changes a state and may stop with an exception, as the body of a `try`.
--   Transport: integrations/_transport.py. `Numbers` is Python's reading of numbers.
--   Patch: how `wrap_openai` and `wrap_anthropic` replace the methods of a client.
--   Calls: the wrapped call that openai.py and anthropic.py share, over the record `Reader`.
--   OpenAi: integrations/openai.py: requests and usage; OpenAi.Response: whole responses;
--     OpenAi.Stream: chunks and events; OpenAi.Create: the wrappers.
--   Anthropic: integrations/anthropic.py: requests, usage and messages; Anthropic.Stream: events;
--     Anthropic.Create: the wrappers; Anthropic.Manager: the traced stream manager.
--   LangChain: `LlmMetricsTracer` of integrations/langchain.py: the bounded map of open runs;
--     LangChain.Extract: what it reads of LangChain's objects; LangChain.Hooks: the callbacks.
--   Examples: each theorem at a concrete input.
--
-- Not modelled: an asynchronous wrapper has no model of its own where it is the synchronous code
-- with `await`; `_copy_identity`, which copies names and docstrings; the text of the request
-- headers and the debug output of the HTTP client; a flush target that calls back into the buffer
-- that it is flushed from; the package surface, which only re-exports, and the scripts, which only
-- do file and network I/O.
pub mod Prelude
pub mod Value
pub mod Capture
pub mod Deadline
pub mod Buffer
pub mod Client
pub mod Models
pub mod Context
pub mod Runtime
pub mod Sdk
pub mod Decorator
pub mod Annotate
pub mod Stats
pub mod Stream
pub mod Duck
pub mod LangChain
pub mod Examples
pub mod Generator
pub mod Calls
pub mod Transport
pub mod Patch
pub mod Raising
pub mod OpenAi
pub mod Anthropic
