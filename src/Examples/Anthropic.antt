-- ===== src/Examples/Anthropic.antt =====
-- Messages and streams of a wrapped Anthropic client.
use llm_metrics.Prelude.{ℕ, String, ◌≡◌, refl, true, false, none, some, List, [], ◌∷◌, ◌⊎◌}
use llm_metrics.Prelude.Int.{ℤ, pos}
use llm_metrics.Value.{Value, null, int, text, mapping, fields_of, end}
use llm_metrics.Models.Wire.{get_field}
use llm_metrics.Decorator.{Span, returned}
use llm_metrics.Duck.{get, is_null, strict_int}
use llm_metrics.Calls.{new_state}
use llm_metrics.Stream.Marks.{IsFresh, FirstAt, observe_all}
use llm_metrics.Anthropic.{read}
use llm_metrics.Anthropic.Stream.{State, new_own, observe, apply}
use llm_metrics.Anthropic.Stream.Events.{calls, observe-Keeps, observe_events-FirstAt}
use llm_metrics.Anthropic.Stream.Usage.{event_usage, last_reported}
use llm_metrics.Anthropic.Stream.Tokens.{counts, Adds, stream-message}
use llm_metrics.Anthropic.Manager.{StreamManager, TracedStreamManager}
use llm_metrics.Anthropic.Manager.Once.{Use, enters, exits, Once, run_uses, run_uses-Once}
use llm_metrics.Examples.Sending.{objects, observation}
use llm_metrics.Examples.LangChain.{duck}
use llm_metrics.Examples.Tracing.{platform, start, boom}

abbrev span : Span
span = record { observation = 0; trace = none; sampled = true; started = pos 0 }

abbrev object_of : List (String × Value) → Value
object_of es = mapping (fields_of es)

abbrev begun : Value
begun = object_of (
    ("type", text "message_start")
    ∷ ("message", object_of (("usage", object_of (("input_tokens", int (pos 3)) ∷ [])) ∷ []))
    ∷ [])

abbrev ending : Value
ending = object_of (
    ("type", text "message_delta")
    ∷ ("usage", object_of (("output_tokens", int (pos 2)) ∷ []))
    ∷ [])

abbrev events : List (ℤ × Value)
events = (pos 1, begun) ∷ (pos 2, ending) ∷ []

abbrev message : Value
message = object_of (
    ("usage", object_of (("input_tokens", int (pos 3)) ∷ ("output_tokens", int (pos 2)) ∷ [])) ∷ [])

abbrev reading : State
reading = new_state new_own span

reading-IsFresh : IsFresh calls (observe duck objects) (observe-Keeps duck objects) reading
unfolding new_state
reading-IsFresh = record { first = refl; text = refl; names = refl }

observe_events-FirstAt_example :
    IsFresh calls
      (observe duck objects)
      (observe-Keeps duck objects)
      (observe_all (observe duck objects) events reading)
    ⊎ FirstAt calls
        (observe duck objects)
        (observe-Keeps duck objects)
        events
        reading
        (observe_all (observe duck objects) events reading)
observe_events-FirstAt_example = observe_events-FirstAt duck objects events reading reading-IsFresh

reading-usage : reading.own.usage ≡ end
unfolding new_state
reading-usage = refl

message-usage : is_null (get duck message "usage") ≡ false
unfolding get get_field
message-usage = refl

message-Adds : Adds duck objects (get duck message "usage") events
unfolding get get_field last_reported event_usage strict_int
message-Adds = (refl, (refl, (refl, (refl, tt))))

stream-message_example :
    counts duck objects
      (apply duck objects (observe_all (observe duck objects) events reading) observation).1
    ≡ counts duck objects (read duck objects message end observation).0
stream-message_example =
    stream-message duck objects events reading message end observation reading-usage message-usage
      message-Adds

-- a manager of a stream that is its own snapshot
abbrev manager : StreamManager ℕ
manager = record {
  enter = λ active s. (returned message, s);
  exit = λ exc s. s;
  snapshot = λ v s. v;
}

abbrev traced_manager : TracedStreamManager ℕ
traced_manager = record { manager = manager; span = span; stream = null; finished = false }

abbrev uses : List Use
uses = enters ∷ exits none ∷ exits (some boom) ∷ []

run_uses-Once_example :
    Once platform objects duck traced_manager uses start
      (run_uses platform objects duck uses (traced_manager, start))
run_uses-Once_example = run_uses-Once platform objects duck uses traced_manager start refl
