-- ===== src/Examples/Tracing.antt =====
-- A decorated call, a call that is not sampled, annotations, and a stream.
use llm_metrics.Prelude.{zero, suc, List, ◌∷◌, ℕ, ◌≡◌, refl, true, false, none, some, [], ◌∷◌}
use llm_metrics.Prelude.Int.{pos}
use llm_metrics.Stream.{Provider, TracedStream, chunk, stopped}
use llm_metrics.Stream.Settle.{Use, nexts, enters, exits, closes, Once, run, run-Once}
use llm_metrics.Value.{null, int, end}
use llm_metrics.Models.{Exception}
use llm_metrics.Context.{outside}
use llm_metrics.Runtime.{unset, one}
use llm_metrics.Sdk.{Platform, Sdk}
use llm_metrics.Decorator.{Span, Spec, Outcome, raising, wrap_sync}
use llm_metrics.Decorator.Scope.{KeepsContext, Ran, wrap_sync-Ran, wrap_sync-KeepsContext}
use llm_metrics.Decorator.Silence.{Unsampled, Silent, wrap_sync-Silent}
use llm_metrics.Annotate.{TraceUpdate, ScoreCall}
use llm_metrics.Annotate.Silence.{updates_trace, scores, annotating, annotating-Silent}
use llm_metrics.Examples.Sending.{objects, trace, noon}

abbrev pub platform : Platform ℕ
platform = record {
  new_id = λ n. "id";
  utcnow = λ w. noon;
  perf_counter = λ w. pos w;
  draw_below = λ rate w. (false, w);
}

abbrev pub start : Sdk ℕ
start = record {
  runtime = record {
    settings = record {
      enabled = true;
      capture_input = true;
      capture_output = true;
      max_value_chars = 2000;
      environment = none;
      release = none;
      sample_rate = one;
      redact = none;
    };
    buffer = none;
    client = none;
    overridden = false;
    next = 0;
    calls = [];
  };
  context = outside;
  traces = λ t. none;
  observations = λ o. none;
  next = 1;
  world = 0;
}

-- inside a trace that was not sampled
abbrev pub unsampled : Sdk ℕ
unsampled = record start {
  context = record { trace = some 0; parent_id = none; observation = none };
  traces = λ t. some (record trace { sampled = false });
}

abbrev pub spec : Spec
spec = record {
  name = "f";
  as_type = "span";
  capture_input = none;
  capture_output = none;
  metadata = end;
}

abbrev pub boom : Exception
boom = record { type_name = "ValueError"; message = some "boom" }

-- a function that raises
abbrev raiser : Sdk ℕ → Outcome × Sdk ℕ
raiser s = (raising boom, s)

wrap_sync-Ran_example :
    Ran platform raiser start (wrap_sync platform objects spec (some null) raiser start)
wrap_sync-Ran_example = wrap_sync-Ran platform objects spec (some null) raiser start

raiser-KeepsContext : KeepsContext raiser
unfolding KeepsContext
raiser-KeepsContext s = refl

wrap_sync-KeepsContext_example :
    (wrap_sync platform objects spec (some null) raiser start).1.context ≡ outside
wrap_sync-KeepsContext_example =
    wrap_sync-KeepsContext platform objects spec (some null) raiser raiser-KeepsContext start

-- the span of a new root trace
abbrev root_span : Span
root_span = record { observation = 2; trace = some 1; sampled = true; started = pos 0 }

raiser-Silent : Silent raiser
unfolding Silent
raiser-Silent s u = (refl, u)

pub unsampled-Unsampled : Unsampled unsampled
unsampled-Unsampled = record {
  address = 0;
  trace = record trace { sampled = false };
  current = refl;
  alive = refl;
  off = refl;
}

wrap_sync-Silent_example :
    let (outcome, s) = wrap_sync platform objects spec (some null) raiser unsampled in
    (s.runtime ≡ unsampled.runtime) × Unsampled s
wrap_sync-Silent_example =
    wrap_sync-Silent platform objects spec (some null) raiser raiser-Silent unsampled
      unsampled-Unsampled

abbrev thumbs : ScoreCall
thumbs = record {
  name = "thumbs";
  value = int (pos 1);
  trace_id = none;
  observation_id = none;
  comment = none;
  source = "human";
  metadata = [];
}

abbrev titled : TraceUpdate
titled = record {
  name = some "chat";
  user_id = unset;
  session_id = unset;
  tags = "a" ∷ [];
  metadata = [];
}

annotating-Silent_example :
    let (outcome, s) =
      wrap_sync platform objects spec
        (some null)
        (annotating platform (updates_trace titled ∷ scores thumbs ∷ []) (raising boom))
        unsampled in
    (s.runtime ≡ unsampled.runtime) × Unsampled s
annotating-Silent_example =
    annotating-Silent platform objects spec (some null) (updates_trace titled ∷ scores thumbs ∷ [])
      (raising boom) unsampled (tt, ((refl, refl), tt)) unsampled-Unsampled

-- a stream of the given number of chunks
abbrev countdown : Provider ℕ ℕ ℕ
countdown = record {
  next_chunk = λ n w. elim n [ zero ↦ (stopped, 0, w) | suc m ↦ (chunk (int (pos m)), m, w) ];
  enter = λ n w. (n, w);
  exit = λ n w. (n, w);
  close_stream = λ n w. (0, w);
  observe_chunk = λ c now st. st;
  apply = λ st o. (true, o);
  round_ms = λ n. n;
  rate = λ tokens time. tokens;
}

abbrev one_chunk : TracedStream ℕ ℕ
one_chunk = record {
  stream = 1;
  state = record {
    span = record { observation = 5; trace = none; sampled = true; started = pos 0 };
    chunks = 0;
    text = [];
    first_token_at = none;
    ended_at = none;
    completion_tokens = none;
    own = 0;
  };
  finished = false;
}

abbrev uses : List Use
uses = enters ∷ nexts ∷ nexts ∷ closes ∷ exits ∷ []

run-Once_example :
    Once platform objects countdown start (run platform objects countdown uses (one_chunk, start))
run-Once_example = run-Once platform objects countdown uses one_chunk start refl
