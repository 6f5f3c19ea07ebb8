-- ===== src/Stream.antt =====
-- llm_metrics/integrations/_stream.py: the state of a streamed response, and the proxy around the
-- provider's stream. The async proxy is the same code with `await`. The provider's stream and the
-- subclass that reads its chunks are the fields of `Provider`, over a state `S` of the stream.
pub mod Settle
pub mod Marks
use llm_metrics.Prelude.{
  ℕ, suc, ◌+◌, String, Bool, true, false, ◌&&◌, not, Option, none, some, List, [], ◌∷◌, ◌⧺◌,
  if◌then◌else◌, first_some, is_some,
}
use llm_metrics.Prelude.Int.{ℤ, pos, ◌-ℤ◌, leb_ℤ}
use llm_metrics.Value.{Value, null, bool, int, float, text, Fields, put_field, Objects}
use llm_metrics.Models.{Exception, Observation}
use llm_metrics.Sdk.{Platform, Sdk, modify_observation, put_observation}
use llm_metrics.Decorator.{Span, Outcome, returned, raising, finish_span}

pub record StreamState (X : Type 0) : Type 0 where
  pub span : Span
  pub chunks : ℕ
  pub text : List String
  pub first_token_at : Option ℤ
  pub ended_at : Option ℤ
  pub completion_tokens : Option ℤ
  -- the fields of the subclass
  pub own : X

-- what `next` of the provider's iterator comes to
pub data Step : Type 0 where
  chunk : Value → Step
  stopped : Step
  failing : Exception → Step

-- Times are nanoseconds. `observe_chunk` and `apply` are `_observe` and `_apply` of the subclass;
-- `apply` also says whether it returned (`true`) or raised. `round_ms` and `rate` are the rounded
-- time to the first token and the rounded tokens per second, in millionths.
pub record Provider (S X W : Type 0) : Type 0 where
  pub next_chunk : S → W → Step × S × W
  pub enter : S → W → S × W
  pub exit : S → W → S × W
  pub close_stream : S → W → S × W
  pub observe_chunk : Value → ℤ → StreamState X → StreamState X
  pub apply : StreamState X → Observation → Bool × Observation
  pub round_ms : ℤ → ℤ
  pub rate : ℤ → ℤ → ℤ

-- `mark_first_token`
unfoldable pub mark_first_token : {X : Type 0} → ℤ → StreamState X → StreamState X
mark_first_token now st = record st { first_token_at = first_some st.first_token_at (some now) }

-- `"".join(texts)`
unfoldable joined : List String → String
joined [] = ""
joined (t ∷ ts) = t ⧺ joined ts

-- `"".join(self.text) if self.text else None`
unfoldable output_of : List String → Value
unfolding joined
output_of [] = null
output_of (t ∷ ts) = text (joined (t ∷ ts))

module _ {S X W : Type 0} (v : Provider S X W) where
  -- the output rate, for a known count of tokens
  unfoldable pub put_rate : Option ℤ → ℤ → Fields → Fields
  put_rate none generating fs = fs
  put_rate (some tokens) generating fs =
      if not (leb_ℤ tokens (pos 0)) && not (leb_ℤ generating (pos 0))
      then put_field "output_tokens_per_second" (float (v.rate tokens generating)) fs
      else fs

  -- the timing of a stream whose first token came at the given time
  unfoldable put_timing : StreamState X → Option ℤ → ℤ → Fields → Fields
  unfolding put_rate
  put_timing st none ended fs = fs
  put_timing st (some first) ended fs =
      put_rate st.completion_tokens (ended -ℤ first)
        (put_field "time_to_first_token_ms" (float (v.round_ms (first -ℤ st.span.started))) fs)

  -- the metadata that `finish` writes
  unfoldable stream_metadata : StreamState X → Bool → ℤ → Fields → Fields
  unfolding put_timing
  stream_metadata st completed ended fs = put_timing st st.first_token_at ended (
      put_field "stream_completed" (bool completed)
        (put_field "stream_chunks" (int (pos st.chunks)) fs))

  -- the observation after the `try` block of `finish`, and the output that it computed
  unfoldable pub write_up : StreamState X → Bool → ℤ → Observation → Observation × Value
  unfolding stream_metadata output_of
  write_up st completed ended o =
      let (fine, o') = v.apply st o in
      if fine
      then (
        record o' { metadata = stream_metadata st completed ended o'.metadata },
        output_of st.text,
      )
      else (o', null)

module _ {S X W : Type 0} (p : Platform W) (objects : Objects) (v : Provider S X W) where
  -- `finish` without an exception, by the span's observation
  unfoldable pub finish_written : StreamState X → Bool → ℤ → Option Observation → Sdk W → Sdk W
  unfolding write_up finish_span
  finish_written st completed ended none s = s
  finish_written st completed ended (some o) s =
      let (o', out) = write_up v st completed ended o in
      finish_span p objects st.span (returned out) none false
        (put_observation st.span.observation o' s)

  -- `StreamState.finish`
  unfoldable pub finish : StreamState X → Option Exception → Bool → Sdk W → Sdk W
  unfolding finish_written
  finish st (some e) completed s = finish_span p objects st.span (raising e) none true s
  finish st none completed s =
      finish_written st completed (p.perf_counter s.world) (s.observations st.span.observation) s

-- the state after `finish`, which sets `ended_at` unless there is an exception
unfoldable stamp : {X : Type 0} → Option Exception → ℤ → StreamState X → StreamState X
stamp none now st = record st { ended_at = some now }
stamp (some e) now st = st

pub record TracedStream (S X : Type 0) : Type 0 where
  pub stream : S
  pub state : StreamState X
  pub finished : Bool

module _ {S X W : Type 0} (p : Platform W) (objects : Objects) (v : Provider S X W) where
  -- `_settle`, by `_finished`
  unfoldable pub settle_if :
      Bool → Option Exception → Bool → TracedStream S X → Sdk W → TracedStream S X × Sdk W
  unfolding finish stamp
  settle_if true exc completed t s = (t, s)
  settle_if false exc completed t s = (
    record t { finished = true; state = stamp exc (p.perf_counter s.world) t.state },
    finish p objects v t.state exc completed s,
  )

  unfoldable pub settle :
      Option Exception → Bool → TracedStream S X → Sdk W → TracedStream S X × Sdk W
  unfolding settle_if
  settle exc completed t s = settle_if t.finished exc completed t s

  -- `__next__`, by what the iterator did; the chunk is handed on, or the exception raised again
  unfoldable pub after_step : Step → TracedStream S X → Sdk W → TracedStream S X × Sdk W
  unfolding settle
  after_step (chunk c) t s =
      let st = record t.state { chunks = suc t.state.chunks } in
      (record t { state = v.observe_chunk c (p.perf_counter s.world) st }, s)
  after_step stopped t s = settle none true t s
  after_step (failing e) t s = settle (some e) false t s

  unfoldable pub next : TracedStream S X → Sdk W → Step × TracedStream S X × Sdk W
  unfolding after_step
  next t s =
      let (step, stream, world) = v.next_chunk t.stream s.world in
      let (t', s') = after_step step (record t { stream = stream }) (record s { world = world }) in
      (step, t', s')

  -- `__enter__`
  unfoldable pub enter : TracedStream S X → Sdk W → TracedStream S X × Sdk W
  enter t s =
      let (stream, world) = v.enter t.stream s.world in
      (record t { stream = stream }, record s { world = world })

  -- `__exit__`
  unfoldable pub exit : TracedStream S X → Sdk W → TracedStream S X × Sdk W
  unfolding settle
  exit t s =
      let (t', s') = settle none false t s in
      let (stream, world) = v.exit t'.stream s'.world in
      (record t' { stream = stream }, record s' { world = world })

  -- `close`
  unfoldable pub close : TracedStream S X → Sdk W → TracedStream S X × Sdk W
  unfolding settle
  close t s =
      let (t', s') = settle none false t s in
      let (stream, world) = v.close_stream t'.stream s'.world in
      (record t' { stream = stream }, record s' { world = world })
