-- ===== src/Calls/Silence.antt =====
-- Wrapped provider calls (llm_metrics/integrations/openai.py and anthropic.py) under a trace that
-- was not sampled.
use llm_metrics.Prelude.{ℕ, Bool, true, false, Option, none, some, ◌≡◌, refl, ◌∙◌, or_else}
use llm_metrics.Value.{Value, null, mapping, Fields, Objects}
use llm_metrics.Models.{Observation, Exception}
use llm_metrics.Sdk.{Platform, Sdk, put_observation}
use llm_metrics.Duck.{Duck, get, truthy}
use llm_metrics.Decorator.{Span, Outcome, returned, raising}
use llm_metrics.Decorator.Scope.{Same, Same-trans, if-both}
use llm_metrics.Decorator.Silence.{
  QuietSpan, Unsampled, Silent, Same-Unsampled, Quiet, unopened, open_span-Quiet, finish_span-Same,
}
use llm_metrics.Stream.{Provider, StreamState, finish, finish_written, write_up}
use llm_metrics.Calls.{
  Reader, Response, streaming, open_with, open_call, complete_on, complete, after_call, unrecorded,
  call_within, wrap_call,
}

-- the proxy of a streaming response, if there is one, holds a span that hands nothing over
unfoldable QuietResponse : {S X : Type 0} → Response S X → Type 0
unfolding QuietSpan
QuietResponse (streaming t) = QuietSpan (some t.state.span)
QuietResponse _ = Unit

put_observation-Same :
    {W : Type 0} (o : ℕ) (v : Observation) (s : Sdk W) → Same s (put_observation o v s)
unfolding put_observation
put_observation-Same o v s = record { context = refl; runtime = refl; traces = refl }

Same-refl : {W : Type 0} (s : Sdk W) → Same s s
Same-refl s = record { context = refl; runtime = refl; traces = refl }

module _ {S X W : Type 0} (p : Platform W) (objects : Objects) (v : Provider S X W) where
  finish_written-Same :
      (st : StreamState X) (completed : Bool) (ended : _) (o : Option Observation) (s : Sdk W)
      → QuietSpan (some st.span)
      → Same s (finish_written p objects v st completed ended o s)
  unfolding finish_written
  finish_written-Same st completed ended none s q = Same-refl s
  finish_written-Same st completed ended (some o) s q =
      let (o', out) = write_up v st completed ended o in
      Same-trans (put_observation-Same st.span.observation o' s)
        (finish_span-Same p objects st.span (returned out) none false _ q)

  -- the end of a stream whose span is quiet
  finish-Same :
      (st : StreamState X) (exc : Option Exception) (completed : Bool) (s : Sdk W)
      → QuietSpan (some st.span)
      → Same s (finish p objects v st exc completed s)
  unfolding finish
  finish-Same st (some e) completed s q =
      finish_span-Same p objects st.span (raising e) none true s q
  finish-Same st none completed s q =
      finish_written-Same st completed (p.perf_counter s.world) (s.observations st.span.observation)
        s q

  -- the end of the stream that a response hides, if it hides one
  pub end_stream : Response S X → Option Exception → Bool → Sdk W → Sdk W
  end_stream (streaming t) exc completed s = finish p objects v t.state exc completed s
  end_stream _ exc completed s = s

  end_stream-runtime :
      (response : Response S X) (exc : Option Exception) (completed : Bool) (s : Sdk W)
      → QuietResponse response
      → (end_stream response exc completed s).runtime ≡ s.runtime
  unfolding end_stream QuietResponse
  end_stream-runtime (streaming t) exc completed s q =
      (finish-Same t.state exc completed s q).runtime
  end_stream-runtime _ exc completed s q = refl

module _ {S X W : Type 0} (p : Platform W) (objects : Objects) (d : Duck) (r : Reader S X) where
  open_with-Quiet :
      (m : Option Fields) (kwargs : Fields) (s : Sdk W)
      → Unsampled s
      → Quiet s (open_with p objects d r m kwargs s)
  unfolding open_with
  open_with-Quiet none kwargs s u = unopened s
  open_with-Quiet (some m) kwargs s u =
      open_span-Quiet p r.name "generation" (r.input kwargs) m none s u

  complete_on-Same :
      (o : Option Observation) (span : Span) (v : Value) (kwargs : Fields) (s : Sdk W)
      → QuietSpan (some span)
      → Same s (complete_on p objects d r o span v kwargs s)
  unfolding complete_on
  complete_on-Same none span v kwargs s q = Same-refl s
  complete_on-Same (some o) span v kwargs s q =
      let (o', out) = r.read v kwargs o in
      Same-trans (put_observation-Same span.observation o' s)
        (finish_span-Same p objects span (returned (or_else out null)) none false _ q)

  -- nothing but observations changed, and what is still open is quiet
  record Kept (s : Sdk W) (result : Response S X × Sdk W) : Type 0 where
    same : Same s result.1
    open_ : QuietResponse result.0

  after_call-Kept :
      (o : Outcome) (span : Span) (kwargs : Fields) (s : Sdk W)
      → QuietSpan (some span)
      → Kept s (after_call p objects d r o span kwargs s)
  unfolding after_call complete QuietResponse
  after_call-Kept (raising e) span kwargs s q = record {
    same = finish_span-Same p objects span (raising e) none true s q;
    open_ = tt;
  }
  after_call-Kept (returned v) span kwargs s q =
      if-both (Kept s) (truthy d (get d (mapping kwargs) "stream"))
        (record { same = Same-refl s; open_ = q })
        (record {
          same = complete_on-Same (s.observations span.observation) span v kwargs s q;
          open_ = tt;
        })

  unrecorded-Quiet : (o : Outcome) → QuietResponse (unrecorded p objects d r o)
  unfolding unrecorded QuietResponse
  unrecorded-Quiet (returned v) = tt
  unrecorded-Quiet (raising e) = tt

  call_within-Silent :
      (original : Option ℕ → Sdk W → Outcome × Sdk W) (ambient : Option ℕ) (span : Option Span)
      (kwargs : Fields) (s : Sdk W)
      → ((active : Option ℕ) → Silent (original active))
      → QuietSpan span
      → Unsampled s
      → let (response, s') = call_within p objects d r original ambient span kwargs s in
        (s'.runtime ≡ s.runtime) × Unsampled s' × QuietResponse response
  unfolding call_within Silent
  call_within-Silent original ambient none kwargs s silent q u =
      let (kept, after) = silent ambient s u in
      (kept, after, unrecorded-Quiet (original ambient s).0)
  call_within-Silent original ambient (some span) kwargs s silent q u =
      let (kept, after) = silent (some span.observation) s u in
      let (o, s') = original (some span.observation) s in
      let k = after_call-Kept o span kwargs s' q in
      (k.same.runtime ∙ kept, Same-Unsampled k.same after, k.open_)

  -- Sampling covers provider calls. If the provider's method hands nothing to the pipeline while
  -- an unsampled trace is current, and leaves such a trace current, then a wrapped call of it
  -- under an unsampled trace does the same, and when it gives a stream, the end of that stream,
  -- whenever and however it comes, hands nothing over either.
  pub wrap_call-Silent :
      (original : Option ℕ → Sdk W → Outcome × Sdk W) (ambient : Option ℕ) (kwargs : Fields)
      → ((active : Option ℕ) → Silent (original active))
      → (s : Sdk W) → Unsampled s
      → (v : Provider S X W) (exc : Option Exception) (completed : Bool) (later : Sdk W)
      → let (response, s') = wrap_call p objects d r original ambient kwargs s in
        (s'.runtime ≡ s.runtime)
        × Unsampled s'
        × ((end_stream p objects v response exc completed later).runtime ≡ later.runtime)
  unfolding wrap_call open_call
  wrap_call-Silent original ambient kwargs silent s u v exc completed later =
      let opened = open_with-Quiet (r.params kwargs) kwargs s u in
      let (span, s') = open_with p objects d r (r.params kwargs) kwargs s in
      let (kept, after, quiet) =
        call_within-Silent original ambient span kwargs s' silent opened.quiet
          (Same-Unsampled opened.same u) in
      (
        kept ∙ opened.same.runtime,
        after,
        end_stream-runtime p objects v _ exc completed later quiet,
      )
