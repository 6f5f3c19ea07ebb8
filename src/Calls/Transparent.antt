-- ===== src/Calls/Transparent.antt =====
-- The caller of a wrapped provider method (llm_metrics/integrations/openai.py and anthropic.py).
use llm_metrics.Prelude.{
  ℕ, Bool, true, false, Option, none, some, ◌≡◌, refl, ◌&&◌, is_some, Bool-cases, inl, inr, or_else,
}
use llm_metrics.Value.{Value, null, mapping, Fields, Objects}
use llm_metrics.Models.{Observation}
use llm_metrics.Sdk.{Platform, Sdk, put_observation}
use llm_metrics.Duck.{Duck, get, truthy}
use llm_metrics.Decorator.{Span, Outcome, returned, raising}
use llm_metrics.Decorator.Scope.{Before, open_span-Before, finish_span-context}
use llm_metrics.Stream.{TracedStream}
use llm_metrics.Calls.{
  Reader, Response, handed, streaming, raised, open_with, open_call, complete_on, complete,
  after_call, unrecorded, call_within, wrap_call,
}

-- What the caller gets for an outcome of the provider's method: the same exception, or, by whether
-- the call is recorded and asked for a stream, an unfinished proxy around the value, or that very
-- value.
abbrev Matches : {S X : Type 0} → Reader S X → Bool → Outcome → Response S X → Type 0
Matches r proxied (raising e) result = result ≡ raised e
Matches r false (returned v) result = result ≡ handed v
Matches {S} {X} r true (returned v) result =
    (t : TracedStream S X) × (result ≡ streaming t)
    × (t.stream ≡ r.stream_of v)
    × (t.finished ≡ false)

-- `kwargs.get("stream")` holds
abbrev pub asks_stream : Duck → Fields → Bool
asks_stream d kwargs = truthy d (get d (mapping kwargs) "stream")

-- the response to the caller hides a stream that is still to be read
abbrev is_streaming : {S X : Type 0} → Response S X → Bool
is_streaming (streaming t) = true
is_streaming _ = false

module _ {S X W : Type 0} (p : Platform W) (objects : Objects) (d : Duck) (r : Reader S X) where
  -- what the wrapper gives after the provider's method came to the outcome `o`, in state `s`
  record After (proxied : Bool) (o : Outcome) (s : Sdk W) (result : Response S X × Sdk W)
      : Type 0 where
    matches : Matches r proxied o result.0
    context : result.1.context ≡ s.context
    -- a span whose stream is still open is not handed over
    open_ : is_streaming result.0 ≡ true → result.1 ≡ s

  -- one run of the provider's method, and what the caller gets
  pub record Passed (original : Option ℕ → Sdk W → Outcome × Sdk W) (proxied : Bool) (s : Sdk W)
      (result : Response S X × Sdk W) : Type 0 where
    pub entry : Sdk W
    pub active : Option ℕ
    pub runtime : entry.runtime ≡ s.runtime
    pub entered : entry.context ≡ s.context
    pub matches : Matches r proxied (original active entry).0 result.0
    pub context : result.1.context ≡ (original active entry).1.context
    pub open_ : is_streaming result.0 ≡ true → result.1 ≡ (original active entry).1

  open_with-Before :
      (m : Option Fields) (kwargs : Fields) (s : Sdk W)
      → Before p s (open_with p objects d r m kwargs s).1
  unfolding open_with
  open_with-Before none kwargs s = record { context = refl; runtime = refl }
  open_with-Before (some m) kwargs s =
      open_span-Before p r.name "generation" (r.input kwargs) m none none s

  open_call-Before : (kwargs : Fields) (s : Sdk W) → Before p s (open_call p objects d r kwargs s).1
  unfolding open_call
  open_call-Before kwargs s = open_with-Before (r.params kwargs) kwargs s

  unrecorded-Matches : (o : Outcome) → Matches r false o (unrecorded p objects d r o)
  unfolding unrecorded
  unrecorded-Matches (returned v) = refl
  unrecorded-Matches (raising e) = refl

  complete_on-context :
      (o : Option Observation) (span : Span) (v : Value) (kwargs : Fields) (s : Sdk W)
      → (complete_on p objects d r o span v kwargs s).context ≡ s.context
  unfolding complete_on put_observation
  complete_on-context none span v kwargs s = refl
  complete_on-context (some o) span v kwargs s =
      let (o', out) = r.read v kwargs o in
      finish_span-context p objects span (returned (or_else out null)) none false
        (put_observation span.observation o' s)

  after_call-After :
      (o : Outcome) (span : Span) (kwargs : Fields) (s : Sdk W)
      → After (asks_stream d kwargs) o s (after_call p objects d r o span kwargs s)
  unfolding after_call complete
  after_call-After (raising e) span kwargs s = record {
    matches = refl;
    context = finish_span-context p objects span (raising e) none true s;
    open_ = λ h. cc;
  }
  after_call-After (returned v) span kwargs s = elim (Bool-cases (asks_stream d kwargs)) [
    | inl asked ↦
        rw asked (record { matches = (_, refl, refl, refl); context = refl; open_ = λ h. refl })
    | inr plain ↦ rw plain (record {
      matches = refl;
      context = complete_on-context _ span v kwargs s;
      open_ = λ h. cc;
    })
  ]

  call_within-Passed :
      (original : Option ℕ → Sdk W → Outcome × Sdk W) (ambient : Option ℕ) (span : Option Span)
      (kwargs : Fields) (s s' : Sdk W)
      → Before p s s'
      → Passed original
          (is_some span && asks_stream d kwargs)
          s
          (call_within p objects d r original ambient span kwargs s')
  unfolding call_within
  call_within-Passed original ambient none kwargs s s' b =
      let (o, s'') = original ambient s' in
      record {
        entry = s';
        active = ambient;
        runtime = b.runtime;
        entered = b.context;
        matches = unrecorded-Matches o;
        context = refl;
        open_ = λ h. refl;
      }
  call_within-Passed original ambient (some span) kwargs s s' b =
      let (o, s'') = original (some span.observation) s' in
      let a = after_call-After o span kwargs s'' in
      record {
        entry = s';
        active = some span.observation;
        runtime = b.runtime;
        entered = b.context;
        matches = a.matches;
        context = a.context;
        open_ = a.open_;
      }

  -- A wrapped provider method, plain or a coroutine function, gives its caller what one run of
  -- the provider's own method came to, a run that starts with the caller's context and before
  -- anything is handed to the pipeline: the very exception that it raised; an unfinished proxy
  -- around the value that it returned, if a span was opened and the arguments ask for a stream;
  -- and that very value in every other case. The context variables are as the method left them,
  -- and a call that gave a stream hands over nothing and changes nothing after the run.
  pub wrap_call-Passed :
      (original : Option ℕ → Sdk W → Outcome × Sdk W) (ambient : Option ℕ) (kwargs : Fields)
      (s : Sdk W)
      → let opened = is_some (open_call p objects d r kwargs s).0 in
        Passed original
          (opened && asks_stream d kwargs)
          s
          (wrap_call p objects d r original ambient kwargs s)
  unfolding wrap_call
  wrap_call-Passed original ambient kwargs s =
      call_within-Passed original ambient (open_call p objects d r kwargs s).0 kwargs s
        (open_call p objects d r kwargs s).1 (open_call-Before kwargs s)
