-- ===== src/Calls.antt =====
-- The wrapped call of llm_metrics/integrations/openai.py and of anthropic.py, which differ in how
-- they read arguments and responses: that is the record `Reader`. The async wrapper is the same
-- code with `await`. The provider's method is a function of the observation that its HTTP hook
-- writes to (the context variable of _transport.py).
pub mod Transparent
pub mod Silence
use llm_metrics.Prelude.{ℕ, String, false, Option, none, some, [], or_else, if◌then◌else◌, true}
use llm_metrics.Prelude.Int.{ℤ}
use llm_metrics.Value.{Value, null, mapping, Fields, Objects}
use llm_metrics.Models.{Exception, Observation}
use llm_metrics.Sdk.{Platform, Sdk, put_observation}
use llm_metrics.Duck.{Duck, get, truthy}
use llm_metrics.Decorator.{Span, Outcome, returned, raising, open_span, finish_span}
use llm_metrics.Stream.{StreamState, TracedStream}
use llm_metrics.Transport.{active}

pub record Reader (S X : Type 0) : Type 0 where
  pub name : String
  -- `_extract_input`, and `_extract_params`, which may raise
  pub input : Fields → Value
  pub params : Fields → Option Fields
  -- the `try` block of `_complete` on the observation, and its output unless it raised
  pub read : Value → Fields → Observation → Observation × Option Value
  -- the subclass's own fields of a new stream state, and a response as a stream
  pub own : X
  pub stream_of : Value → S

-- what a wrapped call gives its caller
pub data Response (S X : Type 0) : Type 0 where
  handed : Value → Response S X
  streaming : TracedStream S X → Response S X
  raised : Exception → Response S X

-- a new `StreamState`
unfoldable pub new_state : {X : Type 0} → X → Span → StreamState X
new_state own span = record {
  span = span;
  chunks = 0;
  text = [];
  first_token_at = none;
  ended_at = none;
  completion_tokens = none;
  own = own;
}

module _ {S X W : Type 0} (p : Platform W) (objects : Objects) (d : Duck) (r : Reader S X) where
  -- `_open`, by the metadata
  unfoldable pub open_with : Option Fields → Fields → Sdk W → Option Span × Sdk W
  unfolding open_span
  open_with none kwargs s = (none, s)
  open_with (some metadata) kwargs s =
      open_span p r.name "generation" (r.input kwargs) metadata none none s

  unfoldable pub open_call : Fields → Sdk W → Option Span × Sdk W
  unfolding open_with
  open_call kwargs s = open_with (r.params kwargs) kwargs s

  -- `_complete`, by the span's observation
  unfoldable pub complete_on : Option Observation → Span → Value → Fields → Sdk W → Sdk W
  unfolding finish_span put_observation
  complete_on none span response kwargs s = s
  complete_on (some o) span response kwargs s =
      let (o', out) = r.read response kwargs o in
      finish_span p objects span (returned (or_else out null)) none false
        (put_observation span.observation o' s)

  unfoldable pub complete : Span → Value → Fields → Sdk W → Sdk W
  unfolding complete_on
  complete span response kwargs s =
      complete_on (s.observations span.observation) span response kwargs s

  -- the wrapper after the call, by its outcome
  unfoldable pub after_call : Outcome → Span → Fields → Sdk W → Response S X × Sdk W
  unfolding complete finish_span get truthy new_state
  after_call (raising e) span kwargs s =
      (raised e, finish_span p objects span (raising e) none true s)
  after_call (returned v) span kwargs s =
      if truthy d (get d (mapping kwargs) "stream")
      then (
        streaming
            (record { stream = r.stream_of v; state = new_state r.own span; finished = false }),
        s,
      )
      else (handed v, complete span v kwargs s)

  -- the outcome of a call that is not recorded
  unfoldable pub unrecorded : Outcome → Response S X
  unrecorded (returned v) = handed v
  unrecorded (raising e) = raised e

  -- the call, by the span; `ambient` is the observation that the HTTP hook writes to outside
  unfoldable pub call_within :
      (Option ℕ → Sdk W → Outcome × Sdk W)
      → Option ℕ
      → Option Span
      → Fields
      → Sdk W
      → Response S X × Sdk W
  unfolding active after_call unrecorded
  call_within original ambient none kwargs s =
      let (o, s') = original ambient s in (unrecorded o, s')
  call_within original ambient (some span) kwargs s =
      let (o, s') = active span.observation original s in after_call o span kwargs s'

  -- `_sync_wrapper` and `_sync_create`
  unfoldable pub wrap_call :
      (Option ℕ → Sdk W → Outcome × Sdk W) → Option ℕ → Fields → Sdk W → Response S X × Sdk W
  unfolding open_call call_within
  wrap_call original ambient kwargs s =
      let (span, s') = open_call kwargs s in call_within original ambient span kwargs s'
