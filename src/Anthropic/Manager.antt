-- ===== src/Anthropic/Manager.antt =====
-- `messages.stream` of llm_metrics/integrations/anthropic.py: the wrapper, and the proxy around the
-- stream manager that the provider's function gives. The asynchronous methods are the same code
-- with `await`.
pub mod Once
use llm_metrics.Prelude.{ℕ, Bool, true, false, Option, none, some, if◌then◌else◌}
use llm_metrics.Value.{Value, null, bool, Fields, end, put_field, Objects}
use llm_metrics.Models.{Exception}
use llm_metrics.Sdk.{Platform, Sdk}
use llm_metrics.Duck.{Duck}
use llm_metrics.Decorator.{Span, Outcome, returned, raising, finish_span}
use llm_metrics.Transport.{active}
use llm_metrics.Anthropic.Create.{open_, complete_call}

-- The provider's manager. `enter` gives its stream, or raises; the HTTP hook writes to the given
-- observation meanwhile. `snapshot` is `current_message_snapshot` of the stream, `None` where it
-- is missing or raises.
pub record StreamManager (W : Type 0) : Type 0 where
  pub enter : Option ℕ → Sdk W → Outcome × Sdk W
  pub exit : Option Exception → Sdk W → Sdk W
  pub snapshot : Value → Sdk W → Value

pub record TracedStreamManager (W : Type 0) : Type 0 where
  pub manager : StreamManager W
  pub span : Span
  pub stream : Value
  pub finished : Bool

-- what the provider's function, or the wrapper, comes to
data Opened (A : Type 0) : Type 0 where
  gave : A → Opened A
  failed : Exception → Opened A

pub data Handed (W : Type 0) : Type 0 where
  untraced : StreamManager W → Handed W
  traced : TracedStreamManager W → Handed W

module _ {W : Type 0} (p : Platform W) (objects : Objects) (d : Duck) where
  -- `_settle` past its guard
  unfoldable pub settled : StreamManager W → Span → Value → Option Exception → Sdk W → Sdk W
  unfolding finish_span complete_call
  settled m span stream (some e) s = finish_span p objects span (raising e) none true s
  settled m span stream none s = complete_call d objects (λ v. v) p span (m.snapshot stream s) end s

  unfoldable pub settle_if :
      Bool → Option Exception → TracedStreamManager W → Sdk W → TracedStreamManager W × Sdk W
  unfolding settled
  settle_if true exc t s = (t, s)
  settle_if false exc t s = (record t { finished = true }, settled t.manager t.span t.stream exc s)

  -- `_settle`
  unfoldable pub settle :
      Option Exception → TracedStreamManager W → Sdk W → TracedStreamManager W × Sdk W
  unfolding settle_if
  settle exc t s = settle_if t.finished exc t s

  -- `__enter__` and `__aenter__`, by what the manager's own came to
  unfoldable pub after_enter :
      Outcome → TracedStreamManager W → Sdk W → TracedStreamManager W × Sdk W
  unfolding settle
  after_enter (raising e) t s = settle (some e) t s
  after_enter (returned v) t s = (record t { stream = v }, s)

  unfoldable pub enter : TracedStreamManager W → Sdk W → TracedStreamManager W × Sdk W
  unfolding active after_enter
  enter t s = let (o, s') = active t.span.observation t.manager.enter s in after_enter o t s'

  -- `__exit__` and `__aexit__`
  unfoldable pub exit :
      Option Exception → TracedStreamManager W → Sdk W → TracedStreamManager W × Sdk W
  unfolding settle
  exit exc t s = let (t', s') = settle exc t s in (t', t'.manager.exit exc s')

  -- the manager that the wrapper gives, by the span
  unfoldable pub around : Option Span → StreamManager W → Handed W
  around none m = untraced m
  around (some span) m =
      traced (record { manager = m; span = span; stream = null; finished = false })

  unfoldable hand_over : Option Span → Opened (StreamManager W) × Sdk W → Opened (Handed W) × Sdk W
  unfolding around
  hand_over span (gave m, s) = (gave (around span m), s)
  hand_over span (failed e, s) = (failed e, s)

  -- the wrapper of `_stream_manager_wrapper`
  unfoldable stream_wrapper :
      (Sdk W → Opened (StreamManager W) × Sdk W) → Fields → Sdk W → Opened (Handed W) × Sdk W
  unfolding open_ hand_over
  stream_wrapper original kwargs s =
      let (span, s') = open_ d objects (λ v. v) p (put_field "stream" (bool true) kwargs) s in
      hand_over span (original s')
