-- ===== src/Generator/Context.antt =====
-- What the consumer of a decorated generator (llm_metrics/decorator.py) sees: its context variables
-- and the chunks.
use llm_metrics.Prelude.{Option, none, some, List, [], ◌∷◌, ◌++◌, ◌≡◌, refl, ap, ◌∙◌}
use llm_metrics.Value.{Value, Objects}
use llm_metrics.Models.{Exception}
use llm_metrics.Sdk.{Platform, Sdk}
use llm_metrics.Decorator.{Span, Spec, activate, begin, Outcome, finish_span, raising}
use llm_metrics.Decorator.Scope.{
  KeepsContext, activate_in-KeepsContext, finish_span-context, begin-Before,
}
use llm_metrics.Stream.{Step, chunk, stopped, failing}
use llm_metrics.Generator.{
  Called, made, broken, Body, Generator, fresh, bare, traced, over, delegated, after_advance, round,
  bare_round, first_round, next, close, throw, true, produced, async_body, async_next, async_close,
  async_throw,
}

-- the function's own code leaves the context variables as it finds them whenever it is suspended
pub record Tidy {S W : Type 0} (body : Body S W) : Type 0 where
  pub invoke : KeepsContext body.invoke
  pub advance : (it : S) → KeepsContext (body.advance it)
  pub dispose : (it : S) (s : Sdk W) → (body.dispose it s).context ≡ s.context
  pub throw_in : (it : S) (e : Exception) → KeepsContext (body.throw_in it e)

-- what a consumer does with the generator
pub data Call : Type 0 where
  nexts closes : Call
  throws : Exception → Call

-- the chunk that the consumer gets
abbrev got : Step → List Value
got (chunk c) = c ∷ []
got _ = []

-- the chunks that the wrapper has recorded so far, if it still records
abbrev pub recorded : {S : Type 0} → Generator S → List Value → List Value
recorded fresh received = []
recorded (traced span chunks it) received = chunks
recorded _ received = received

module _ {S W : Type 0} (p : Platform W) (objects : Objects) (spec : Spec) (body : Body S W)
    (captured : Option Value) where
  -- one call, and the chunks that the consumer then has
  pub step : Call → List Value × Generator S × Sdk W → List Value × Generator S × Sdk W
  step nexts (received, g, s) =
      let ((r, g'), s') = next p objects spec body captured g s in (received ++ got r, g', s')
  step closes (received, g, s) = let (g', s') = close p objects spec body g s in (received, g', s')
  step (throws e) (received, g, s) =
      let ((r, g'), s') = throw p objects spec body e g s in (received ++ got r, g', s')

  pub consume : List Call → List Value × Generator S × Sdk W → List Value × Generator S × Sdk W
  consume [] r = r
  consume (u ∷ us) r = consume us (step u r)

  -- the context is that of `s`, and what was received is what is recorded
  pub record Clean (s : Sdk W) (received : List Value) (r : Generator S × Sdk W) : Type 0 where
    pub context : r.1.context ≡ s.context
    pub chunks : recorded r.0 received ≡ received

  unfoldable Pulled : Sdk W → List Value → (Step × Generator S) × Sdk W → Type 0
  Pulled s received ((r, g), s') = Clean s (received ++ got r) (g, s')

  closed_context :
      (span : Span) (r : Outcome) (s s' : Sdk W)
      → s'.context ≡ s.context
      → (finish_span p objects span r spec.capture_output true s').context ≡ s.context
  closed_context span r s s' same =
      finish_span-context p objects span r spec.capture_output true s' ∙ same

  recorded-delegated :
      (r : Step × S) (received : List Value) → recorded (delegated r).1 received ≡ received
  unfolding delegated
  recorded-delegated (chunk c, it) received = refl
  recorded-delegated (stopped, it) received = refl
  recorded-delegated (failing e, it) received = refl

  after_advance-Pulled :
      (step : Step) (span : Span) (chunks : List Value) (it : S) (received : List Value)
      (s s' : Sdk W)
      → s'.context ≡ s.context
      → chunks ≡ received
      → Pulled s received (after_advance p objects spec body step span chunks it s')
  unfolding Pulled after_advance
  after_advance-Pulled (chunk c) span chunks it received s s' same all = record {
    context = same;
    chunks = ap (λ cs. cs ++ c ∷ []) all;
  }
  after_advance-Pulled stopped span chunks it received s s' same all = record {
    context = closed_context span (produced chunks) s s' same;
    chunks = refl;
  }
  after_advance-Pulled (failing e) span chunks it received s s' same all = record {
    context = closed_context span (raising e) s s' same;
    chunks = refl;
  }

  module _ (tidy : Tidy body) where
    round-Pulled :
        (span : Span) (chunks : List Value) (it : S) (received : List Value) (s s' : Sdk W)
        → s'.context ≡ s.context
        → chunks ≡ received
        → Pulled s received (round p objects spec body span chunks it s')
    unfolding round activate KeepsContext
    round-Pulled span chunks it received s s' same all =
        let ((step, it'), after) = activate span (body.advance it) s' in
        after_advance-Pulled step span chunks it' received s after
          (activate_in-KeepsContext p span.observation span.trace (body.advance it)
              (tidy.advance it) s'
            ∙ same)
          all

    delegated-Pulled :
        (r : (Step × S) × Sdk W) (received : List Value) (s : Sdk W)
        → r.1.context ≡ s.context
        → Pulled s received (delegated r.0, r.1)
    unfolding Pulled
    delegated-Pulled r received s same = record {
      context = same;
      chunks = recorded-delegated r.0 _;
    }

    bare_round-Pulled :
        (it : S) (received : List Value) (s s' : Sdk W)
        → s'.context ≡ s.context
        → Pulled s received (bare_round p objects spec body it s')
    unfolding bare_round KeepsContext
    bare_round-Pulled it received s s' same =
        delegated-Pulled (body.advance it s') received s (tidy.advance it s' ∙ same)

    first_round-Pulled :
        (called : Called S) (span : Option Span) (received : List Value) (s s' : Sdk W)
        → s'.context ≡ s.context
        → [] ≡ received
        → Pulled s received (first_round p objects spec body called span s')
    unfolding first_round Pulled
    first_round-Pulled (broken e) none received s s' same all = record {
      context = same;
      chunks = refl;
    }
    first_round-Pulled (broken e) (some span) received s s' same all = record {
      context = closed_context span (raising e) s s' same;
      chunks = refl;
    }
    first_round-Pulled (made it) none received s s' same all =
        bare_round-Pulled it received s s' same
    first_round-Pulled (made it) (some span) received s s' same all =
        round-Pulled span [] it received s s' same all

    next-Pulled :
        (g : Generator S) (received : List Value) (s s' : Sdk W)
        → Clean s received (g, s')
        → Pulled s received (next p objects spec body captured g s')
    unfolding next KeepsContext
    next-Pulled fresh received s s' c =
        let (span, begun) = begin p spec captured s' in
        let (called, after) = body.invoke begun in
        first_round-Pulled called span received s after
          (tidy.invoke begun ∙ (begin-Before p spec captured s').context ∙ c.context) c.chunks
    next-Pulled (bare it) received s s' c = bare_round-Pulled it received s s' c.context
    next-Pulled (traced span chunks it) received s s' c =
        round-Pulled span chunks it received s s' c.context c.chunks
    next-Pulled over received s s' c =
        unfold Pulled in record { context = c.context; chunks = refl }

    close-Clean :
        (g : Generator S) (received : List Value) (s s' : Sdk W)
        → Clean s received (g, s')
        → Clean s received (close p objects spec body g s')
    unfolding close
    close-Clean fresh received s s' c = record { context = c.context; chunks = refl }
    close-Clean (bare it) received s s' c = record {
      context = tidy.dispose it s' ∙ c.context;
      chunks = refl;
    }
    close-Clean (traced span chunks it) received s s' c = record {
      context = tidy.dispose it _ ∙ closed_context span (produced chunks) s s' c.context;
      chunks = refl;
    }
    close-Clean over received s s' c = record { context = c.context; chunks = refl }

    throw-Pulled :
        (e : Exception) (g : Generator S) (received : List Value) (s s' : Sdk W)
        → Clean s received (g, s')
        → Pulled s received (throw p objects spec body e g s')
    unfolding throw Pulled KeepsContext
    throw-Pulled e fresh received s s' c = record { context = c.context; chunks = refl }
    throw-Pulled e (bare it) received s s' c =
        delegated-Pulled (body.throw_in it e s') received s (tidy.throw_in it e s' ∙ c.context)
    throw-Pulled e (traced span chunks it) received s s' c = record {
      context = tidy.dispose it _ ∙ closed_context span (raising e) s s' c.context;
      chunks = refl;
    }
    throw-Pulled e over received s s' c = record { context = c.context; chunks = refl }

    step-Clean :
        (u : Call) (s : Sdk W) (r : List Value × Generator S × Sdk W)
        → Clean s r.0 (r.1, r.2)
        → let r' = step u r in Clean s r'.0 (r'.1, r'.2)
    unfolding step Pulled
    step-Clean nexts s (received, g, s') c = next-Pulled g received s s' c
    step-Clean closes s (received, g, s') c = close-Clean g received s s' c
    step-Clean (throws e) s (received, g, s') c = throw-Pulled e g received s s' c

    consume-all :
        (us : List Call) (s : Sdk W) (r : List Value × Generator S × Sdk W)
        → Clean s r.0 (r.1, r.2)
        → let r' = consume us r in Clean s r'.0 (r'.1, r'.2)
    unfolding consume
    consume-all [] s r c = c
    consume-all (u ∷ us) s r c = consume-all us s (step u r) (step-Clean u s r c)

    consume_fresh-Clean :
        (us : List Call) (s : Sdk W) → let r = consume us ([], fresh, s) in Clean s r.0 (r.1, r.2)
    consume_fresh-Clean us s =
        consume-all us s ([], fresh, s) (record { context = refl; chunks = refl })

async_body-Tidy : {S W : Type 0} (body : Body S W) → Tidy body → Tidy (async_body body)
unfolding async_body KeepsContext
async_body-Tidy body tidy = record {
  invoke = tidy.invoke;
  advance = tidy.advance;
  dispose = tidy.dispose;
  throw_in = λ it e s. tidy.dispose it s;
}

module _ {S W : Type 0} (p : Platform W) (objects : Objects) (spec : Spec) (body : Body S W)
    (captured : Option Value) where
  -- one call on the wrapper of an async generator, and the chunks that the consumer then has
  pub async_step : Call → List Value × Generator S × Sdk W → List Value × Generator S × Sdk W
  async_step nexts (received, g, s) =
      let ((r, g'), s') = async_next p objects spec body captured g s in (received ++ got r, g', s')
  async_step closes (received, g, s) =
      let (g', s') = async_close p objects spec body g s in (received, g', s')
  async_step (throws e) (received, g, s) =
      let ((r, g'), s') = async_throw p objects spec body e g s in (received ++ got r, g', s')

  pub async_consume :
      List Call → List Value × Generator S × Sdk W → List Value × Generator S × Sdk W
  async_consume [] r = r
  async_consume (u ∷ us) r = async_consume us (async_step u r)

  async_step-step :
      (u : Call) (r : List Value × Generator S × Sdk W)
      → async_step u r ≡ step p objects spec (async_body body) captured u r
  unfolding async_step step async_next async_close async_throw
  async_step-step nexts (received, g, s) = refl
  async_step-step closes (received, g, s) = refl
  async_step-step (throws e) (received, g, s) = refl

  async_consume-consume :
      (us : List Call) (r : List Value × Generator S × Sdk W)
      → async_consume us r ≡ consume p objects spec (async_body body) captured us r
  unfolding async_consume consume
  async_consume-consume [] r = refl
  async_consume-consume (u ∷ us) r =
      rw (async_step-step u r)
        (async_consume-consume us (step p objects spec (async_body body) captured u r))

  -- If the code of a decorated generator leaves the context variables as it finds them whenever
  -- it is suspended, then whatever its consumer calls on the wrapper, in whatever order, the
  -- consumer's own context is afterwards as it was, and the chunks recorded for the span while
  -- it is open are exactly those that the consumer has received, in order. The same holds of a
  -- decorated async generator.
  pub consume-Clean :
      Tidy body
      → (us : List Call) (s : Sdk W)
      → let r = consume p objects spec body captured us ([], fresh, s) in
        let a = async_consume us ([], fresh, s) in
        Clean p objects spec body captured s r.0 (r.1, r.2)
        × Clean p objects spec body captured s a.0 (a.1, a.2)
  consume-Clean tidy us s = (
    consume_fresh-Clean p objects spec body captured tidy us s,
    (let a : Clean p objects spec (async_body body) captured s _ _ =
          consume_fresh-Clean p objects spec (async_body body) captured (async_body-Tidy body tidy)
            us s in
        rw (async_consume-consume us ([], fresh, s))
          (record { context = a.context; chunks = a.chunks })),
  )
