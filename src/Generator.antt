-- ===== src/Generator.antt =====
-- `_wrap_gen` and `_wrap_async_gen` of llm_metrics/decorator.py: a decorated generator function, as
-- the generator that its caller holds. An `await` belongs to what the iterator does.
pub mod Context
use llm_metrics.Prelude.{Bool, Option, none, some, List, [], ◌∷◌, ◌++◌, true}
use llm_metrics.Value.{Value, sequence, items_of, Objects}
use llm_metrics.Models.{Exception}
use llm_metrics.Sdk.{Platform, Sdk}
use llm_metrics.Decorator.{Span, Spec, Outcome, returned, raising, begin, activate, finish_span}
use llm_metrics.Stream.{Step, chunk, stopped, failing}

-- what calling the function comes to: its iterator, or an exception
pub data Called (S : Type 0) : Type 0 where
  made : S → Called S
  broken : Exception → Called S

-- The decorated generator function, over a state `S` of its iterator. `dispose` is what closing or
-- dropping the iterator does.
pub record Body (S W : Type 0) : Type 0 where
  pub invoke : Sdk W → Called S × Sdk W
  pub advance : S → Sdk W → (Step × S) × Sdk W
  pub dispose : S → Sdk W → Sdk W
  pub throw_in : S → Exception → Sdk W → (Step × S) × Sdk W

-- the wrapper: not started, inside `yield from`, suspended at `yield chunk` with its `chunks`,
-- ended
pub data Generator (S : Type 0) : Type 0 where
  fresh : Generator S
  bare : S → Generator S
  traced : Span → List Value → S → Generator S
  over : Generator S

-- `yield from`, by what the iterator did
unfoldable pub delegated : {S : Type 0} → Step × S → Step × Generator S
delegated (chunk c, it) = (chunk c, bare it)
delegated (step, it) = (step, over)

-- `async for chunk in func(…): yield chunk`, the loop of `_wrap_async_gen` without a span, passes no
-- exception on to the iterator, as `yield from` does: the iterator is dropped. Otherwise the two
-- wrappers have the same code.
unfoldable pub async_body : {S W : Type 0} → Body S W → Body S W
async_body body = record body { throw_in = λ it e s. ((failing e, it), body.dispose it s) }

-- the outcome of a generator that ended without an exception
abbrev pub produced : List Value → Outcome
produced chunks = returned (sequence (items_of chunks))

module _ {S W : Type 0} (p : Platform W) (objects : Objects) (spec : Spec) (body : Body S W) where
  -- the rest of a round of the loop
  unfoldable pub after_advance : Step → Span → List Value → S → Sdk W → (Step × Generator S) × Sdk W
  unfolding finish_span
  after_advance (chunk c) span chunks it s = ((chunk c, traced span (chunks ++ c ∷ []) it), s)
  after_advance stopped span chunks it s =
      ((stopped, over), finish_span p objects span (produced chunks) spec.capture_output true s)
  after_advance (failing e) span chunks it s =
      ((failing e, over), finish_span p objects span (raising e) spec.capture_output true s)

  -- one round of the loop: the span is active only while the iterator runs
  unfoldable pub round : Span → List Value → S → Sdk W → (Step × Generator S) × Sdk W
  unfolding activate after_advance
  round span chunks it s =
      let ((step, it'), s') = activate span (body.advance it) s in
      after_advance step span chunks it' s'

  unfoldable pub bare_round : S → Sdk W → (Step × Generator S) × Sdk W
  unfolding delegated
  bare_round it s = let (r, s') = body.advance it s in (delegated r, s')

  -- the first steps of the wrapper, by what calling the function came to
  unfoldable pub first_round : Called S → Option Span → Sdk W → (Step × Generator S) × Sdk W
  unfolding round bare_round finish_span
  first_round (broken e) none s = ((failing e, over), s)
  first_round (broken e) (some span) s =
      ((failing e, over), finish_span p objects span (raising e) spec.capture_output true s)
  first_round (made it) none s = bare_round it s
  first_round (made it) (some span) s = round span [] it s

  -- `next`, with the arguments captured as `captured`
  unfoldable pub next : Option Value → Generator S → Sdk W → (Step × Generator S) × Sdk W
  unfolding begin first_round round bare_round
  next captured fresh s =
      let (span, s') = begin p spec captured s in
      let (called, s'') = body.invoke s' in first_round called span s''
  next captured (bare it) s = bare_round it s
  next captured (traced span chunks it) s = round span chunks it s
  next captured over s = ((stopped, over), s)

  -- `close`, which raises `GeneratorExit` where the wrapper is suspended
  unfoldable pub close : Generator S → Sdk W → Generator S × Sdk W
  unfolding finish_span
  close (bare it) s = (over, body.dispose it s)
  close (traced span chunks it) s = (
    over,
    body.dispose it (finish_span p objects span (produced chunks) spec.capture_output true s),
  )
  close _ s = (over, s)

  -- `throw` of any other exception
  unfoldable pub throw : Exception → Generator S → Sdk W → (Step × Generator S) × Sdk W
  unfolding finish_span delegated
  throw e (bare it) s = let (r, s') = body.throw_in it e s in (delegated r, s')
  throw e (traced span chunks it) s = (
    (failing e, over),
    body.dispose it (finish_span p objects span (raising e) spec.capture_output true s),
  )
  throw e _ s = ((failing e, over), s)

module _ {S W : Type 0} (p : Platform W) (objects : Objects) (spec : Spec) (body : Body S W) where
  -- `__anext__`, `aclose` and `athrow` on the wrapper of `_wrap_async_gen`
  unfoldable pub async_next : Option Value → Generator S → Sdk W → (Step × Generator S) × Sdk W
  unfolding next async_body
  async_next = next p objects spec (async_body body)

  unfoldable pub async_close : Generator S → Sdk W → Generator S × Sdk W
  unfolding close async_body
  async_close = close p objects spec (async_body body)

  unfoldable pub async_throw : Exception → Generator S → Sdk W → (Step × Generator S) × Sdk W
  unfolding throw async_body
  async_throw = throw p objects spec (async_body body)
