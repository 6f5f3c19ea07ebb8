-- ===== src/Anthropic/Manager/Once.antt =====
-- Runs of calls on a traced stream manager (llm_metrics/integrations/anthropic.py).
use llm_metrics.Prelude.{
  Bool, true, false, Option, some, List, [], ◌∷◌, ◌++◌, ◌≡◌, refl, ap, sym, subst, ◌⊎◌, inl, inr,
}
use llm_metrics.Value.{Value, Objects}
use llm_metrics.Models.{Exception}
use llm_metrics.Sdk.{Platform, Sdk}
use llm_metrics.Duck.{Duck}
use llm_metrics.Decorator.{Outcome, returned, raising}
use llm_metrics.Transport.{active}
use llm_metrics.Anthropic.Manager.{
  TracedStreamManager, settled, settle_if, settle, after_enter, enter, exit,
}

-- a call on the traced manager
pub data Use : Type 0 where
  enters : Use
  exits : Option Exception → Use

module _ {W : Type 0} (p : Platform W) (objects : Objects) (d : Duck) where
  pub step : Use → TracedStreamManager W × Sdk W → TracedStreamManager W × Sdk W
  step enters (t, s) = enter p objects d t s
  step (exits exc) (t, s) = exit p objects d exc t s

  pub run_uses : List Use → TracedStreamManager W × Sdk W → TracedStreamManager W × Sdk W
  run_uses [] r = r
  run_uses (u ∷ us) r = run_uses us (step u r)

  -- what the same calls on the provider's own manager do
  pub bare : TracedStreamManager W → List Use → Sdk W → Sdk W
  bare t [] s = s
  bare t (enters ∷ us) s = bare t us (t.manager.enter (some t.span.observation) s).1
  bare t (exits exc ∷ us) s = bare t us (t.manager.exit exc s)

  -- nothing but what the provider's manager did
  pub record Open (t : TracedStreamManager W) (us : List Use) (s : Sdk W)
      (r : TracedStreamManager W × Sdk W) : Type 0 where
    pub unfinished : r.0.finished ≡ false
    pub bare_only : r.1 ≡ bare t us s

  -- the same, but for one settling of the span between two of those calls
  pub record Closed (t : TracedStreamManager W) (us : List Use) (s : Sdk W)
      (r : TracedStreamManager W × Sdk W) : Type 0 where
    pub finished : r.0.finished ≡ true
    pub before : List Use
    pub after : List Use
    pub split : us ≡ before ++ after
    pub exc : Option Exception
    pub stream : Value
    pub once :
        r.1 ≡ bare t after (settled p objects d t.manager t.span stream exc (bare t before s))

  abbrev at : TracedStreamManager W → Value → Bool → TracedStreamManager W
  at t stream finished = record t { stream = stream; finished = finished }

  abbrev Ends : TracedStreamManager W → List Use → Sdk W → TracedStreamManager W × Sdk W → Type 0
  Ends t us s r = (r.0.finished ≡ true) × (r.1 ≡ bare t us s)

  entered-Ends :
      (t : TracedStreamManager W) (v : Value) (us : List Use) (o : Outcome) (s : Sdk W)
      → ((w : Value) → Ends t us s (run_uses us (at t w true, s)))
      → Ends t us s (run_uses us (after_enter p objects d o (at t v true) s))
  unfolding after_enter settle settle_if
  entered-Ends t v us (raising e) s rest = rest v
  entered-Ends t v us (returned w) s rest = rest w

  run-finished :
      (t : TracedStreamManager W) (v : Value) (us : List Use) (s : Sdk W)
      → Ends t us s (run_uses us (at t v true, s))
  unfolding run_uses step bare enter active exit settle settle_if
  run-finished t v [] s = (refl, refl)
  run-finished t v (enters ∷ us) s =
      let (o, s') = t.manager.enter (some t.span.observation) s in
      entered-Ends t v us o s' (λ w. run-finished t w us s')
  run-finished t v (exits exc ∷ us) s = run-finished t v us (t.manager.exit exc s)

  abbrev pub Once :
      TracedStreamManager W → List Use → Sdk W → TracedStreamManager W × Sdk W → Type 0
  Once t us s r = Open t us s r ⊎ Closed t us s r

  -- one more call on the provider's manager before the others
  entered_before :
      (t : TracedStreamManager W) (us : List Use) (s : Sdk W) (r : TracedStreamManager W × Sdk W)
      → Once t us (t.manager.enter (some t.span.observation) s).1 r
      → Once t (enters ∷ us) s r
  unfolding bare
  entered_before t us s r (inl o) =
      inl (record { unfinished = o.unfinished; bare_only = o.bare_only })
  entered_before t us s r (inr c) = inr (record {
    finished = c.finished;
    before = enters ∷ c.before;
    after = c.after;
    split = ap (λ (l : List Use). enters ∷ l) c.split;
    exc = c.exc;
    stream = c.stream;
    once = c.once;
  })

  -- the span is settled now, and `after` are the calls that are left
  settled-Closed :
      (t : TracedStreamManager W) (before after : List Use) (exc : Option Exception) (v : Value)
      (s : Sdk W)
      → let s' = settled p objects d t.manager t.span v exc (bare t before s) in
        Closed t (before ++ after) s (run_uses after (at t v true, s'))
  settled-Closed t before after exc v s =
      let s' : Sdk W = settled p objects d t.manager t.span v exc (bare t before s) in
      let (done, same) = run-finished t v after s' in
      record {
        finished = done;
        before = before;
        after = after;
        split = refl;
        exc = exc;
        stream = v;
        once = same;
      }

  after_enter-Once :
      (t : TracedStreamManager W) (v : Value) (us : List Use) (o : Outcome) (s : Sdk W)
      → ((w : Value)
          → Once t us
              (t.manager.enter (some t.span.observation) s).1
              (run_uses us (at t w false, (t.manager.enter (some t.span.observation) s).1)))
      → Once t (enters ∷ us) s (
          run_uses us (
            after_enter p objects d o
              (at t v false)
              (t.manager.enter (some t.span.observation) s).1))
  unfolding after_enter settle settle_if bare
  after_enter-Once t v us (raising e) s rest = inr (settled-Closed t (enters ∷ []) us (some e) v s)
  after_enter-Once t v us (returned w) s rest = entered_before t us s _ (rest w)

  run-all :
      (t : TracedStreamManager W) (v : Value) (us : List Use) (s : Sdk W)
      → Once t us s (run_uses us (at t v false, s))
  unfolding run_uses step bare enter active exit settle settle_if
  run-all t v [] s = inl (record { unfinished = refl; bare_only = refl })
  run-all t v (enters ∷ us) s =
      after_enter-Once t v us (t.manager.enter (some t.span.observation) s).0 s
        (λ w. run-all t w us (t.manager.enter (some t.span.observation) s).1)
  run-all t v (exits exc ∷ us) s = inr (settled-Closed t [] (exits exc ∷ us) exc v s)

  -- Whatever calls of `__enter__` and `__exit__` are made on a fresh traced stream manager, in
  -- whatever order and however they end: either its span is open and the state is the one that
  -- the same calls on the provider's own manager give, or its span was settled exactly once,
  -- between two of those calls, and all else is what those calls did.
  pub run_uses-Once :
      (us : List Use) (t : TracedStreamManager W) (s : Sdk W)
      → t.finished ≡ false
      → Once t us s (run_uses us (t, s))
  run_uses-Once us t s fresh =
      subst (λ (b : Bool). Once t us s (run_uses us (at t t.stream b, s))) (sym fresh)
        (run-all t t.stream us s)
