-- ===== src/Stream/Settle.antt =====
-- Runs of calls on a traced stream (llm_metrics/integrations/_stream.py).
use llm_metrics.Prelude.{
  Bool, true, false, Option, none, some, List, [], ◌∷◌, ◌≡◌, refl, ap, ◌∙◌, ◌⊎◌, inl, inr, arith,
}
use llm_metrics.Value.{Objects}
use llm_metrics.Models.{Exception}
use llm_metrics.Sdk.{Platform, Sdk}
use llm_metrics.Stream.{
  StreamState, Step, chunk, stopped, failing, Provider, TracedStream, finish, settle_if, settle,
  after_step, next, enter, exit, close,
}

-- a call on the traced stream
pub data Use : Type 0 where
  nexts enters exits closes : Use

module _ {S X W : Type 0} (p : Platform W) (objects : Objects) (v : Provider S X W) where
  pub step : Use → TracedStream S X × Sdk W → TracedStream S X × Sdk W
  step nexts (t, s) = let (c, t', s') = next p objects v t s in (t', s')
  step enters (t, s) = enter p objects v t s
  step exits (t, s) = exit p objects v t s
  step closes (t, s) = close p objects v t s

  pub run : List Use → TracedStream S X × Sdk W → TracedStream S X × Sdk W
  run [] r = r
  run (u ∷ us) r = run us (step u r)

  -- the stream is unfinished, and only the world has moved on
  pub record Open (s : Sdk W) (r : TracedStream S X × Sdk W) : Type 0 where
    pub unfinished : r.0.finished ≡ false
    pub world : W
    pub moved : r.1 ≡ record s { world = world }

  -- the stream is finished, and apart from the world one call of `finish` has been made
  pub record Closed (s : Sdk W) (r : TracedStream S X × Sdk W) : Type 0 where
    pub finished : r.0.finished ≡ true
    pub state : StreamState X
    pub exc : Option Exception
    pub completed : Bool
    pub before : W
    pub after : W
    pub once : r.1 ≡ record (finish p objects v state exc completed (record s { world = before })) {
      world = after;
    }

  abbrev pub Once : Sdk W → TracedStream S X × Sdk W → Type 0
  Once s r = Open s r ⊎ Closed s r

  moves :
      (s : Sdk W) (t t' : TracedStream S X) (s' : Sdk W) (w : W)
      → t'.finished ≡ t.finished
      → Once s (t, s')
      → Once s (t', record s' { world = w })
  moves s t t' s' w same (inl o) = inl (record {
    unfinished = same ∙ o.unfinished;
    world = w;
    moved = ap (λ (x : Sdk W). record x { world = w }) o.moved;
  })
  moves s t t' s' w same (inr c) = inr (record {
    finished = same ∙ c.finished;
    state = c.state;
    exc = c.exc;
    completed = c.completed;
    before = c.before;
    after = w;
    once = ap (λ (x : Sdk W). record x { world = w }) c.once;
  })

  settle_if-Once :
      (b : Bool) (exc : Option Exception) (completed : Bool) (s : Sdk W) (t : TracedStream S X)
      (s' : Sdk W)
      → t.finished ≡ b
      → Once s (t, s')
      → Once s (settle_if p objects v b exc completed t s')
  unfolding settle_if
  settle_if-Once true exc completed s t s' is h = h
  settle_if-Once false exc completed s t s' is (inl o) = inr (record {
    finished = refl;
    state = t.state;
    exc = exc;
    completed = completed;
    before = o.world;
    after = (finish p objects v t.state exc completed s').world;
    once =
        ap
          (λ (x : Sdk W). record (finish p objects v t.state exc completed x) {
            world = (finish p objects v t.state exc completed s').world;
          })
          o.moved;
  })
  settle_if-Once false exc completed s t s' is (inr c) = absurd (ground (arith, c.finished))

  settle-Once :
      (exc : Option Exception) (completed : Bool) (s : Sdk W) (t : TracedStream S X) (s' : Sdk W)
      → Once s (t, s')
      → Once s (settle p objects v exc completed t s')
  unfolding settle
  settle-Once exc completed s t s' h = settle_if-Once t.finished exc completed s t s' refl h

  after_step-Once :
      (c : Step) (s : Sdk W) (t : TracedStream S X) (s' : Sdk W)
      → Once s (t, s')
      → Once s (after_step p objects v c t s')
  unfolding after_step
  after_step-Once (chunk c) s t s' h = moves s t _ s' s'.world refl h
  after_step-Once stopped s t s' h = settle-Once none true s t s' h
  after_step-Once (failing e) s t s' h = settle-Once (some e) false s t s' h

  leave :
      (s : Sdk W) (move : S → W → S × W) (r : TracedStream S X × Sdk W)
      → Once s r
      → let (t, s') = r in
        let (stream, world) = move t.stream s'.world in
        Once s (record t { stream = stream }, record s' { world = world })
  leave s move (t, s') h = moves s t _ s' _ refl h

  step-Once : (u : Use) (s : Sdk W) (r : TracedStream S X × Sdk W) → Once s r → Once s (step u r)
  unfolding step next enter exit close
  step-Once nexts s (t, s') h =
      let (c, stream, world) = v.next_chunk t.stream s'.world in
      let t' : TracedStream S X = record t { stream = stream } in
      after_step-Once c s t' (record s' { world = world }) (moves s t t' s' world refl h)
  step-Once enters s (t, s') h = leave s v.enter (t, s') h
  step-Once exits s (t, s') h = leave s v.exit _ (settle-Once none false s t s' h)
  step-Once closes s (t, s') h = leave s v.close_stream _ (settle-Once none false s t s' h)

  run-all :
      (us : List Use) (s : Sdk W) (r : TracedStream S X × Sdk W) → Once s r → Once s (run us r)
  unfolding run
  run-all [] s r h = h
  run-all (u ∷ us) s r h = run-all us s (step u r) (step-Once u s r h)

  -- Whatever calls are made on a fresh traced stream, its span was either left open, with the
  -- stream unfinished and nothing but the world changed, or finished exactly once, with nothing
  -- else changed but the world.
  pub run-Once :
      (us : List Use) (t : TracedStream S X) (s : Sdk W)
      → t.finished ≡ false
      → Once s (run us (t, s))
  run-Once us t s open_ =
      run-all us s (t, s) (inl (record { unfinished = open_; world = s.world; moved = refl }))
