-- ===== src/Stream/Marks.antt =====
-- The time of the first token of a stream (llm_metrics/integrations/_stream.py), for a subclass
-- that reads each chunk by code that may raise. `calls` is what the subclass has gathered besides
-- the text.
use llm_metrics.Prelude.{
  suc, none, some, List, [], ◌∷◌, ◌++◌, ◌≡◌, refl, ◌∙◌, ap, ◌⊎◌, inl, inr, arith,
}
use llm_metrics.Prelude.Int.{ℤ}
use llm_metrics.Value.{Value}
use llm_metrics.Stream.{StreamState, mark_first_token}
use llm_metrics.Raising.{Raising}
use llm_metrics.Raising.Keeps.{Order, Keeps}

module _ {X C : Type 0} (calls : X → List C) where
  -- from one state to a later one, by code that runs at one time
  pub record Reads (now : ℤ) (st st' : StreamState X) : Type 0 where
    pub first :
        (st'.first_token_at ≡ st.first_token_at)
        ⊎ ((st.first_token_at ≡ none) × (st'.first_token_at ≡ some now))
    pub unmarked : st'.first_token_at ≡ none → (st'.text ≡ st.text) × (calls st'.own ≡ calls st.own)

  pub Reads-refl : (now : ℤ) (st : StreamState X) → Reads now st st
  Reads-refl now st = record { first = inl refl; unmarked = λ h. (refl, refl) }

  none_before :
      {now : ℤ} {st st' : StreamState X}
      → Reads now st st'
      → st'.first_token_at ≡ none
      → st.first_token_at ≡ none
  none_before r h = ground (arith, r.first)

  pub Reads-trans :
      {now : ℤ} {st st' st'' : StreamState X}
      → Reads now st st'
      → Reads now st' st''
      → Reads now st st''
  Reads-trans p q = record {
    first = ground (arith, p.first, q.first);
    unmarked = λ h.
        let (text, names) = q.unmarked h in
        let (text', names') = p.unmarked (none_before q h) in (text ∙ text', names ∙ names');
  }

  -- what happens to the state's text and calls under a mark that was set is free
  pub Reads-marked :
      (now : ℤ) (st st' : StreamState X)
      → st'.first_token_at ≡ (mark_first_token now st).first_token_at
      → Reads now st st'
  unfolding mark_first_token
  Reads-marked now st st' h = record {
    first = ground arith;
    unmarked = λ gone. absurd (ground arith);
  }

  -- what leaves the text, the calls and the mark alone
  pub Reads-same :
      (now : ℤ) (st st' : StreamState X)
      → st'.first_token_at ≡ st.first_token_at
      → st'.text ≡ st.text
      → calls st'.own ≡ calls st.own
      → Reads now st st'
  Reads-same now st st' h t c = record { first = inl h; unmarked = λ _. (t, c) }

  abbrev pub reads : ℤ → Order (StreamState X)
  reads now = record {
    Later = Reads now;
    refl = Reads-refl now;
    trans = λ st st' st'' p q. Reads-trans p q;
  }

-- `StreamState.observe_chunk`: whatever `_observe` raises is swallowed
unfoldable pub observe_chunk :
    {X : Type 0}
    → (ℤ → Value → Raising (StreamState X) (Unit {0}))
    → ℤ
    → Value
    → StreamState X
    → StreamState X
observe_chunk observe now chunk st = (observe now chunk (record st { chunks = suc st.chunks })).1

-- the chunks of a stream, each with the time at which it came
unfoldable pub observe_all :
    {X : Type 0}
    → (ℤ → Value → Raising (StreamState X) (Unit {0}))
    → List (ℤ × Value)
    → StreamState X
    → StreamState X
unfolding observe_chunk
observe_all observe [] st = st
observe_all observe ((now, chunk) ∷ cs) st =
    observe_all observe cs (observe_chunk observe now chunk st)

pub observe_all-append :
    {X : Type 0} (observe : ℤ → Value → Raising (StreamState X) (Unit {0}))
    (cs ds : List (ℤ × Value)) (st : StreamState X)
    → observe_all observe (cs ++ ds) st ≡ observe_all observe ds (observe_all observe cs st)
unfolding observe_all
observe_all-append observe [] ds st = refl
observe_all-append observe ((now, chunk) ∷ cs) ds st =
    observe_all-append observe cs ds (observe_chunk observe now chunk st)

module _ {X C : Type 0} (calls : X → List C)
    (observe : ℤ → Value → Raising (StreamState X) (Unit {0}))
    (safe : (now : ℤ) (chunk : Value) → Keeps (reads calls now) (observe now chunk)) where
  -- nothing has been gathered, and no first token was seen
  pub record IsFresh (st : StreamState X) : Type 0 where
    pub first : st.first_token_at ≡ none
    pub text : st.text ≡ []
    pub names : calls st.own ≡ []

  -- the first token came with the last chunk of `before` and one, at its time
  pub record FirstAt (cs : List (ℤ × Value)) (st st' : StreamState X) : Type 0 where
    pub before : List (ℤ × Value)
    pub now : ℤ
    pub chunk : Value
    pub after : List (ℤ × Value)
    pub split : cs ≡ before ++ (now, chunk) ∷ after
    pub until : IsFresh (observe_all observe before st)
    pub at : st'.first_token_at ≡ some now

  observe_chunk-Reads :
      (now : ℤ) (chunk : Value) (st : StreamState X)
      → Reads calls now (record st { chunks = suc st.chunks }) (observe_chunk observe now chunk st)
  unfolding observe_chunk
  observe_chunk-Reads now chunk st = safe now chunk (record st { chunks = suc st.chunks })

  observe_all-first :
      (cs : List (ℤ × Value)) (t : ℤ) (st : StreamState X)
      → st.first_token_at ≡ some t
      → (observe_all observe cs st).first_token_at ≡ some t
  unfolding observe_all
  observe_all-first [] t st h = h
  observe_all-first ((now, chunk) ∷ cs) t st h =
      observe_all-first cs t (observe_chunk observe now chunk st)
        (ground (arith, (observe_chunk-Reads now chunk st).first))

  later :
      (now : ℤ) (chunk : Value) (cs : List (ℤ × Value)) (st : StreamState X)
      → let st' = observe_chunk observe now chunk st in
        IsFresh (observe_all observe cs st') ⊎ FirstAt cs st' (observe_all observe cs st')
        → let out = observe_all observe ((now, chunk) ∷ cs) st in
          IsFresh out ⊎ FirstAt ((now, chunk) ∷ cs) st out
  unfolding observe_all
  later now chunk cs st (inl f) = inl f
  later now chunk cs st (inr f) = inr (record {
    before = (now, chunk) ∷ f.before;
    now = f.now;
    chunk = f.chunk;
    after = f.after;
    split = ap (λ (l : List (ℤ × Value)). (now, chunk) ∷ l) f.split;
    until = f.until;
    at = f.at;
  })

  still_fresh :
      (now : ℤ) (chunk : Value) (st : StreamState X)
      → IsFresh st
      → (observe_chunk observe now chunk st).first_token_at ≡ st.first_token_at
      → IsFresh (observe_chunk observe now chunk st)
  still_fresh now chunk st h same =
      let (text, names) = (observe_chunk-Reads now chunk st).unmarked (same ∙ h.first) in
      record { first = same ∙ h.first; text = text ∙ h.text; names = names ∙ h.names }

  marked_now :
      (now : ℤ) (chunk : Value) (cs : List (ℤ × Value)) (st : StreamState X)
      → IsFresh st
      → (observe_chunk observe now chunk st).first_token_at ≡ some now
      → FirstAt ((now, chunk) ∷ cs) st (observe_all observe ((now, chunk) ∷ cs) st)
  unfolding observe_all
  marked_now now chunk cs st h is = record {
    before = [];
    now = now;
    chunk = chunk;
    after = cs;
    split = refl;
    until = h;
    at = observe_all-first cs now (observe_chunk observe now chunk st) is;
  }

  pub observe_all-FirstAt :
      (cs : List (ℤ × Value)) (st : StreamState X)
      → IsFresh st
      → IsFresh (observe_all observe cs st) ⊎ FirstAt cs st (observe_all observe cs st)
  observe_all-FirstAt [] st h = unfold observe_all in inl h
  observe_all-FirstAt ((now, chunk) ∷ cs) st h = elim ((observe_chunk-Reads now chunk st).first) [
    | inl same ↦ later now chunk cs st (
        observe_all-FirstAt cs (observe_chunk observe now chunk st)
          (still_fresh now chunk st h same))
    | inr (was, is) ↦ inr (marked_now now chunk cs st h is)
  ]
