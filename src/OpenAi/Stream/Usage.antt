-- ===== src/OpenAi/Stream/Usage.antt =====
-- The usage that an OpenAI stream (llm_metrics/integrations/openai.py) has reported last.
use llm_metrics.Prelude.{
  Bool, true, false, not, ◌&&◌, Option, none, some, List, [], ◌∷◌, ◌++◌, All, suc, ◌≡◌, refl, ◌∙◌,
  arith,
}
use llm_metrics.Prelude.Int.{ℤ}
use llm_metrics.Value.{Value, null, text, Objects}
use llm_metrics.Decorator.Scope.{if-both}
use llm_metrics.Duck.{Duck, get, truthy, as_int, is_null, is_text}
use llm_metrics.Stream.{mark_first_token}
use llm_metrics.Stream.Marks.{observe_chunk, observe_all, observe_all-append}
use llm_metrics.Raising.{Raising, ◌>>=◌, ◌>>◌, modify}
use llm_metrics.Raising.Keeps.{
  Order, Keeps, >>=-Keeps, >>-Keeps, modify-Keeps, evaluate-Keeps, give-Keeps, if-Keeps,
  if-Keeps_cases, for_each-Keeps,
}
use llm_metrics.OpenAi.{usage_completion}
use llm_metrics.OpenAi.Response.{is_present}
use llm_metrics.OpenAi.Stream.{
  State, put_piece, put_refused, append_text, name_call, set_usage, observe_head, observe_call,
  observe_delta, put_reason, observe_choice, observe_event, observe,
}

-- the usage that the provider reported last, and the count that the rate is computed from
record SameUsage (st st' : State) : Type 0 where
  usage : st'.own.usage ≡ st.own.usage
  completion : st'.completion_tokens ≡ st.completion_tokens

same : (st : State) → SameUsage st st
same st = record { usage = refl; completion = refl }

abbrev same_usage : Order State
same_usage = record {
  Later = SameUsage;
  refl = same;
  trans =
      λ a b c p q. record { usage = q.usage ∙ p.usage; completion = q.completion ∙ p.completion };
}

append_text-Same : (piece : Value) (st : State) → SameUsage st (append_text piece st)
append_text-Same (text t) st = record { usage = refl; completion = refl }
append_text-Same _ st = same st

put_piece-Same : (now : ℤ) (piece : Value) (st : State) → SameUsage st (put_piece now piece st)
unfolding put_piece mark_first_token
put_piece-Same now piece st =
    if-both (λ (s : State). SameUsage st s) (is_present piece)
      (let h = append_text-Same piece (mark_first_token now st) in
        record { usage = h.usage; completion = h.completion })
      (same st)

put_refused-Same : (now : ℤ) (b : Bool) (st : State) → SameUsage st (put_refused now b st)
unfolding put_refused mark_first_token
put_refused-Same now true st = record { usage = refl; completion = refl }
put_refused-Same now false st = same st

name_call-Same :
    (index : Option ℤ) (name : Value) (st : State) → SameUsage st (name_call index name st)
name_call-Same none name st = same st
name_call-Same (some index) name st = record { usage = refl; completion = refl }

and-false : (a b : Bool) → b ≡ false → ¬ ((a && b) ≡ true)
and-false a b h is = ground arith

module _ (d : Duck) (objects : Objects) where
  observe_call-Same :
      (now : ℤ) (call : Value) (st : State) → SameUsage st (observe_call d objects now call st)
  unfolding observe_call mark_first_token
  observe_call-Same now call st =
      let name = get d (get d call "function") "name" in
      let h = name_call-Same (as_int (get d call "index")) name (mark_first_token now st) in
      if-both (λ (s : State). SameUsage st s) (truthy d name)
        (record { usage = h.usage; completion = h.completion })
        (record { usage = refl; completion = refl })

  observe_delta-Same :
      (now : ℤ) (delta : Value) → Keeps same_usage (observe_delta d objects now delta)
  unfolding observe_delta
  observe_delta-Same now delta =
      >>-Keeps same_usage _ _
        (modify-Keeps same_usage _ (put_piece-Same now (get d delta "content")))
        (>>-Keeps same_usage _ _
          (modify-Keeps same_usage _ (put_refused-Same now (truthy d (get d delta "refusal"))))
          (>>=-Keeps same_usage _ _ (evaluate-Keeps same_usage _) (λ cs.
            for_each-Keeps same_usage _
              (λ call. modify-Keeps same_usage _ (observe_call-Same now call)) cs)))

  put_reason-Same : (reason : Value) (st : State) → SameUsage st (put_reason d objects reason st)
  unfolding put_reason
  put_reason-Same reason st =
      if-both (λ (s : State). SameUsage st s) (truthy d reason)
        (record { usage = refl; completion = refl }) (same st)

  observe_choice-Same :
      (now : ℤ) (choice : Value) → Keeps same_usage (observe_choice d objects now choice)
  unfolding observe_choice
  observe_choice-Same now choice =
      >>-Keeps same_usage _ _
        (modify-Keeps same_usage _ (put_reason-Same (get d choice "finish_reason")))
        (if-Keeps same_usage _ _ _ (give-Keeps same_usage tt)
          (observe_delta-Same now (get d choice "delta")))

  -- a chunk that is no completed response of the Responses API
  abbrev pub IsPart : Value → Type 0
  IsPart chunk = is_text "response.completed" (get d chunk "type") ≡ false

  observe_event-Same :
      (now : ℤ) (chunk : Value)
      → IsPart chunk
      → Keeps same_usage (observe_event d objects now chunk)
  unfolding observe_event
  observe_event-Same now chunk part =
      >>-Keeps same_usage _ _ (modify-Keeps same_usage _ (put_piece-Same now (get d chunk "delta")))
        (if-Keeps_cases same_usage
          (not (is_null (get d chunk "response"))
            && is_text "response.completed" (get d chunk "type"))
          _ _ (λ is. absurd (and-false _ _ part is)) (λ _. give-Keeps same_usage tt))

  modify->> :
      (f : State → State) (k : Raising State (Unit {0})) (st : State)
      → (modify f >> k) st ≡ k (f st)
  unfolding ◌>>◌ ◌>>=◌ modify
  modify->> f k st = refl

  observe-head :
      (now : ℤ) (chunk : Value) (st : State)
      → IsPart chunk
      → SameUsage (observe_head d objects chunk st) (observe d objects now chunk st).1
  unfolding observe
  observe-head now chunk st part = rw modify->> (
      >>=-Keeps same_usage _ _ (evaluate-Keeps same_usage _)
        (λ cs.
          >>-Keeps same_usage _ _ (for_each-Keeps same_usage _ (observe_choice-Same now) cs)
            (observe_event-Same now chunk part))
        (observe_head d objects chunk st))

  -- the chunk reports a usage
  abbrev pub Reports : Value → Value → Type 0
  Reports usage chunk = (get d chunk "usage" ≡ usage) × (is_null usage ≡ false)

  -- the chunk reports none
  abbrev pub IsSilent : Value → Type 0
  IsSilent chunk = (get d chunk "usage" ≡ null) × IsPart chunk

  set_usage-reported :
      (usage : Value) (st : State)
      → is_null usage ≡ false
      → (set_usage d objects usage st).own.usage ≡ usage
  unfolding set_usage
  set_usage-reported null st h = cc
  set_usage-reported _ st h = refl

  set_usage-completion :
      (usage : Value) (st : State)
      → is_null usage ≡ false
      → (set_usage d objects usage st).completion_tokens ≡ usage_completion d usage
  unfolding set_usage
  set_usage-completion null st h = cc
  set_usage-completion _ st h = refl

  -- what the stream's state knows of the usage
  pub record Knows (u : Value) (st : State) : Type 0 where
    pub usage : st.own.usage ≡ u
    pub completion : st.completion_tokens ≡ usage_completion d u

  Same-Knows : {u : Value} {st st' : State} → SameUsage st st' → Knows u st → Knows u st'
  Same-Knows s k = record { usage = s.usage ∙ k.usage; completion = s.completion ∙ k.completion }

  observe_head-Knows :
      (usage chunk : Value) (st : State)
      → Reports usage chunk
      → Knows usage (observe_head d objects chunk st)
  unfolding observe_head
  observe_head-Knows usage chunk st (is, there) = record {
    usage = rw is (set_usage-reported usage _ there);
    completion = rw is (set_usage-completion usage _ there);
  }

  observe_head-silent :
      (usage chunk : Value) (st : State)
      → IsSilent chunk
      → Knows usage st
      → Knows usage (observe_head d objects chunk st)
  unfolding observe_head set_usage
  observe_head-silent usage chunk st (is, part) k = record {
    usage = rw is k.usage;
    completion = rw is k.completion;
  }

  observe_chunk-Knows :
      (usage : Value) (now : ℤ) (chunk : Value) (st : State)
      → Reports usage chunk
      → IsPart chunk
      → Knows usage (observe_chunk (observe d objects) now chunk st)
  unfolding observe_chunk
  observe_chunk-Knows usage now chunk st reports part =
      Same-Knows (observe-head now chunk _ part) (observe_head-Knows usage chunk _ reports)

  observe_all-silent :
      (usage : Value) (cs : List (ℤ × Value)) (st : State)
      → All (λ (c : ℤ × Value). IsSilent c.1) cs
      → Knows usage st
      → Knows usage (observe_all (observe d objects) cs st)
  unfolding observe_all observe_chunk
  observe_all-silent usage [] st quiet k = k
  observe_all-silent usage ((now, chunk) ∷ cs) st (silent, quiet) k =
      let st' : State = record st { chunks = suc st.chunks } in
      observe_all-silent usage cs _ quiet (
        Same-Knows (observe-head now chunk st' silent.1) (
          observe_head-silent usage chunk st' silent
            (record { usage = k.usage; completion = k.completion })))

  pub stream-Knows :
      (usage : Value) (before after : List (ℤ × Value)) (now : ℤ) (chunk : Value) (st : State)
      → Reports usage chunk
      → IsPart chunk
      → All (λ (c : ℤ × Value). IsSilent c.1) after
      → Knows usage (observe_all (observe d objects) (before ++ (now, chunk) ∷ after) st)
  unfolding observe_all
  stream-Knows usage before after now chunk st reports part quiet =
      rw (observe_all-append (observe d objects) before ((now, chunk) ∷ after) st) (
        observe_all-silent usage after _ quiet (
          observe_chunk-Knows usage now chunk (observe_all (observe d objects) before st) reports
            part))
