-- ===== src/OpenAi/Stream/Chunks.antt =====
-- The first token of a stream of chunks or events, as `_OpenAIStreamState` of
-- llm_metrics/integrations/openai.py sees it.
use llm_metrics.Prelude.{Bool, true, false, Option, none, some, List, refl, ◌⊎◌}
use llm_metrics.Prelude.Int.{ℤ}
use llm_metrics.Value.{Value, Objects, Fields, null, text}
use llm_metrics.Decorator.Scope.{if-both}
use llm_metrics.Duck.{Duck, get, truthy, as_int}
use llm_metrics.Stream.{mark_first_token}
use llm_metrics.Stream.Marks.{
  Reads, Reads-refl, Reads-trans, Reads-marked, Reads-same, reads, IsFresh, FirstAt, observe_all,
  observe_all-FirstAt,
}
use llm_metrics.Raising.Keeps.{
  Keeps, >>=-Keeps, >>-Keeps, modify-Keeps, evaluate-Keeps, give-Keeps, if-Keeps, for_each-Keeps,
}
use llm_metrics.Raising.{Raising}
use llm_metrics.OpenAi.Response.{is_present}
use llm_metrics.OpenAi.Stream.{
  Own, State, put_piece, put_refused, name_call, in_facts, put_fact, set_usage, observe_head,
  observe_call, observe_delta, put_reason, observe_choice, take_final, observe_event, observe,
}

abbrev pub calls : Own → List (ℤ × Value)
calls own = own.tool_calls

put_piece-Reads :
    (now : ℤ) (piece : Value) (st : State) → Reads calls now st (put_piece now piece st)
unfolding put_piece
put_piece-Reads now (text t) st =
    if-both (λ (s : State). Reads calls now st s) (is_present (text t))
      (Reads-marked calls now st _ refl) (Reads-refl calls now st)
put_piece-Reads now _ st = Reads-refl calls now st

put_refused-Reads : (now : ℤ) (b : Bool) (st : State) → Reads calls now st (put_refused now b st)
unfolding put_refused
put_refused-Reads now true st = Reads-marked calls now st _ refl
put_refused-Reads now false st = Reads-refl calls now st

name_call-Reads :
    (now : ℤ) (index : Option ℤ) (name : Value) (st : State)
    → Reads calls now st (name_call index name (mark_first_token now st))
name_call-Reads now none name st = Reads-marked calls now st _ refl
name_call-Reads now (some index) name st = Reads-marked calls now st _ refl

in_facts-Keeps :
    {A : Type 0} (now : ℤ) (m : Raising Fields A) → Keeps (reads calls now) (in_facts m)
unfolding in_facts
in_facts-Keeps now m st = Reads-same calls now st _ refl refl refl

module _ (d : Duck) (objects : Objects) where
  set_usage-Reads :
      (now : ℤ) (usage : Value) (st : State) → Reads calls now st (set_usage d objects usage st)
  unfolding set_usage
  set_usage-Reads now null st = Reads-refl calls now st
  set_usage-Reads now _ st = Reads-same calls now st _ refl refl refl

  observe_head-Reads :
      (now : ℤ) (chunk : Value) (st : State) → Reads calls now st (observe_head d objects chunk st)
  unfolding observe_head
  observe_head-Reads now chunk st = Reads-trans calls (Reads-same calls now st _ refl refl refl) (
      Reads-trans calls (set_usage-Reads now (get d chunk "usage") _)
        (Reads-same calls now _ _ refl refl refl))

  observe_call-Reads :
      (now : ℤ) (call : Value) (st : State)
      → Reads calls now st (observe_call d objects now call st)
  unfolding observe_call
  observe_call-Reads now call st =
      let name = get d (get d call "function") "name" in
      if-both (λ (s : State). Reads calls now st s) (truthy d name)
        (name_call-Reads now (as_int (get d call "index")) name st)
        (Reads-marked calls now st (mark_first_token now st) refl)

  observe_delta-Keeps :
      (now : ℤ) (delta : Value) → Keeps (reads calls now) (observe_delta d objects now delta)
  unfolding observe_delta
  observe_delta-Keeps now delta =
      >>-Keeps (reads calls now) _ _
        (modify-Keeps (reads calls now) _ (put_piece-Reads now (get d delta "content")))
        (>>-Keeps (reads calls now) _ _
          (modify-Keeps (reads calls now) _
            (put_refused-Reads now (truthy d (get d delta "refusal"))))
          (>>=-Keeps (reads calls now) _ _ (evaluate-Keeps (reads calls now) _) (λ cs.
            for_each-Keeps (reads calls now) _
              (λ call. modify-Keeps (reads calls now) _ (observe_call-Reads now call)) cs)))

  put_reason-Reads :
      (now : ℤ) (reason : Value) (st : State) → Reads calls now st (put_reason d objects reason st)
  unfolding put_reason
  put_reason-Reads now reason st =
      if-both (λ (s : State). Reads calls now st s) (truthy d reason)
        (Reads-same calls now st (put_fact "finish_reason" reason st) refl refl refl)
        (Reads-refl calls now st)

  observe_choice-Keeps :
      (now : ℤ) (choice : Value) → Keeps (reads calls now) (observe_choice d objects now choice)
  unfolding observe_choice
  observe_choice-Keeps now choice =
      >>-Keeps (reads calls now) _ _
        (modify-Keeps (reads calls now) _ (put_reason-Reads now (get d choice "finish_reason")))
        (if-Keeps (reads calls now) _ _ _ (give-Keeps (reads calls now) tt)
          (observe_delta-Keeps now (get d choice "delta")))

  take_final-Reads :
      (now : ℤ) (final : Value) (st : State) → Reads calls now st (take_final d objects final st)
  unfolding take_final
  take_final-Reads now final st = Reads-same calls now st _ refl refl refl

  observe_event-Keeps :
      (now : ℤ) (chunk : Value) → Keeps (reads calls now) (observe_event d objects now chunk)
  unfolding observe_event
  observe_event-Keeps now chunk =
      >>-Keeps (reads calls now) _ _
        (modify-Keeps (reads calls now) _ (put_piece-Reads now (get d chunk "delta")))
        (if-Keeps (reads calls now) _ _ _
          (>>-Keeps (reads calls now) _ _
            (modify-Keeps (reads calls now) _ (take_final-Reads now (get d chunk "response")))
            (in_facts-Keeps now _))
          (give-Keeps (reads calls now) tt))

  pub observe-Keeps :
      (now : ℤ) (chunk : Value) → Keeps (reads calls now) (observe d objects now chunk)
  unfolding observe
  observe-Keeps now chunk =
      >>-Keeps (reads calls now) _ _
        (modify-Keeps (reads calls now) _ (observe_head-Reads now chunk))
        (>>=-Keeps (reads calls now) _ _ (evaluate-Keeps (reads calls now) _) (λ cs.
          >>-Keeps (reads calls now) _ _
            (for_each-Keeps (reads calls now) _ (observe_choice-Keeps now) cs)
            (observe_event-Keeps now chunk)))

  -- Whatever chunks or events an OpenAI stream brings, also ones whose reading raises: for a
  -- state with no text, no tool calls and no first token, either it has none of these
  -- afterwards, or its first token has the time of one of the chunks, before which none of these
  -- had come.
  pub observe_chunks-FirstAt :
      (cs : List (ℤ × Value)) (st : State)
      → IsFresh calls (observe d objects) observe-Keeps st
      → IsFresh calls (observe d objects) observe-Keeps (observe_all (observe d objects) cs st)
        ⊎ FirstAt calls
            (observe d objects)
            observe-Keeps
            cs
            st
            (observe_all (observe d objects) cs st)
  observe_chunks-FirstAt = observe_all-FirstAt calls (observe d objects) observe-Keeps
