-- ===== src/Anthropic/Stream/Events.antt =====
-- The first token of a stream of events, as `_AnthropicStreamState` of
-- llm_metrics/integrations/anthropic.py sees it.
use llm_metrics.Prelude.{String, Option, none, some, if◌then◌else◌, ◌&&◌, ◌||◌, List, ◌⊎◌, refl}
use llm_metrics.Prelude.Int.{ℤ}
use llm_metrics.Value.{Value, null, Objects}
use llm_metrics.Decorator.Scope.{if-both}
use llm_metrics.Duck.{Duck, get, truthy, is_text}
use llm_metrics.Capture.{key_text}
use llm_metrics.Stream.{mark_first_token}
use llm_metrics.Stream.Marks.{
  Reads, Reads-refl, Reads-trans, Reads-marked, Reads-same, reads, IsFresh, FirstAt, observe_all,
  observe_all-FirstAt,
}
use llm_metrics.Raising.{Raising, modify, evaluate, give, ◌>>◌, ◌>>=◌}
use llm_metrics.Raising.Keeps.{Keeps, modify-Keeps, give-Keeps, if-Keeps}
use llm_metrics.OpenAi.Response.{is_present}
use llm_metrics.Anthropic.Stream.{
  Own, State, append_text, append_name, put_fact, merge_usage, put_fact_if, on_message_start,
  on_block_start, on_block_delta, on_message_delta, observe,
}

abbrev pub calls : Own → List Value
calls own = own.tool_calls

append_text-Reads :
    (now : ℤ) (piece : Value) (st : State)
    → Reads calls now st (append_text piece (mark_first_token now st))
append_text-Reads now (Value.text t) st = Reads-marked calls now st _ refl
append_text-Reads now null st = Reads-marked calls now st _ refl
append_text-Reads now _ st = Reads-marked calls now st _ refl

name_call-Keeps :
    (now : ℤ) (name : Option String)
    → Keeps
        (reads calls now)
        (modify (mark_first_token now) >> (evaluate name >>= λ n. modify (append_name n)))
unfolding ◌>>◌ ◌>>=◌ modify evaluate
name_call-Keeps now none st = Reads-marked calls now st (mark_first_token now st) refl
name_call-Keeps now (some n) st =
    Reads-marked calls now st (append_name n (mark_first_token now st)) refl

module _ (d : Duck) (objects : Objects) where
  merge_usage-Reads :
      (now : ℤ) (usage : Value) (st : State) → Reads calls now st (merge_usage d objects usage st)
  unfolding merge_usage
  merge_usage-Reads now null st = Reads-refl calls now st
  merge_usage-Reads now _ st = Reads-same calls now st _ refl refl refl

  put_fact_if-Reads :
      (now : ℤ) (key : String) (v : Value) (st : State)
      → Reads calls now st (put_fact_if d objects key v st)
  unfolding put_fact_if
  put_fact_if-Reads now key v st =
      if-both (λ (s : State). Reads calls now st s) (truthy d v)
        (Reads-same calls now st (put_fact key v st) refl refl refl) (Reads-refl calls now st)

  on_message_start-Reads :
      (now : ℤ) (message : Value) (st : State)
      → Reads calls now st (on_message_start d objects message st)
  unfolding on_message_start
  on_message_start-Reads now message st =
      Reads-trans calls
        (Reads-same calls now st
          (record st { own = record st.own { model = get d message "model" } }) refl refl refl)
        (Reads-trans calls (merge_usage-Reads now (get d message "usage") _)
          (put_fact_if-Reads now "response_id" (get d message "id") _))

  on_block_start-Keeps :
      (now : ℤ) (block : Value) → Keeps (reads calls now) (on_block_start d objects now block)
  unfolding on_block_start
  on_block_start-Keeps now block =
      if-Keeps (reads calls now)
        (is_text "tool_use" (get d block "type") && truthy d (get d block "name")) _ (give tt)
        (name_call-Keeps now (key_text objects (get d block "name")))
        (give-Keeps (reads calls now) tt)

  on_block_delta-Reads :
      (now : ℤ) (delta : Value) (st : State)
      → Reads calls now st (on_block_delta d objects now delta st)
  unfolding on_block_delta
  on_block_delta-Reads now delta st =
      if-both (λ (s : State). Reads calls now st s) (is_present (get d delta "text"))
        (append_text-Reads now (get d delta "text") st)
        (if-both (λ (s : State). Reads calls now st s)
          (is_text "thinking_delta" (get d delta "type")
            || is_text "input_json_delta" (get d delta "type"))
          (Reads-marked calls now st _ refl) (Reads-refl calls now st))

  on_message_delta-Reads :
      (now : ℤ) (event : Value) (st : State)
      → Reads calls now st (on_message_delta d objects event st)
  unfolding on_message_delta
  on_message_delta-Reads now event st =
      Reads-trans calls
        (put_fact_if-Reads now "stop_reason" (get d (get d event "delta") "stop_reason") st)
        (merge_usage-Reads now (get d event "usage") _)

  pub observe-Keeps :
      (now : ℤ) (event : Value) → Keeps (reads calls now) (observe d objects now event)
  unfolding observe
  observe-Keeps now event =
      let r = reads calls now in
      let kind = get d event "type" in
      let start = on_message_start d objects (get d event "message") in
      let delta = on_block_delta d objects now (get d event "delta") in
      let ending = on_message_delta d objects event in
      let nothing : Raising State (Unit {0}) = give tt in
      let fourth = if is_text "message_delta" kind then modify ending else nothing in
      let third = if is_text "content_block_delta" kind then modify delta else fourth in
      let second =
        if is_text "content_block_start" kind
        then on_block_start d objects now (get d event "content_block")
        else third in
      if-Keeps r (is_text "message_start" kind) (modify start) second
        (modify-Keeps r start (on_message_start-Reads now (get d event "message")))
        (if-Keeps r (is_text "content_block_start" kind) _ third
          (on_block_start-Keeps now (get d event "content_block"))
          (if-Keeps r (is_text "content_block_delta" kind) (modify delta) fourth
            (modify-Keeps r delta (on_block_delta-Reads now (get d event "delta")))
            (if-Keeps r (is_text "message_delta" kind) (modify ending) nothing
              (modify-Keeps r ending (on_message_delta-Reads now event)) (give-Keeps r tt))))

  -- Whatever events an Anthropic stream brings, in whatever order, also ones whose reading
  -- raises: for a state with no text, no tool calls and no first token, either it has none of
  -- these afterwards, or its first token has the time of one of the events, before which none of
  -- these had come.
  pub observe_events-FirstAt :
      (cs : List (ℤ × Value)) (st : State)
      → IsFresh calls (observe d objects) observe-Keeps st
      → IsFresh calls (observe d objects) observe-Keeps (observe_all (observe d objects) cs st)
        ⊎ FirstAt calls
            (observe d objects)
            observe-Keeps
            cs
            st
            (observe_all (observe d objects) cs st)
  observe_events-FirstAt = observe_all-FirstAt calls (observe d objects) observe-Keeps
