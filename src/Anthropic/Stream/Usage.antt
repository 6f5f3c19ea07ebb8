-- ===== src/Anthropic/Stream/Usage.antt =====
-- The counts that the events of an Anthropic stream (llm_metrics/integrations/anthropic.py) have
-- reported.
use llm_metrics.Prelude.{
  suc, String, Option, none, some, List, [], ◌∷◌, All, ◌≡◌, refl, ◌∙◌, ap, arith, first_some,
  or_else, str_eq, if◌then◌else◌, Bool-cases, inl, inr, ◌&&◌, ◌||◌,
}
use llm_metrics.Prelude.Int.{ℤ}
use llm_metrics.Value.{Value, null, int, mapping, Fields, end, Objects}
use llm_metrics.Capture.{key_text}
use llm_metrics.Models.Wire.{get_field, get_field-put_field}
use llm_metrics.Decorator.Scope.{if-both}
use llm_metrics.Duck.{Duck, get, truthy, is_text, strict_int}
use llm_metrics.Stream.{mark_first_token}
use llm_metrics.Stream.Marks.{observe_chunk, observe_all}
use llm_metrics.Raising.{Raising, ◌>>=◌, ◌>>◌, modify, evaluate, give}
use llm_metrics.OpenAi.Response.{is_present}
use llm_metrics.Anthropic.Stream.{
  State, usage_keys, put_int, merge_keys, append_text, append_name, merge_usage, put_fact_if,
  on_message_start, on_block_start, on_block_delta, on_message_delta, observe,
}

-- the int that a dict of counts holds under a key
abbrev pub known : String → Fields → Option ℤ
known k fs = strict_int (or_else (get_field k fs) null)

known-put_int :
    (j k : String) (n : Option ℤ) (fs : Fields)
    → known j (put_int k n fs) ≡ (if str_eq k j then first_some n (known j fs) else known j fs)
unfolding put_int strict_int
known-put_int j k none fs = ground arith
known-put_int j k (some n) fs = rw (get_field-put_field j k (int n) fs) (ground arith)

module _ (d : Duck) (objects : Objects) where
  -- the key is one that `_merge_usage` goes through
  abbrev pub Tracked : String → Type 0
  Tracked k =
      (usage : Value) (merged : Fields)
      → known k (merge_keys d objects usage_keys usage merged)
        ≡ first_some (strict_int (get d usage k)) (known k merged)

  pub tracked : All Tracked usage_keys
  unfolding merge_keys
  tracked = (
    (λ usage merged. simp known-put_int),
    (
      (λ usage merged. simp known-put_int),
      ((λ usage merged. simp known-put_int), ((λ usage merged. simp known-put_int), tt)),
    ),
  )

  -- the usage object that an event carries
  unfoldable pub event_usage : Value → Value
  event_usage event =
      let kind = get d event "type" in
      if is_text "message_start" kind
      then get d (get d event "message") "usage"
      else if is_text "content_block_start" kind
      then null
      else if is_text "content_block_delta" kind
      then null
      else if is_text "message_delta" kind
      then get d event "usage"
      else null

  -- the count that the events report last under a key
  unfoldable pub last_reported : String → List (ℤ × Value) → Option ℤ
  last_reported k [] = none
  last_reported k ((now, event) ∷ cs) =
      first_some (last_reported k cs) (strict_int (get d (event_usage event) k))

  module _ (k : String) (track : Tracked k) where
    abbrev Held : Option ℤ → State → State → Type 0
    Held n st st' = known k st'.own.usage ≡ first_some n (known k st.own.usage)

    merge_usage-Held :
        (usage : Value) (st : State)
        → Held (strict_int (get d usage k)) st (merge_usage d objects usage st)
    unfolding merge_usage strict_int get
    merge_usage-Held null st = refl
    merge_usage-Held usage st = track usage st.own.usage

    put_fact_if-usage :
        (key : String) (v : Value) (st : State)
        → (put_fact_if d objects key v st).own.usage ≡ st.own.usage
    unfolding put_fact_if
    put_fact_if-usage key v st = ground arith

    on_message_start-Held :
        (message : Value) (st : State)
        → Held
            (strict_int (get d (get d message "usage") k))
            st
            (on_message_start d objects message st)
    unfolding on_message_start
    on_message_start-Held message st =
        let named : State = record st { own = record st.own { model = get d message "model" } } in
        ap (known k) (
          put_fact_if-usage "response_id" (get d message "id")
            (merge_usage d objects (get d message "usage") named))
        ∙ merge_usage-Held (get d message "usage") named

    on_message_delta-Held :
        (event : Value) (st : State)
        → Held (strict_int (get d (get d event "usage") k)) st (on_message_delta d objects event st)
    unfolding on_message_delta
    on_message_delta-Held event st =
        let st' : State =
          put_fact_if d objects "stop_reason" (get d (get d event "delta") "stop_reason") st in
        merge_usage-Held (get d event "usage") st'
        ∙ ap (λ (fs : Fields). first_some (strict_int (get d (get d event "usage") k)) (known k fs))
            (put_fact_if-usage "stop_reason" (get d (get d event "delta") "stop_reason") st)

    append_text-usage :
        (v : Value) (now : ℤ) (st : State)
        → (append_text v (mark_first_token now st)).own.usage ≡ st.own.usage
    unfolding mark_first_token
    append_text-usage (Value.text t) now st = refl
    append_text-usage null now st = refl
    append_text-usage _ now st = refl

    on_block_delta-usage :
        (now : ℤ) (delta : Value) (st : State)
        → (on_block_delta d objects now delta st).own.usage ≡ st.own.usage
    unfolding on_block_delta mark_first_token
    on_block_delta-usage now delta st =
        if-both (λ (s : State). s.own.usage ≡ st.own.usage) (is_present (get d delta "text"))
          (append_text-usage (get d delta "text") now st)
          (if-both (λ (s : State). s.own.usage ≡ st.own.usage)
            (is_text "thinking_delta" (get d delta "type")
              || is_text "input_json_delta" (get d delta "type"))
            refl refl)

    name_call-usage :
        (now : ℤ) (name : Option String) (st : State)
        → ((modify (mark_first_token now) >> (evaluate name >>= λ n. modify (append_name n)))
            st).1.own.usage
          ≡ st.own.usage
    unfolding ◌>>◌ ◌>>=◌ modify evaluate mark_first_token
    name_call-usage now none st = refl
    name_call-usage now (some n) st = refl

    on_block_start-usage :
        (now : ℤ) (block : Value) (st : State)
        → (on_block_start d objects now block st).1.own.usage ≡ st.own.usage
    unfolding on_block_start give
    on_block_start-usage now block st =
        if-both (λ (m : Raising State (Unit {0})). (m st).1.own.usage ≡ st.own.usage)
          (is_text "tool_use" (get d block "type") && truthy d (get d block "name"))
          (name_call-usage now (key_text objects (get d block "name")) st) refl

    observe-Held :
        (now : ℤ) (event : Value) (st : State)
        → Held (strict_int (get d (event_usage event) k)) st (observe d objects now event st).1
    unfolding observe event_usage modify give
    observe-Held now event st =
        let kind = get d event "type" in
        elim (Bool-cases (is_text "message_start" kind)) [
          | inl is ↦ rw is (on_message_start-Held (get d event "message") st)
          | inr not_1 ↦ elim (Bool-cases (is_text "content_block_start" kind)) [
            | inl is ↦
                rw (not_1, is)
                  (ap (known k) (on_block_start-usage now (get d event "content_block") st))
            | inr not_2 ↦ elim (Bool-cases (is_text "content_block_delta" kind)) [
              | inl is ↦
                  rw (not_1, not_2, is)
                    (ap (known k) (on_block_delta-usage now (get d event "delta") st))
              | inr not_3 ↦ elim (Bool-cases (is_text "message_delta" kind)) [
                | inl is ↦ rw (not_1, not_2, not_3, is) (on_message_delta-Held event st)
                | inr not_4 ↦ rw (not_1, not_2, not_3, not_4)
              ]
            ]
          ]
        ]

    first_some_assoc :
        (a b c : Option ℤ) → first_some a (first_some b c) ≡ first_some (first_some a b) c
    first_some_assoc none b c = refl
    first_some_assoc (some n) b c = refl

    observe_all-Held :
        (cs : List (ℤ × Value)) (st : State)
        → Held (last_reported k cs) st (observe_all (observe d objects) cs st)
    unfolding observe_all observe_chunk last_reported
    observe_all-Held [] st = refl
    observe_all-Held ((now, event) ∷ cs) st =
        let st' : State = record st { chunks = suc st.chunks } in
        observe_all-Held cs (observe d objects now event st').1
        ∙ ap (λ (n : Option ℤ). first_some (last_reported k cs) n) (observe-Held now event st')
        ∙ first_some_assoc (last_reported k cs) _ (known k st.own.usage)

  first_some-none : (a : Option ℤ) → first_some a none ≡ a
  first_some-none none = refl
  first_some-none (some n) = refl

  pub held :
      (k : String) (track : Tracked k) (cs : List (ℤ × Value)) (st : State)
      → st.own.usage ≡ end
      → strict_int (get d (mapping (observe_all (observe d objects) cs st).own.usage) k)
        ≡ last_reported k cs
  unfolding get get_field strict_int
  held k track cs st fresh =
      observe_all-Held k track cs st
      ∙ ap (λ (fs : Fields). first_some (last_reported k cs) (known k fs)) fresh
      ∙ first_some-none (last_reported k cs)
