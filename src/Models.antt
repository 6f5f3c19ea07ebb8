-- ===== src/Models.antt =====
-- llm_metrics/models.py: the events that go over the wire, and their payloads.
pub mod Wire
use llm_metrics.Prelude.{
  ℕ, suc, ◌*◌, map, first_some, String, Bool, Option, none, some, List, [], ◌∷◌, if◌then◌else◌,
  text_take, ◌⧺◌,
}
use llm_metrics.Prelude.Int.{ℤ, pos, negsuc, sub_ℕ, ◌-ℤ◌}
use llm_metrics.Value.{
  Value, null, int, float, text, sequence, mapping, Fields, fields_of, put_field, items_of,
}

-- A datetime: the wall clock in microseconds, and the offset of its zone, if it has one.
pub record DateTime : Type 0 where
  pub wall : ℤ
  pub offset : Option ℤ

-- a naive datetime gets UTC, an aware one is moved there
unfoldable as_utc : DateTime → DateTime
as_utc d = elim d.offset [
  | none ↦ record d { offset = some (pos 0) }
  | some o ↦ record { wall = d.wall -ℤ o; offset = some (pos 0) }
]

pub data ObservationStatus : Type 0 where
  ok error : ObservationStatus

abbrev pub status_text : ObservationStatus → String
status_text ok = "ok"
status_text error = "error"

pub record Trace : Type 0 where
  pub id : String
  pub name : String
  pub user_id : Option String
  pub session_id : Option String
  pub tags : List String
  pub environment : Option String
  pub release : Option String
  pub metadata : Fields
  pub start_time : DateTime
  pub end_time : Option DateTime
  pub sampled : Bool

-- Token counts are Python ints, `latency_ms` is in millionths of a millisecond.
-- `model` is what a provider calls its model, a text or `None` in general.
pub record Observation : Type 0 where
  pub id : String
  pub trace_id : String
  pub name : String
  pub parent_id : Option String
  pub type : String
  pub model : Value
  pub input : Value
  pub output : Value
  pub prompt_tokens : Option ℤ
  pub completion_tokens : Option ℤ
  pub cached_tokens : Option ℤ
  pub reasoning_tokens : Option ℤ
  pub latency_ms : Option ℤ
  pub prompt_name : Option String
  pub prompt_version : Option String
  pub status : ObservationStatus
  pub status_message : Option String
  pub metadata : Fields
  pub start_time : DateTime
  pub end_time : Option DateTime

pub record Score : Type 0 where
  pub id : String
  pub name : String
  pub value : Value
  pub trace_id : Option String
  pub observation_id : Option String
  pub comment : Option String
  pub source : String
  pub metadata : Fields
  pub timestamp : DateTime

-- An exception, by its type's name and its text; `str(exc)` of some raises.
pub record Exception : Type 0 where
  pub type_name : String
  pub message : Option String

-- `f"{type(exc).__name__}: {exc}"[:500]`, where the text is there; without it the old one stays
unfoldable failure_text : Exception → Option String → Option String
failure_text e old = elim (e.message) as (λ _. Option String) [
  | none ↦ old
  | some m ↦ some (text_take 500 (e.type_name ⧺ ": " ⧺ m))
]

-- `Observation.fail`, as it leaves the observation, also if `str(exc)` raises
unfoldable pub fail : Exception → Observation → Observation
unfolding failure_text
fail e o = record o { status = error; status_message = failure_text e o.status_message }

-- `Trace.end`, at `now`; the last call wins
unfoldable pub end_trace : DateTime → Trace → Trace
end_trace now t = record t { end_time = some now }

-- a span of microseconds, in millionths of a millisecond
abbrev thousandfold : ℤ → ℤ
thousandfold (pos n) = pos (n * 1000)
thousandfold (negsuc n) = sub_ℕ 0 (suc n * 1000)

-- `Observation.end`: the wall clock gives the latency only if nothing finer has
unfoldable pub end_observation : DateTime → Observation → Observation
end_observation now o = record o {
  end_time = some now;
  latency_ms = first_some o.latency_ms (some (thousandfold (now.wall -ℤ o.start_time.wall)));
}

abbrev pub opt_text : Option String → Value
opt_text none = null
opt_text (some s) = text s

abbrev opt_int : Option ℤ → Value
opt_int none = null
opt_int (some n) = int n

abbrev opt_float : Option ℤ → Value
opt_float none = null
opt_float (some n) = float n

-- `_put`: a key whose value is `None` is left out
unfoldable pub put : String → Value → Fields → Fields
put key null payload = payload
put key v payload = put_field key v payload

-- `if self.tags: payload["tags"] = list(self.tags)`
unfoldable pub put_tags : List String → Fields → Fields
put_tags [] payload = payload
put_tags (t ∷ ts) payload = put_field "tags" (sequence (items_of (map text (t ∷ ts)))) payload

-- `isoformat` of a datetime that has its zone
module _ (isoformat : DateTime → String) where
  unfoldable pub iso : Option DateTime → Value
  unfolding as_utc
  iso none = null
  iso (some d) = text (isoformat (as_utc d))

  unfoldable pub trace_payload : Trace → Fields
  trace_payload t =
      let always = fields_of (
        ("id", text t.id)
        ∷ ("type", text "trace")
        ∷ ("name", text t.name)
        ∷ ("metadata", mapping t.metadata)
        ∷ ("start_time", iso (some t.start_time))
        ∷ []) in
      let users =
        put "session_id" (opt_text t.session_id) (put "user_id" (opt_text t.user_id) always) in
      let tagged = put_tags t.tags users in
      put "end_time" (iso t.end_time)
        (put "release" (opt_text t.release) (put "environment" (opt_text t.environment) tagged))

  unfoldable pub observation_payload : Observation → Fields
  observation_payload o =
      let always = fields_of (
        ("id", text o.id)
        ∷ ("type", text o.type)
        ∷ ("trace_id", text o.trace_id)
        ∷ ("name", text o.name)
        ∷ ("status", text (status_text o.status))
        ∷ ("metadata", mapping o.metadata)
        ∷ ("start_time", iso (some o.start_time))
        ∷ []) in
      let who =
        put "status_message" (opt_text o.status_message)
          (put "parent_id" (opt_text o.parent_id) always) in
      let what = put "output" o.output (put "input" o.input (put "model" o.model who)) in
      let tokens = put "reasoning_tokens" (opt_int o.reasoning_tokens) (
        put "cached_tokens" (opt_int o.cached_tokens) (
          put "completion_tokens" (opt_int o.completion_tokens)
            (put "prompt_tokens" (opt_int o.prompt_tokens) what))) in
      put "end_time" (iso o.end_time) (
        put "prompt_version" (opt_text o.prompt_version) (
          put "prompt_name" (opt_text o.prompt_name)
            (put "latency_ms" (opt_float o.latency_ms) tokens)))

  unfoldable score_payload : Score → Fields
  score_payload s =
      let always = fields_of (
        ("id", text s.id)
        ∷ ("type", text "score")
        ∷ ("name", text s.name)
        ∷ ("value", s.value)
        ∷ ("source", text s.source)
        ∷ ("metadata", mapping s.metadata)
        ∷ ("timestamp", iso (some s.timestamp))
        ∷ []) in
      put "comment" (opt_text s.comment) (
        put "observation_id" (opt_text s.observation_id)
          (put "trace_id" (opt_text s.trace_id) always))
