-- ===== src/Annotate.antt =====
-- llm_metrics/annotate.py: what the code inside a traced call adds to its trace and observation.
-- The keys of a metadata argument are texts. A Python argument that is not given is `unset` where
-- `None` means "clear this", and `none` elsewhere.
pub mod Laws
pub mod Silence
use llm_metrics.Prelude.{
  ℕ, suc, String, Bool, true, false, ◌||◌, Option, none, some, List, [], ◌∷◌, ◌++◌, is_some,
  or_else, first_some, str_eq, if◌then◌else◌,
}
use llm_metrics.Prelude.Int.{ℤ}
use llm_metrics.Value.{Value, Fields, put_field, end}
use llm_metrics.Models.{Trace, Observation, Score}
use llm_metrics.Runtime.{Arg, given_or}
use llm_metrics.Sdk.{
  Event, Platform, Sdk, emit, modify_trace, modify_observation, put_trace, put_observation,
}

pub record TraceUpdate : Type 0 where
  pub name : Option String
  pub user_id : Arg (Option String)
  pub session_id : Arg (Option String)
  pub tags : List String
  pub metadata : List (String × Value)

pub record ObservationUpdate : Type 0 where
  pub name : Option String
  pub model : Option String
  pub prompt_name : Option String
  -- `str(prompt_version)`
  pub prompt_version : Option String
  pub prompt_tokens : Option ℤ
  pub completion_tokens : Option ℤ
  pub cached_tokens : Option ℤ
  pub reasoning_tokens : Option ℤ
  pub metadata : List (String × Value)

pub record ScoreCall : Type 0 where
  pub name : String
  pub value : Value
  pub trace_id : Option String
  pub observation_id : Option String
  pub comment : Option String
  pub source : String
  pub metadata : List (String × Value)

-- `metadata.update(…)`
unfoldable merge : List (String × Value) → Fields → Fields
merge [] fs = fs
merge ((k, v) ∷ kvs) fs = merge kvs (put_field k v fs)

-- `tag in tags`
unfoldable pub has : String → List String → Bool
has t [] = false
has t (u ∷ us) = str_eq t u || has t us

-- the loop over the new tags
unfoldable pub add_tags : List String → List String → List String
unfolding has
add_tags [] ts = ts
add_tags (t ∷ new) ts = add_tags new (if has t ts then ts else (ts ++ t ∷ []))

-- `if name: … = name`
unfoldable rename : Option String → String → String
rename none old = old
rename (some new) old = if str_eq new "" then old else new

unfoldable annotate_trace : TraceUpdate → Trace → Trace
unfolding merge add_tags rename
annotate_trace u t = record t {
  name = rename u.name t.name;
  user_id = given_or u.user_id t.user_id;
  session_id = given_or u.session_id t.session_id;
  tags = add_tags u.tags t.tags;
  metadata = merge u.metadata t.metadata;
}

unfoldable annotate_observation : ObservationUpdate → Observation → Observation
unfolding merge rename
annotate_observation u o = record o {
  name = rename u.name o.name;
  model = elim u.model as (λ _. Value) [ none ↦ o.model | some m ↦ Value.text m ];
  prompt_name = first_some u.prompt_name o.prompt_name;
  prompt_version = first_some u.prompt_version o.prompt_version;
  prompt_tokens = first_some u.prompt_tokens o.prompt_tokens;
  completion_tokens = first_some u.completion_tokens o.completion_tokens;
  cached_tokens = first_some u.cached_tokens o.cached_tokens;
  reasoning_tokens = first_some u.reasoning_tokens o.reasoning_tokens;
  metadata = merge u.metadata o.metadata;
}

-- the live object that a context variable holds
unfoldable pub live {ℓ} : {A : Type ℓ} → (ℕ → Option A) → Option ℕ → Option A
live store none = none
live store (some k) = store k

module _ {W : Type 0} where
  -- `update_trace`, by the current trace
  unfoldable update_trace_at : TraceUpdate → Option ℕ → Sdk W → Bool × Sdk W
  unfolding annotate_trace modify_trace
  update_trace_at u none s = (false, s)
  update_trace_at u (some t) s = (true, modify_trace t (annotate_trace u) s)

  unfoldable pub update_trace : TraceUpdate → Sdk W → Bool × Sdk W
  unfolding update_trace_at
  update_trace u s = update_trace_at u s.context.trace s

  unfoldable update_observation_at : ObservationUpdate → Option ℕ → Sdk W → Bool × Sdk W
  unfolding annotate_observation modify_observation
  update_observation_at u none s = (false, s)
  update_observation_at u (some o) s = (true, modify_observation o (annotate_observation u) s)

  unfoldable pub update_observation : ObservationUpdate → Sdk W → Bool × Sdk W
  unfolding update_observation_at
  update_observation u s = update_observation_at u s.context.observation s

-- `observation.id if observation is not None else None`
abbrev pub id_of : Option Observation → Option String
id_of none = none
id_of (some o) = some o.id

module _ {W : Type 0} (p : Platform W) where
  -- the last lines of `score`: build the event, hand it over, and return its id
  unfoldable record_score :
      ScoreCall → Option String → Option String → Sdk W → Option String × Sdk W
  unfolding emit merge
  record_score c trace_id observation_id s =
      let event : Score = record {
        id = p.new_id s.next;
        name = c.name;
        value = c.value;
        trace_id = trace_id;
        observation_id = observation_id;
        comment = c.comment;
        source = c.source;
        metadata = merge c.metadata end;
        timestamp = p.utcnow s.world;
      } in
      (some event.id, emit (Event.score event) (record s { next = suc s.next }))

  -- `score` without ids, by the current trace and observation
  unfoldable pub score_ambient :
      ScoreCall → Option Trace → Option Observation → Sdk W → Option String × Sdk W
  unfolding record_score
  score_ambient c none o s = (none, s)
  score_ambient c (some t) o s =
      if t.sampled then record_score c (some t.id) (id_of o) s else (none, s)

  unfoldable pub score : ScoreCall → Sdk W → Option String × Sdk W
  unfolding score_ambient record_score live
  score c s =
      if s.runtime.settings.enabled
      then (if is_some c.trace_id || is_some c.observation_id
          then record_score c c.trace_id c.observation_id s
          else score_ambient c (live s.traces s.context.trace)
              (live s.observations s.context.observation) s)
      else (none, s)
