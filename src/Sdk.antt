-- ===== src/Sdk.antt =====
-- The state that llm_metrics/decorator.py and llm_metrics/annotate.py work on: the pipeline, the
-- context of the running task, and the live traces and observations, by address. The clocks, the
-- random source and the ids belong to the host: they are the fields of `Platform`, over a state
-- `W` of the world.
use llm_metrics.Prelude.{ℕ, String, Bool, Option, none, some, ◌==◌, if◌then◌else◌}
use llm_metrics.Prelude.Int.{ℤ}
use llm_metrics.Models.{Trace, Observation, Score, DateTime}
use llm_metrics.Context.{Context}
use llm_metrics.Runtime
use llm_metrics.Runtime.{Runtime}

-- what is handed to the buffer: the object itself, which is serialised later
pub data Event : Type 0 where
  trace observation : ℕ → Event
  score : Score → Event

pub record Platform (W : Type 0) : Type 0 where
  -- `uuid.uuid4`, by the number of ids made before
  pub new_id : ℕ → String
  -- always in UTC, so that the constructors leave it as it is
  pub utcnow : W → DateTime
  -- `time.perf_counter`, in nanoseconds
  pub perf_counter : W → ℤ
  -- `random.random() < rate`
  pub draw_below : ℤ → W → Bool × W

pub record Sdk (W : Type 0) : Type 0 where
  pub runtime : Runtime Event
  pub context : Context
  pub traces : ℕ → Option Trace
  pub observations : ℕ → Option Observation
  -- the number of ids made, and the next free address
  pub next : ℕ
  pub world : W

-- `store[k] = v`
abbrev pub update {ℓ} : {A : Type ℓ} → (ℕ → Option A) → ℕ → A → ℕ → Option A
update f k v j = if k == j then some v else f j

module _ {W : Type 0} where
  unfoldable pub emit : Event → Sdk W → Sdk W
  emit e s = record s { runtime = Runtime.emit e s.runtime }

  unfoldable pub put_trace : ℕ → Trace → Sdk W → Sdk W
  put_trace t v s = record s { traces = update s.traces t v }

  unfoldable pub put_observation : ℕ → Observation → Sdk W → Sdk W
  put_observation o v s = record s { observations = update s.observations o v }

  -- change a live object in place, by the value it has
  unfoldable pub set_trace : ℕ → (Trace → Trace) → Option Trace → Sdk W → Sdk W
  unfolding put_trace
  set_trace t f none s = s
  set_trace t f (some v) s = put_trace t (f v) s

  unfoldable pub set_observation :
      ℕ → (Observation → Observation) → Option Observation → Sdk W → Sdk W
  unfolding put_observation
  set_observation o f none s = s
  set_observation o f (some v) s = put_observation o (f v) s

  unfoldable pub modify_trace : ℕ → (Trace → Trace) → Sdk W → Sdk W
  unfolding set_trace
  modify_trace t f s = set_trace t f (s.traces t) s

  unfoldable pub modify_observation : ℕ → (Observation → Observation) → Sdk W → Sdk W
  unfolding set_observation
  modify_observation o f s = set_observation o f (s.observations o) s
