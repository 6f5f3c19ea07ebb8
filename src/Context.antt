-- ===== src/Context.antt =====
-- llm_metrics/context.py: the three context variables, and what its context managers do to them
-- on the way in and on the way out. A live trace or observation is named by its address.
use llm_metrics.Prelude.{ℕ, String, Bool, ◌&&◌, not, Option, none, some, is_some}

-- `_TRACE`, `_PARENT_ID`, `_OBSERVATION`
pub record Context : Type 0 where
  pub trace : Option ℕ
  pub parent_id : Option String
  pub observation : Option ℕ

abbrev pub outside : Context
outside = record { trace = none; parent_id = none; observation = none }

-- `use_trace`: the variables on entry
unfoldable pub enter_trace : ℕ → Context → Context
enter_trace t c = record { trace = some t; parent_id = none; observation = none }

-- The three tokens of `use_trace` and `adopt` put back the values of `saved`.
unfoldable pub exit_all : Context → Context → Context
exit_all saved c = record c {
  observation = saved.observation;
  parent_id = saved.parent_id;
  trace = saved.trace;
}

-- `use_observation`, with the observation's address and its id
unfoldable pub enter_observation : ℕ → String → Context → Context
enter_observation o id c = record c { parent_id = some id; observation = some o }

-- its two tokens
unfoldable pub exit_observation : Context → Context → Context
exit_observation saved c = record c { observation = saved.observation; parent_id = saved.parent_id }

-- `ContextSnapshot` holds the same three values.
unfoldable pub snapshot : Context → Context
snapshot c = record { trace = c.trace; parent_id = c.parent_id; observation = c.observation }

unfoldable is_empty : Context → Bool
is_empty snap = not (is_some snap.trace) && not (is_some snap.parent_id)

-- `adopt`, on entry
unfoldable enter_adopt : Context → Context → Context
enter_adopt snap c = record c {
  trace = snap.trace;
  parent_id = snap.parent_id;
  observation = snap.observation;
}
