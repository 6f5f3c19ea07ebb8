-- ===== src/Runtime.antt =====
-- llm_metrics/_runtime.py: the settings, and the default pipeline of one buffer and one client.
-- Buffers and clients are named by addresses; what is done to them is the list `calls`, oldest
-- first. `E` is the type of events.
pub mod Retire
pub mod Environment
pub mod Rates
use llm_metrics.Prelude.{
  ℕ, suc, ◌+◌, String, Bool, true, false, ◌||◌, Option, none, some, List, [], ◌∷◌, ◌++◌, ◌==◌, leb,
  ◌&&◌, not, if◌then◌else◌, or_else, is_some,
}
use llm_metrics.Prelude.Int.{ℤ, pos, leb_ℤ}
use llm_metrics.Value.{Value}

-- A rate is in millionths.
pub record Settings : Type 0 where
  pub enabled : Bool
  pub capture_input : Bool
  pub capture_output : Bool
  pub max_value_chars : ℕ
  pub environment : Option String
  pub release : Option String
  pub sample_rate : ℤ
  pub redact : Option (Value → Option Value)

abbrev pub one : ℤ
one = pos 1000000

-- `min(1.0, max(0.0, rate))`
unfoldable pub clamp_rate : ℤ → ℤ
clamp_rate rate =
    let low = if leb_ℤ rate (pos 0) then pos 0 else rate in if leb_ℤ low one then low else one

-- an argument that may be left out: `_UNSET`
pub data Arg (A : Type 0) : Type 0 where
  unset : Arg A
  given : A → Arg A

abbrev pub given_or : {A : Type 0} → Arg A → A → A
given_or unset d = d
given_or (given a) d = a

abbrev is_given : {A : Type 0} → Arg A → Bool
is_given unset = false
is_given (given a) = true

-- The arguments of `configure`. For those where `None` means "not mentioned" the model has an
-- `Option`; the transport's are texts and numbers that are only passed on.
pub record Configure : Type 0 where
  pub enabled : Option Bool
  pub capture_input : Option Bool
  pub capture_output : Option Bool
  pub max_value_chars : Option ℕ
  pub environment : Arg (Option String)
  pub release : Arg (Option String)
  pub sample_rate : Option ℤ
  pub redact : Arg (Option (Value → Option Value))
  pub api_key : Arg String
  pub host : Arg String
  pub max_size : Arg ℕ
  pub flush_at : Arg ℕ
  pub flush_interval : Arg ℤ
  pub shutdown_timeout : Arg ℤ
  pub sink : Option ℕ

pub data Call (E : Type 0) : Type 0 where
  new_client : ℕ → Arg String → Arg String → Call E
  -- the buffer, the client whose `send` it flushes to, and its four parameters
  new_buffer : ℕ → ℕ → ℕ → ℕ → ℤ → ℤ → Call E
  add : ℕ → E → Call E
  flush_once : ℕ → Option ℤ → Call E
  shut_down : ℕ → Option ℤ → Call E
  close : ℕ → Call E

pub record Runtime (E : Type 0) : Type 0 where
  pub settings : Settings
  pub buffer : Option ℕ
  pub client : Option ℕ
  pub overridden : Bool
  -- the next free address
  pub next : ℕ
  pub calls : List (Call E)

unfoldable pub update_settings : Configure → Settings → Settings
unfolding clamp_rate
update_settings a s = record {
  enabled = or_else a.enabled s.enabled;
  capture_input = or_else a.capture_input s.capture_input;
  capture_output = or_else a.capture_output s.capture_output;
  max_value_chars = or_else a.max_value_chars s.max_value_chars;
  environment = given_or a.environment s.environment;
  release = given_or a.release s.release;
  sample_rate = elim a.sample_rate [ none ↦ s.sample_rate | some r ↦ clamp_rate r ];
  redact = given_or a.redact s.redact;
}

-- `rebuild`
unfoldable pub rebuilds : Configure → Bool
rebuilds a =
    is_some a.sink
    || (is_given a.api_key
        || is_given a.host
        || is_given a.max_size
        || is_given a.flush_at
        || is_given a.flush_interval
        || is_given a.shutdown_timeout)

-- `sink is retire_buffer`
unfoldable pub is_same : ℕ → Option ℕ → Bool
is_same b none = false
is_same b (some b') = b == b'

abbrev pub defaults : Configure
defaults = record {
  enabled = none;
  capture_input = none;
  capture_output = none;
  max_value_chars = none;
  environment = unset;
  release = unset;
  sample_rate = none;
  redact = unset;
  api_key = unset;
  host = unset;
  max_size = unset;
  flush_at = unset;
  flush_interval = unset;
  shutdown_timeout = unset;
  sink = none;
}

-- the checks of the buffer's constructor
unfoldable pub is_buildable : Configure → Bool
is_buildable a =
    leb 1 (given_or a.max_size 10000)
    && leb 1 (given_or a.flush_at 100)
    && not (leb_ℤ (given_or a.flush_interval (pos 5000000)) (pos 0))

module _ {E : Type 0} where
  unfoldable pub call : Call E → Runtime E → Runtime E
  call c r = record r { calls = r.calls ++ c ∷ [] }

  -- `_retire`: the buffer first, then the client
  unfoldable pub retire : Option ℕ → Option ℕ → Option ℤ → Runtime E → Runtime E
  unfolding call
  retire none none timeout r = r
  retire none (some c) timeout r = call (close c) r
  retire (some b) none timeout r = call (shut_down b timeout) r
  retire (some b) (some c) timeout r = call (close c) (call (shut_down b timeout) r)

  -- `_client = IngestClient(…)`
  unfoldable pub install_client : Configure → Runtime E → Runtime E
  unfolding call
  install_client a r =
      let r' = call (new_client r.next a.api_key a.host) r in
      record r' { client = some r.next; next = suc r.next }

  -- `_buffer = EventBuffer(_client.send, …)`, flushing to the client `c`
  unfoldable pub install_buffer : Configure → ℕ → Runtime E → Runtime E
  unfolding call
  install_buffer a c r =
      let r' =
        call
          (new_buffer r.next c (given_or a.max_size 10000) (given_or a.flush_at 100)
            (given_or a.flush_interval (pos 5000000)) (given_or a.shutdown_timeout (pos 5000000)))
          r in
      record r' { buffer = some r.next; next = suc r.next }

  -- the branch of `configure` with a sink of the caller's
  unfoldable pub install_sink : ℕ → Runtime E → Runtime E
  install_sink b r = record r { buffer = some b; client = none; overridden = true }

  -- `configure`: whether it returned, or raised the `ValueError` of the buffer's constructor
  unfoldable pub configure : Configure → Runtime E → Bool × Runtime E
  unfolding update_settings rebuilds is_buildable is_same retire install_client install_buffer
      install_sink
  configure a r =
      let r' = record r { settings = update_settings a r.settings } in
      if rebuilds a
      then elim a.sink [
        | some b ↦
            if is_same b r.buffer
            then (true, install_sink b r')
            else (true, retire r.buffer r.client none (install_sink b r'))
        | none ↦
            let r'' = install_client a r' in
            if is_buildable a
            then (
              true,
              retire r.buffer r.client none
                  (record (install_buffer a r.next r'') { overridden = false }),
            )
            else (false, r'')
      ]
      else (true, r')

  -- `_sink`, by the current buffer and the `enabled` setting; `_install_default_locked` builds
  -- both objects with their default arguments
  unfoldable pub sink_of : Option ℕ → Bool → Runtime E → Option ℕ × Runtime E
  unfolding install_client install_buffer
  sink_of (some b) on r = (some b, r)
  sink_of none true r =
      let r' = install_buffer defaults r.next (install_client defaults r) in (r'.buffer, r')
  sink_of none false r = (none, r)

  unfoldable pub sink : Runtime E → Option ℕ × Runtime E
  unfolding sink_of
  sink r = sink_of r.buffer r.settings.enabled r

  unfoldable pub add_to : Option ℕ → E → Runtime E → Runtime E
  unfolding call
  add_to none e r = r
  add_to (some b) e r = call (add b e) r

  -- `emit`, by the `enabled` setting
  unfoldable pub emit_when : Bool → E → Runtime E → Runtime E
  unfolding sink add_to
  emit_when true e r = let (b, r') = sink r in add_to b e r'
  emit_when false e r = r

  unfoldable pub emit : E → Runtime E → Runtime E
  unfolding emit_when
  emit e r = emit_when r.settings.enabled e r

  -- `flush`, by the current buffer; its result is the buffer's, and `False` without one
  unfoldable pub flush_from : Option ℕ → Option ℤ → Runtime E → Runtime E
  unfolding call
  flush_from none timeout r = r
  flush_from (some b) timeout r = call (flush_once b timeout) r

  unfoldable pub flush : Option ℤ → Runtime E → Runtime E
  unfolding flush_from
  flush timeout r = flush_from r.buffer timeout r

  unfoldable pub shutdown : Option ℤ → Runtime E → Runtime E
  unfolding retire
  shutdown timeout r =
      retire r.buffer r.client timeout
        (record r { buffer = none; client = none; overridden = false })
