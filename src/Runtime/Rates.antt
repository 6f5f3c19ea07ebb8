-- ===== src/Runtime/Rates.antt =====
-- The sample rate of llm_metrics/_runtime.py, from the environment and through reconfigurations.
use llm_metrics.Prelude.{
  ℕ, String, Bool, true, false, Option, none, some, List, [], ◌∷◌, ◌≡◌, refl, arith, Bool-cases,
  Option-cases, inl, inr, ◌∙◌,
}
use llm_metrics.Prelude.Int.{ℤ, pos, ◌≤ℤ◌}
use llm_metrics.Runtime.{
  Settings, Runtime, Configure, one, clamp_rate, update_settings, call, retire, install_client,
  install_buffer, install_sink, rebuilds, is_same, is_buildable, configure, sink_of, add_to,
  emit_when, emit, sink, flush_from, flush, shutdown,
}
use llm_metrics.Runtime.Retire.{Op, configures, emits, flushes, shuts_down, step, run}
use llm_metrics.Runtime.Environment.{
  Float, finite, infinity, minus_infinity, not_a_number, clamp_float, Environ, rate_or_one,
  env_sample_rate, initial_settings, initial,
}

abbrev pub InRange : ℤ → Type 0
InRange rate = (pos 0 ≤ℤ rate) × (rate ≤ℤ one)

clamp_rate-InRange : (rate : ℤ) → InRange (clamp_rate rate)
unfolding clamp_rate
clamp_rate-InRange rate = ground arith

clamp_float-InRange : (rate : Float) → InRange (clamp_float rate)
unfolding clamp_float
clamp_float-InRange (finite rate) = clamp_rate-InRange rate
clamp_float-InRange infinity = (omega arith, omega arith)
clamp_float-InRange minus_infinity = (omega arith, omega arith)
clamp_float-InRange not_a_number = (omega arith, omega arith)

rate_or_one-InRange : (rate : Option Float) → InRange (rate_or_one rate)
rate_or_one-InRange none = (omega arith, omega arith)
rate_or_one-InRange (some rate) = clamp_float-InRange rate

env_sample_rate-InRange : (env : Environ) (raw : Option String) → InRange (env_sample_rate env raw)
unfolding env_sample_rate
env_sample_rate-InRange env none = rate_or_one-InRange none
env_sample_rate-InRange env (some raw) = rate_or_one-InRange (env.parse_float raw)

update_settings-InRange :
    (a : Configure) (s : Settings)
    → InRange s.sample_rate
    → InRange (update_settings a s).sample_rate
unfolding update_settings
update_settings-InRange a s h = elim (Option-cases (a.sample_rate)) [
  | inl is ↦ rw is h
  | inr (rate, is) ↦ rw is (clamp_rate-InRange rate)
]

module _ {E : Type 0} where
  retire-settings :
      (bo co : Option ℕ) (t : Option ℤ) (r : Runtime E) → (retire bo co t r).settings ≡ r.settings
  unfolding retire call
  retire-settings none none t r = refl
  retire-settings none (some c) t r = refl
  retire-settings (some b) none t r = refl
  retire-settings (some b) (some c) t r = refl

  configure-settings :
      (a : Configure) (r : Runtime E) → (configure a r).1.settings ≡ update_settings a r.settings
  unfolding configure install_sink install_client install_buffer call
  configure-settings a r = elim (Bool-cases (rebuilds a)) [
    | inr light ↦ rw light
    | inl again ↦ elim (Option-cases (a.sink)) [
      | inl own ↦ elim (Bool-cases (is_buildable a)) [
        | inl fine ↦ rw (again, own, fine) (retire-settings r.buffer r.client none _)
        | inr bad ↦ rw (again, own, bad)
      ]
      | inr (b, given) ↦ elim (Bool-cases (is_same b r.buffer)) [
        | inl same ↦ rw (again, given, same)
        | inr new ↦ rw (again, given, new) (retire-settings r.buffer r.client none _)
      ]
    ]
  ]

  sink_of-settings :
      (bo : Option ℕ) (on : Bool) (r : Runtime E) → (sink_of bo on r).1.settings ≡ r.settings
  unfolding sink_of install_client install_buffer call
  sink_of-settings (some b) on r = refl
  sink_of-settings none true r = refl
  sink_of-settings none false r = refl

  add_to-settings : (bo : Option ℕ) (e : E) (r : Runtime E) → (add_to bo e r).settings ≡ r.settings
  unfolding add_to call
  add_to-settings none e r = refl
  add_to-settings (some b) e r = refl

  emit_when-settings :
      (on : Bool) (e : E) (r : Runtime E) → (emit_when on e r).settings ≡ r.settings
  unfolding emit_when sink
  emit_when-settings true e r =
      add_to-settings _ e _ ∙ sink_of-settings r.buffer r.settings.enabled r
  emit_when-settings false e r = refl

  flush_from-settings :
      (bo : Option ℕ) (t : Option ℤ) (r : Runtime E) → (flush_from bo t r).settings ≡ r.settings
  unfolding flush_from call
  flush_from-settings none t r = refl
  flush_from-settings (some b) t r = refl

  step-InRange :
      (op : Op E) (r : Runtime E)
      → InRange r.settings.sample_rate
      → InRange (step op r).settings.sample_rate
  unfolding step emit flush shutdown
  step-InRange (configures a) r h =
      rw (configure-settings a r) (update_settings-InRange a r.settings h)
  step-InRange (emits e) r h = rw (emit_when-settings r.settings.enabled e r) h
  step-InRange (flushes t) r h = rw (flush_from-settings r.buffer t r) h
  step-InRange (shuts_down t) r h = rw (retire-settings r.buffer r.client t _) h

  run-InRange :
      (ops : List (Op E)) (r : Runtime E)
      → InRange r.settings.sample_rate
      → InRange (run ops r).settings.sample_rate
  unfolding run
  run-InRange [] r h = h
  run-InRange (op ∷ ops) r h = run-InRange ops (step op r) (step-InRange op r h)

  -- Whatever the environment variables hold, and whatever calls of `configure` (also ones that
  -- raise), `emit`, `flush` and `shutdown` follow, with whatever finite rates: the sample rate is never
  -- below 0 and never above 1.
  pub run-initial-InRange :
      (env : Environ) (ops : List (Op E)) → InRange (run ops (initial env)).settings.sample_rate
  unfolding initial initial_settings
  run-initial-InRange env ops =
      run-InRange ops (initial env)
        (env_sample_rate-InRange env (env.lookup "LLM_METRICS_SAMPLE_RATE"))
