-- ===== src/Runtime/Retire.antt =====
-- How often the buffers of llm_metrics/_runtime.py are built and shut down.
use llm_metrics.Prelude.{
  ◌∙◌, ℕ, suc, ◌+◌, ◌≤◌, ◌≡◌, refl, Bool, true, false, Option, none, some, List, [], ◌∷◌, ◌++◌,
  arith, ◌==◌, if◌then◌else◌, Bool-cases, inl, inr, ap, All,
}
use llm_metrics.Prelude.Int.{ℤ}
use llm_metrics.Runtime.{
  Runtime, Configure, Call, new_client, new_buffer, add, flush_once, shut_down, close, call, retire,
  defaults, install_client, install_buffer, is_buildable, rebuilds, configure, sink_of, add_to,
  emit_when, emit, flush, flush_from, shutdown, update_settings,
}

abbrev is_at : ℕ → ℕ → ℕ
is_at b b' = if b' == b then 1 else 0

-- 1 if `b` is the installed buffer
abbrev pub installed : ℕ → Option ℕ → ℕ
installed b none = 0
installed b (some b') = is_at b b'

pub data Op (E : Type 0) : Type 0 where
  configures : Configure → Op E
  emits : E → Op E
  flushes : Option ℤ → Op E
  shuts_down : Option ℤ → Op E

-- the configuration names no sink of the caller's own
abbrev OwnsTransport : {E : Type 0} → Op E → Type 0
OwnsTransport (configures a) = a.sink ≡ none
OwnsTransport _ = Unit

module _ {E : Type 0} where
  abbrev built_by : ℕ → Call E → ℕ
  built_by b (new_buffer b' c m f i t) = is_at b b'
  built_by b _ = 0

  abbrev shut_by : ℕ → Call E → ℕ
  shut_by b (shut_down b' t) = is_at b b'
  shut_by b _ = 0

  -- how often the buffer `b` was built, and how often it was shut down
  unfoldable pub built : ℕ → List (Call E) → ℕ
  built b [] = 0
  built b (c ∷ cs) = built_by b c + built b cs

  unfoldable pub shut : ℕ → List (Call E) → ℕ
  shut b [] = 0
  shut b (c ∷ cs) = shut_by b c + shut b cs

  -- Every buffer that was built is the installed one, or was shut down exactly once; addresses
  -- from `next` on are free.
  pub record Inv (r : Runtime E) : Type 0 where
    pub paired : (b : ℕ) → built b r.calls ≡ shut b r.calls + installed b r.buffer
    pub fresh : (b : ℕ) → r.next ≤ b → built b r.calls ≡ 0

  unfoldable pub step : Op E → Runtime E → Runtime E
  step (configures a) r = (configure a r).1
  step (emits e) r = emit e r
  step (flushes t) r = flush t r
  step (shuts_down t) r = shutdown t r

  unfoldable pub run : List (Op E) → Runtime E → Runtime E
  run [] r = r
  run (op ∷ ops) r = run ops (step op r)

  built-snoc :
      (b : ℕ) (cs : List (Call E)) (c : Call E) → built b (cs ++ c ∷ []) ≡ built b cs + built_by b c
  unfolding built
  built-snoc b [] c = omega arith
  built-snoc b (d ∷ cs) c = omega (arith, built-snoc b cs c)

  shut-snoc :
      (b : ℕ) (cs : List (Call E)) (c : Call E) → shut b (cs ++ c ∷ []) ≡ shut b cs + shut_by b c
  unfolding shut
  shut-snoc b [] c = omega arith
  shut-snoc b (d ∷ cs) c = omega (arith, shut-snoc b cs c)

  -- what an action on the pipeline adds to the two counts of `b`
  record Adds (b n m : ℕ) (r r' : Runtime E) : Type 0 where
    builds : built b r'.calls ≡ built b r.calls + n
    shuts : shut b r'.calls ≡ shut b r.calls + m

  call-Adds :
      (b : ℕ) (c : Call E) (r : Runtime E) → Adds b (built_by b c) (shut_by b c) r (call c r)
  unfolding call
  call-Adds b c r = record { builds = built-snoc b r.calls c; shuts = shut-snoc b r.calls c }

  retire-Adds :
      (b : ℕ) (bo co : Option ℕ) (t : Option ℤ) (r : Runtime E)
      → Adds b 0 (installed b bo) r (retire bo co t r)
  unfolding retire
  retire-Adds b none none t r = omega arith
  retire-Adds b none (some c) t r = omega (arith, call-Adds b (close c) r)
  retire-Adds b (some b') none t r = omega (arith, call-Adds b (shut_down b' t) r)
  retire-Adds b (some b') (some c) t r =
      omega (arith, call-Adds b (shut_down b' t) r, call-Adds b (close c) (call (shut_down b' t) r))

  retire_same :
      (bo co : Option ℕ) (t : Option ℤ) (r : Runtime E)
      → ((retire bo co t r).buffer ≡ r.buffer) × ((retire bo co t r).next ≡ r.next)
  unfolding retire
  retire_same none none t r = (refl, refl)
  retire_same none (some c) t r = (refl, refl)
  retire_same (some b) none t r = (refl, refl)
  retire_same (some b) (some c) t r = (refl, refl)

  install_client-Adds : (b : ℕ) (a : Configure) (r : Runtime E) → Adds b 0 0 r (install_client a r)
  unfolding install_client
  install_client-Adds b a r = omega (arith, call-Adds b (new_client r.next a.api_key a.host) r)

  install_buffer-Adds :
      (b : ℕ) (a : Configure) (c : ℕ) (r : Runtime E)
      → Adds b (is_at b r.next) 0 r (install_buffer a c r)
  unfolding install_buffer
  install_buffer-Adds b a c r = record {
    builds = built-snoc b r.calls _;
    shuts = shut-snoc b r.calls _;
  }

  -- The invariant, from what a step adds to the counts and where it leaves the buffer.
  shutdown-Inv : (t : Option ℤ) (r : Runtime E) → Inv r → Inv (shutdown t r)
  unfolding shutdown
  shutdown-Inv t r inv =
      let r' : Runtime E = record r { buffer = none; client = none; overridden = false } in
      let (same, next) = retire_same r.buffer r.client t r' in
      record {
        paired = λ b. rw same (omega (arith, inv.paired b, retire-Adds b r.buffer r.client t r'));
        fresh =
            λ b h. omega (arith, inv.fresh b (rw next at h), retire-Adds b r.buffer r.client t r');
      }

  -- A new pipeline beside the old one: the second address is the buffer's.
  built_pipeline :
      (b : ℕ) (a : Configure) (c : ℕ) (r : Runtime E)
      → Adds b (is_at b (suc r.next)) 0 r (install_buffer a c (install_client a r))
  built_pipeline b a c r =
      let p = install_client-Adds b a r in
      let q = install_buffer-Adds b a c (install_client a r) in
      unfold install_client in omega (arith, p, q)

  new_place :
      (a : Configure) (c : ℕ) (r : Runtime E)
      → let r' = install_buffer a c (install_client a r) in
        (r'.buffer ≡ some (suc r.next)) × (r'.next ≡ suc (suc r.next))
  unfolding install_client install_buffer
  new_place a c r = (refl, refl)

  -- Any step that builds as many buffers as it installs, and shuts the one down that it replaces.
  Adds-Inv :
      (r r' : Runtime E)
      → Inv r
      → ((b : ℕ) → Adds b (is_at b (suc r.next)) (installed b r.buffer) r r')
      → r'.buffer ≡ some (suc r.next)
      → r'.next ≡ suc (suc r.next)
      → Inv r'
  Adds-Inv r r' inv adds buffer next = record {
    paired = λ b. rw buffer (omega (arith, adds b, inv.paired b));
    fresh = λ b h.
        let above : suc (suc r.next) ≤ b = rw next at h in
        let elsewhere : is_at b (suc r.next) ≡ 0 = ground arith in
        omega (arith, adds b, inv.fresh b (omega arith), elsewhere);
  }

  sink_of-Inv :
      (bo : Option ℕ) (on : Bool) (r : Runtime E) → r.buffer ≡ bo → Inv r → Inv (sink_of bo on r).1
  unfolding sink_of
  sink_of-Inv (some b) on r there inv = inv
  sink_of-Inv none true r missing inv =
      let (buffer, next) = new_place defaults r.next r in
      let nothing = λ (b : ℕ). ap (installed b) missing in
      Adds-Inv r _ inv (λ b. omega (arith, built_pipeline b defaults r.next r, nothing b)) buffer
        next
  sink_of-Inv none false r missing inv = inv

  -- a call that neither builds a buffer nor shuts one down
  call-Inv :
      (c : Call E) (r : Runtime E)
      → ((b : ℕ) → built_by b c ≡ 0)
      → ((b : ℕ) → shut_by b c ≡ 0)
      → Inv r
      → Inv (call c r)
  unfolding call
  call-Inv c r builds shuts inv =
      let a = λ (b : ℕ). call-Adds b c r in
      record {
        paired = λ b. omega (arith, a b, builds b, shuts b, inv.paired b);
        fresh = λ b h. omega (arith, a b, builds b, inv.fresh b h);
      }

  add_to-Inv : (bo : Option ℕ) (e : E) (r : Runtime E) → Inv r → Inv (add_to bo e r)
  unfolding add_to
  add_to-Inv none e r inv = inv
  add_to-Inv (some b) e r inv = call-Inv (add b e) r (λ b'. refl) (λ b'. refl) inv

  flush_from-Inv : (bo : Option ℕ) (t : Option ℤ) (r : Runtime E) → Inv r → Inv (flush_from bo t r)
  unfolding flush_from
  flush_from-Inv none t r inv = inv
  flush_from-Inv (some b) t r inv = call-Inv (flush_once b t) r (λ b'. refl) (λ b'. refl) inv

  emit_when-Inv : (on : Bool) (e : E) (r : Runtime E) → Inv r → Inv (emit_when on e r)
  unfolding emit_when
  emit_when-Inv true e r inv = add_to-Inv _ e _ (sink_of-Inv r.buffer r.settings.enabled r refl inv)
  emit_when-Inv false e r inv = inv

  configure-Inv : (a : Configure) (r : Runtime E) → a.sink ≡ none → Inv r → Inv (configure a r).1
  unfolding configure
  configure-Inv a r own inv =
      let r' : Runtime E = record r { settings = update_settings a r.settings } in
      let inv' : Inv r' = record { paired = inv.paired; fresh = inv.fresh } in
      elim (Bool-cases (rebuilds a)) [
        | inl again ↦ elim (Bool-cases (is_buildable a)) [
          | inl fine ↦
              let new = install_buffer a r.next (install_client a r') in
              let r'' : Runtime E = record new { overridden = false } in
              let (buffer, next) = new_place a r.next r' in
              let (same, kept) = retire_same r.buffer r.client none r'' in
              rw (again, own, fine, configure)
                (Adds-Inv r' _ inv'
                  (λ b.
                    omega (
                      arith,
                      built_pipeline b a r.next r',
                      retire-Adds b r.buffer r.client none r'',
                    ))
                  (same ∙ buffer) (kept ∙ next))
          | inr bad ↦
              rw (again, own, bad, configure)
                (unfold install_client in
                  record {
                    paired = λ b. omega (arith, install_client-Adds b a r', inv.paired b);
                    fresh =
                        λ b h. omega (arith, install_client-Adds b a r', inv.fresh b (omega arith));
                  })
        ]
        | inr light ↦ rw (light, configure) inv'
      ]

  step-Inv : (op : Op E) (r : Runtime E) → OwnsTransport op → Inv r → Inv (step op r)
  unfolding step
  step-Inv (configures a) r own inv = configure-Inv a r own inv
  step-Inv (emits e) r own inv = unfold emit in emit_when-Inv r.settings.enabled e r inv
  step-Inv (flushes t) r own inv = unfold flush in flush_from-Inv r.buffer t r inv
  step-Inv (shuts_down t) r own inv = shutdown-Inv t r inv

  -- Starting from a state where it holds, and through any calls of `configure` without a sink of
  -- the caller (also ones that raise), `emit`, `flush` and `shutdown`: every buffer that was ever built is
  -- the installed one, not shut down, or was shut down exactly once, and the addresses that are
  -- handed out next are unused.
  pub run-Inv :
      (ops : List (Op E)) (r : Runtime E) → All OwnsTransport ops → Inv r → Inv (run ops r)
  unfolding run
  run-Inv [] r own inv = inv
  run-Inv (op ∷ ops) r own inv = run-Inv ops (step op r) own.1 (step-Inv op r own.0 inv)
