-- ===== src/Examples/Delivery.antt =====
-- The buffer, the deadline and the pipeline of a small host.
use llm_metrics.Prelude.{
  ℕ, ◌+◌, ◌≡◌, refl, true, false, none, some, List, [], ◌∷◌, ◌++◌, length, arith,
}
use llm_metrics.Prelude.Int.{pos}
use llm_metrics.Value.{Value, int}
use llm_metrics.Buffer.{
  run_turn, begin_shutdown, entity, Buffer, Host, Thread, no_stats, add, drain, payload,
}
use llm_metrics.Buffer.Bounds.{IsValid, adds, last, add_lem, adds-last}
use llm_metrics.Buffer.Shutdown.{Ended, run_turn-begin_shutdown}
use llm_metrics.Buffer.Drain.{Drained, drain_total}
use llm_metrics.Buffer.Delivery.{drain-log}
use llm_metrics.Runtime.Environment.{Environ, finite, initial}
use llm_metrics.Runtime.Rates.{InRange, run-initial-InRange}
use llm_metrics.Runtime.{Runtime, defaults, one}
use llm_metrics.Runtime.Retire.{
  built, shut, Op, configures, emits, flushes, shuts_down, Inv, run, run-Inv,
}

-- The world is what was delivered; the clock stands still.
abbrev pub recorder : Host ℕ (List Value)
recorder = record {
  now = λ w. pos 0;
  to_dict = λ n. some (int (pos n));
  flush_fn = λ vs d w. (true, w ++ vs);
}

-- a buffer of two places, with one event
abbrev small : Buffer ℕ
small = record {
  config = record { max_size = 2; flush_at = 1; flush_interval = pos 5; shutdown_timeout = pos 5 };
  queue = entity 1 ∷ [];
  wake = false;
  shutdown = false;
  thread = Thread.alive;
  atexit_hook = true;
  fork_registered = true;
  deadline = record { due = none; armed = false };
  in_flight = pos 0;
  stats = no_stats;
}

small-IsValid : IsValid small
small-IsValid = omega arith

abbrev full : Buffer ℕ
full = record small { queue = entity 1 ∷ entity 2 ∷ [] }

full-IsValid : IsValid full
full-IsValid = omega arith

drain-log_example :
    (b' : Buffer ℕ) × (w' : List Value) × (drain recorder 3 full [] ≡ some (b', w'))
    × (b'.queue ≡ [])
    × (w' ≡ [] ++ int (pos 1) ∷ int (pos 2) ∷ [])
drain-log_example =
    drain-log recorder (λ w. w) (λ vs d w. refl) 3 full [] (int (pos 1) ∷ int (pos 2) ∷ [])
      full-IsValid (omega arith) refl (unfold payload in refl)

drain_total_example :
    (b' : Buffer ℕ) × (w' : List Value) × (drain recorder 3 full [] ≡ some (b', w'))
    × Drained recorder full b' w'
drain_total_example = drain_total recorder 3 full [] full-IsValid (omega arith)

run_turn-begin_shutdown_example :
    (b' : Buffer ℕ) × (w' : List Value) × (run_turn recorder 3 (begin_shutdown (pos 0) none full) []
      ≡ some (b', w'))
    × Ended recorder full b' w'
run_turn-begin_shutdown_example =
    run_turn-begin_shutdown recorder 3 none full [] full-IsValid (omega arith)

add_lem_example :
    ((add (entity 3) full).queue ≡ last 2 (full.queue ++ entity 3 ∷ []))
    × (length (add (entity 3) full).queue + (add (entity 3) full).stats.dropped ≡ 3)
    × ((add (entity 3) full).stats.queued ≡ 1)
add_lem_example = add_lem full (entity 3) full-IsValid refl

adds-last_example :
    (adds (entity 2 ∷ entity 3 ∷ []) small).queue ≡ last 2 (entity 1 ∷ entity 2 ∷ entity 3 ∷ [])
adds-last_example = adds-last (entity 2 ∷ entity 3 ∷ []) small small-IsValid refl

abbrev fresh : Runtime ℕ
fresh = record {
  settings = record {
    enabled = true;
    capture_input = true;
    capture_output = true;
    max_value_chars = 2000;
    environment = none;
    release = none;
    sample_rate = one;
    redact = none;
  };
  buffer = none;
  client = none;
  overridden = false;
  next = 0;
  calls = [];
}

abbrev story : List (Op ℕ)
story = emits 7 ∷ flushes none ∷ configures defaults ∷ shuts_down none ∷ []

run-Inv_example : Inv (run story fresh)
unfolding built shut
run-Inv_example =
    run-Inv story fresh (tt, (tt, (refl, (tt, tt))))
      (record { paired = λ b. refl; fresh = λ b h. refl })

-- an environment whose rate is above 1
abbrev environ : Environ
environ = record { lookup = λ name. some "5"; parse_float = λ s. some (finite (pos 5000000)) }

run-initial-InRange_example : InRange (run story (initial environ)).settings.sample_rate
run-initial-InRange_example = run-initial-InRange environ story
