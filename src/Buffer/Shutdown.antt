-- ===== src/Buffer/Shutdown.antt =====
-- The last turn of the flush thread, after `shutdown` of llm_metrics/buffer.py.
use llm_metrics.Prelude.{if◌then◌else◌, ℕ, ◌<◌, ◌≡◌, refl, ◌⊎◌, true, Option, some, [], length}
use llm_metrics.Prelude.Int.{ℤ}
use llm_metrics.Deadline.{expired}
use llm_metrics.Buffer.{Buffer, Host, Thread, begin_shutdown, run_turn, drain, false}
use llm_metrics.Buffer.Bounds.{IsValid}
use llm_metrics.Buffer.Drain.{drain_total}

module _ {E W : Type 0} (h : Host E W) where
  -- the flush thread has ended, with nothing left to send or no time to send it
  pub record Ended (b b' : Buffer E) (w' : W) : Type 0 where
    pub thread : b'.thread ≡ Thread.dead
    pub in_flight : b'.in_flight ≡ b.in_flight
    pub rest : (b'.queue ≡ []) ⊎ (expired (h.now w') b'.deadline ≡ true)

  run_turn-drain :
      (fuel : ℕ) (b b' : Buffer E) (w w' : W)
      → drain h fuel (record b { wake = false }) w ≡ some (b', w')
      → run_turn h fuel b w
        ≡ some (if b.shutdown then record b' { thread = Thread.dead } else b', w')
  unfolding run_turn
  run_turn-drain fuel b b' w w' e = rw (e, run_turn) refl

  -- For a valid buffer and fuel above the length of the queue, the first turn of the flush thread
  -- after `shutdown` began ends the thread: with nothing queued or with the budget used up, and
  -- with no batch left over.
  pub run_turn-begin_shutdown :
      (fuel : ℕ) (timeout : Option ℤ) (b : Buffer E) (w : W)
      → IsValid b
      → length b.queue < fuel
      → (b' : Buffer E) × (w' : W) × (run_turn h fuel (begin_shutdown (h.now w) timeout b) w
          ≡ some (b', w'))
        × Ended b b' w'
  unfolding begin_shutdown
  run_turn-begin_shutdown fuel timeout b w v enough =
      let start : Buffer E = record (begin_shutdown (h.now w) timeout b) { wake = false } in
      let valid : IsValid start = record { room = v.room; batch = v.batch; bounded = v.bounded } in
      let (b', w', e, d) = drain_total h fuel start w valid enough in
      (
        record b' { thread = Thread.dead },
        w',
        run_turn-drain fuel (begin_shutdown (h.now w) timeout b) b' w w' e,
        record { thread = refl; in_flight = d.in_flight; rest = d.ended },
      )
