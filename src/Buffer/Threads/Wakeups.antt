-- ===== src/Buffer/Threads/Wakeups.antt =====
-- The wake-ups of the flush thread of llm_metrics/buffer.py, and its end.
use llm_metrics.Prelude.{
  ◌∙◌, ◌≤◌, ◌<◌, ◌≡◌, refl, ap, Bool, true, false, ◌||◌, none, some, length, ltb, arith, le→leb,
}
use llm_metrics.Buffer.{Event, Buffer, Config, Host, empty, accept, reject, set_wake}
use llm_metrics.Buffer.Bounds.{IsValid}
use llm_metrics.Buffer.Threads.{
  Flusher, waiting, draining, ended, System, Step, rejects, accepts, wakes, arms, shuts, stirs,
  clears, reads, flushes, calls, helps, returns, times_out, Reach, start, later, arm_for,
  set_shutdown, clear_wake,
}
use llm_metrics.Buffer.Threads.Flight.{Reach-Balanced}
use llm_metrics.Buffer.Threads.Kept.{Drain-Kept}

-- the flush thread is not about to wait
abbrev busy : {E : Type 0} → Flusher E → Bool
busy waiting = false
busy _ = true

-- the flush thread will still see, or has seen, a shutdown that comes now
abbrev heeds : {E : Type 0} → Flusher E → Bool
heeds waiting = false
heeds (draining last p) = last
heeds _ = true

-- the flush thread has seen the shutdown
abbrev final : {E : Type 0} → Flusher E → Bool
final (draining last p) = last
final ended = true
final _ = false

abbrev called : {E : Type 0} → System E → Bool
called s = s.buffer.wake || ltb 0 s.to_wake

module _ {E W : Type 0} (h : Host E W) where
  record Alert (s : System E) : Type 0 where
    -- a full batch is waited for by nobody only if a drain has given up
    full :
        s.gave_up ≡ false
        → s.buffer.flush_at ≤ length s.buffer.queue
        → (called s || busy s.flusher) ≡ true
    -- a shutdown that the flush thread has not seen will wake it
    heard : s.buffer.shutdown ≡ true → (called s || heeds s.flusher) ≡ true
    seen : final s.flusher ≡ true → s.buffer.shutdown ≡ true
    bare : s.flusher ≡ ended → s.gave_up ≡ false → length s.buffer.queue ≡ 0

  accept_full :
      (e : Event E) (b : Buffer E)
      → (accept e b).0.flush_at ≤ length (accept e b).0.queue
      → (accept e b).1 ≡ true
  unfolding accept
  accept_full e b f = le→leb _ _ f

  accept-shutdown : (e : Event E) (b : Buffer E) → (accept e b).0.shutdown ≡ b.shutdown
  unfolding accept
  accept-shutdown e b = refl

  full_before :
      (b b' : Buffer E)
      → b'.config ≡ b.config
      → length b'.queue ≤ length b.queue
      → b'.flush_at ≤ length b'.queue
      → b.flush_at ≤ length b.queue
  full_before b b' same shorter f = let size = ap (λ c. c.flush_at) same in omega arith

  full_bare :
      (b b' : Buffer E)
      → IsValid b
      → b'.config ≡ b.config
      → length b'.queue ≡ 0
      → b'.flush_at ≤ length b'.queue
      → ⊥
  full_bare b b' v same none_left f = let size = ap (λ c. c.flush_at) same in omega (arith, v.batch)

  Step-Alert : {s t : System E} → IsValid s.buffer → Step h s t → Alert s → Alert t
  unfolding reject set_wake arm_for set_shutdown clear_wake
  Step-Alert v (rejects shut) i = record {
    full = i.full;
    heard = i.heard;
    seen = i.seen;
    bare = i.bare;
  }
  Step-Alert {s} v (accepts e open_) i = record {
    full = λ g f. ground (arith, accept_full e s.buffer f);
    heard = λ shut. ground (arith, accept-shutdown e s.buffer);
    seen = λ f. accept-shutdown e s.buffer ∙ i.seen f;
    bare = λ at g. ground (arith, i.seen (ap final at));
  }
  Step-Alert {s} v (wakes at) i = record {
    full = λ g f. ground arith;
    heard = λ e. ground arith;
    seen = i.seen;
    bare = i.bare;
  }
  Step-Alert v (arms now timeout) i = record {
    full = i.full;
    heard = i.heard;
    seen = i.seen;
    bare = i.bare;
  }
  Step-Alert {s} v shuts i = record {
    full = λ g f. ground arith;
    heard = λ e. ground arith;
    seen = λ e. refl;
    bare = i.bare;
  }
  Step-Alert {s} v (stirs at) i = record {
    full = λ g f. ground arith;
    heard = λ e. ground arith;
    seen = λ e. cc;
    bare = λ e g. cc;
  }
  Step-Alert {s} v (clears at) i = record {
    full = λ g f. ground arith;
    heard = λ e. ground arith;
    seen = λ e. cc;
    bare = λ e g. cc;
  }
  Step-Alert {s} v (reads at) i = record {
    full = λ g f. ground arith;
    heard = λ e. ground arith;
    seen = λ e. e;
    bare = λ e g. cc;
  }
  Step-Alert {s} v (flushes {last} {p} {b} {q = some p'} at d) i =
      let k = Drain-Kept h v d in
      let before = ap heeds at in
      let final_before = ap final at in
      record {
        full = λ g f. ground arith;
        heard = λ shut. ground (arith, k.wake, k.shutdown, i.heard);
        seen = λ f. k.shutdown ∙ i.seen (final_before ∙ f);
        bare = λ e g. cc;
      }
  Step-Alert {s} v (flushes {last = true} {p} {b} {q = none} at d) i =
      let k = Drain-Kept h v d in
      record {
        full = λ g f. ground arith;
        heard = λ shut. ground arith;
        seen = λ f. k.shutdown ∙ i.seen (ap final at);
        bare = λ e g. k.bare (ground arith) refl;
      }
  Step-Alert {s} v (flushes {last = false} {p} {b} {q = none} at d) i =
      let k = Drain-Kept h v d in
      let before = ap heeds at in
      record {
        full = λ g f. absurd (full_bare s.buffer b v k.config (k.bare (ground arith) refl) f);
        heard = λ shut. ground (arith, k.wake, k.shutdown, i.heard);
        seen = λ f. cc;
        bare = λ e g. cc;
      }
  Step-Alert v calls i = record { full = i.full; heard = i.heard; seen = i.seen; bare = i.bare }
  Step-Alert {s} v (helps xs ys {p} {b} {q} at d) i =
      let k = Drain-Kept h v d in
      record {
        full = λ g f.
            ground
              (arith, k.wake, i.full (ground arith) (full_before s.buffer b k.config k.shorter f));
        heard = λ shut. ground (arith, k.wake, k.shutdown, i.heard);
        seen = λ f. k.shutdown ∙ i.seen f;
        bare = λ e g. omega (arith, k.shorter, i.bare e (ground arith));
      }
  Step-Alert v (returns xs ys at idle) i = record {
    full = i.full;
    heard = i.heard;
    seen = i.seen;
    bare = i.bare;
  }
  Step-Alert v (times_out xs ys at) i = record {
    full = i.full;
    heard = i.heard;
    seen = i.seen;
    bare = i.bare;
  }

  Reach-Alert :
      {c : Config} {s : System E} → 1 ≤ c.max_size → 1 ≤ c.flush_at → Reach h c s → Alert s
  unfolding empty
  Reach-Alert room batch start = record {
    full = λ g f. absurd (omega (arith, f, batch));
    heard = λ e. cc;
    seen = λ e. cc;
    bare = λ e g. cc;
  }
  Reach-Alert room batch (later r st) =
      Step-Alert (Reach-Balanced h room batch r).valid st (Reach-Alert room batch r)

  -- No wake-up is lost. With at least one place and batches of at least one event: while the flush
  -- thread waits, its wake flag is not set, no thread is about to set it and no drain has given up,
  -- less than a batch is queued and no shutdown has begun.
  pub Reach-wakeup :
      {c : Config} {s : System E}
      → 1 ≤ c.max_size
      → 1 ≤ c.flush_at
      → Reach h c s
      → s.flusher ≡ waiting
      → s.buffer.wake ≡ false
      → s.to_wake ≡ 0
      → s.gave_up ≡ false
      → (length s.buffer.queue < s.buffer.flush_at) × (s.buffer.shutdown ≡ false)
  Reach-wakeup {s} room batch r at asleep none_coming patient =
      let i = Reach-Alert room batch r in
      let idle = ap busy at in
      let deaf = ap heeds at in (ground (arith, i.full patient), ground (arith, i.heard))

  -- Nothing is stranded. With at least one place and batches of at least one event: once the flush
  -- thread has ended, and unless a drain gave up because the budget was used up, the queue is empty
  -- and stays closed to new events.
  pub Reach-ended :
      {c : Config} {s : System E}
      → 1 ≤ c.max_size
      → 1 ≤ c.flush_at
      → Reach h c s
      → s.flusher ≡ ended
      → s.gave_up ≡ false
      → (length s.buffer.queue ≡ 0) × (s.buffer.shutdown ≡ true)
  Reach-ended {s} room batch r at patient =
      let i = Reach-Alert room batch r in (i.bare at patient, i.seen (ap final at))
