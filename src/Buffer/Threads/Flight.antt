-- ===== src/Buffer/Threads/Flight.antt =====
-- What `wait_until_idle` of llm_metrics/buffer.py tests, with any number of threads at work.
use llm_metrics.Prelude.{
  ◌∙◌, ℕ, suc, ◌+◌, ◌≤◌, ◌≡◌, refl, sym, ap, Bool, true, Option, List, [], ◌∷◌, ◌++◌, length,
  length-append, arith,
}
use llm_metrics.Prelude.Int.{pos}
use llm_metrics.Buffer.{Event, Buffer, Config, Host, empty, accept, reject, set_wake, is_idle}
use llm_metrics.Buffer.Bounds.{IsValid, length-deque_append}
use llm_metrics.Buffer.Threads.{
  Pc, top, taking, holding, handed, Flusher, woken, cleared, draining, Caller, drains, awaits,
  go_back, stay, settled, Drain, taken, evicted, System, Step, rejects, accepts, wakes, arms, shuts,
  stirs, clears, reads, flushes, calls, helps, returns, times_out, Reach, start, later, arm_for,
  set_shutdown, clear_wake,
}
use llm_metrics.Buffer.Threads.Order.{Reach-InOrder, Drain-split}
use llm_metrics.Buffer.Threads.Held.{
  held, load, held_next, load_next, flusher_held, flusher_load, caller_held, caller_load, sum,
  sum-append, held-go_back, load-go_back, stay-held, stay-load, Drain-Counted,
}

module _ {E W : Type 0} (h : Host E W) where
  -- the counters agree with what the threads hold, and every event that left the queue is lost, in
  -- a thread's batch, or finished
  pub record Balanced (s : System E) : Type 0 where
    pub valid : IsValid s.buffer
    flight : s.buffer.in_flight ≡ pos (flusher_held s.flusher + sum caller_held s.callers)
    balance :
        length s.out ≡ s.lost + s.finished + flusher_load s.flusher + sum caller_load s.callers

  Drain-IsValid :
      {b b' : Buffer E} {p : Pc E} {q : Option (Pc E)} → IsValid b → Drain h b p b' q → IsValid b'
  Drain-IsValid {b} {b'} {p} {q} v d =
      let same = (Drain-Counted h v d).config in
      let fewer : length (taken p q) + length b'.queue ≡ length b.queue =
        sym (length-append (taken p q) b'.queue) ∙ ap length (Drain-split h d) in
      record {
        room = rw same v.room;
        batch = rw same v.batch;
        bounded = rw same (omega (arith, v.bounded));
      }

  accept-IsValid : (e : Event E) (b : Buffer E) → IsValid b → IsValid (accept e b).0
  unfolding accept
  accept-IsValid e b v = record {
    room = v.room;
    batch = v.batch;
    bounded = omega (arith, length-deque_append b.max_size b.queue e v.bounded);
  }

  -- The threads that a step replaces hold as much as those that it puts in their place.
  moved :
      {s : System E} (n : ℕ) (f : Flusher E) (cs : List (Caller E)) (b : Buffer E)
      → flusher_held f + sum caller_held cs ≡ flusher_held s.flusher + sum caller_held s.callers
      → flusher_load f + sum caller_load cs ≡ flusher_load s.flusher + sum caller_load s.callers
      → b.config ≡ s.buffer.config
      → b.queue ≡ s.buffer.queue
      → b.in_flight ≡ s.buffer.in_flight
      → Balanced s
      → Balanced (record s { buffer = b; flusher = f; callers = cs; to_wake = n })
  moved {s} n f cs b holds loads config queue flight i = record {
    valid = record {
      room = rw config i.valid.room;
      batch = rw config i.valid.batch;
      bounded = rw (config, queue) i.valid.bounded;
    };
    flight = flight ∙ i.flight ∙ ap pos (sym holds);
    balance = omega (arith, i.balance, loads);
  }

  -- A step of a drain, by what the other threads hold.
  drained :
      {s : System E} {p : Pc E} {b : Buffer E} {q : Option (Pc E)} (f : Flusher E)
      (cs : List (Caller E)) (k m : ℕ)
      → Drain h s.buffer p b q
      → flusher_held s.flusher + sum caller_held s.callers ≡ k + held p
      → flusher_held f + sum caller_held cs ≡ k + held_next q
      → flusher_load s.flusher + sum caller_load s.callers ≡ m + load p
      → flusher_load f + sum caller_load cs ≡ m + load_next q
      → (gave : Bool) → Balanced s
      → Balanced (record s {
        buffer = b;
        flusher = f;
        callers = cs;
        out = s.out ++ taken p q;
        finished = s.finished + settled p;
        gave_up = gave;
      })
  drained {s} {p} {b} {q} f cs k m d before after loaded loading gave i =
      let c = Drain-Counted h i.valid d in
      record {
        valid = Drain-IsValid i.valid d;
        flight = c.flight k (i.flight ∙ ap pos before) ∙ ap pos (sym after);
        balance = omega (arith, length-append s.out (taken p q), i.balance, c.load);
      }

  without :
      {s : System E} (xs ys : List (Caller E))
      → s.callers ≡ xs ++ awaits ∷ ys
      → Balanced s
      → Balanced (record s { callers = xs ++ ys })
  without {s} xs ys at i =
      let held_all = ap (sum caller_held) at in
      let load_all = ap (sum caller_load) at in
      moved s.to_wake s.flusher (xs ++ ys) s.buffer
        (omega (arith, sum-append caller_held xs ys, sum-append caller_held xs (awaits ∷ ys)))
        (omega (arith, sum-append caller_load xs ys, sum-append caller_load xs (awaits ∷ ys))) refl
        refl refl i

  Step-Balanced : {s t : System E} → Step h s t → Balanced s → Balanced t
  unfolding reject set_wake arm_for set_shutdown clear_wake
  Step-Balanced {s} (rejects shut) i =
      moved s.to_wake s.flusher s.callers _ refl refl refl refl refl i
  Step-Balanced {s} (accepts e open_) i = record {
    valid = accept-IsValid e s.buffer i.valid;
    flight = unfold accept in i.flight;
    balance = omega (arith, length-append s.out (evicted e s.buffer), i.balance);
  }
  Step-Balanced {s} (wakes {n} e) i = moved n s.flusher s.callers _ refl refl refl refl refl i
  Step-Balanced {s} (arms now timeout) i =
      moved s.to_wake s.flusher s.callers _ refl refl refl refl refl i
  Step-Balanced {s} shuts i = moved (suc s.to_wake) s.flusher s.callers _ refl refl refl refl refl i
  Step-Balanced {s} (stirs at) i =
      moved s.to_wake woken s.callers s.buffer (omega (arith, ap flusher_held at))
        (omega (arith, ap flusher_load at)) refl refl refl i
  Step-Balanced {s} (clears at) i =
      moved s.to_wake cleared s.callers _ (omega (arith, ap flusher_held at))
        (omega (arith, ap flusher_load at)) refl refl refl i
  Step-Balanced {s} (reads at) i =
      moved s.to_wake (draining s.buffer.shutdown top) s.callers s.buffer
        (omega (arith, ap flusher_held at)) (omega (arith, ap flusher_load at)) refl refl refl i
  Step-Balanced {s} (flushes {last} {p} {b} {q} at d) i =
      let held_here = ap flusher_held at in
      let load_here = ap flusher_load at in
      drained (go_back last q) s.callers (sum caller_held s.callers) (sum caller_load s.callers) d
        (omega arith) (omega (arith, held-go_back last q)) (omega arith)
        (omega (arith, load-go_back last q)) _ i
  Step-Balanced {s} calls i =
      moved s.to_wake s.flusher (drains top ∷ s.callers) s.buffer (omega arith) (omega arith) refl
        refl refl i
  Step-Balanced {s} (helps xs ys {p} {b} {q} at d) i =
      let held_all = ap (sum caller_held) at in
      let load_all = ap (sum caller_load) at in
      drained s.flusher (xs ++ stay q ∷ ys)
        (flusher_held s.flusher + sum caller_held xs + sum caller_held ys)
        (flusher_load s.flusher + sum caller_load xs + sum caller_load ys) d
        (omega (arith, sum-append caller_held xs (drains p ∷ ys)))
        (omega (arith, sum-append caller_held xs (stay q ∷ ys), stay-held q))
        (omega (arith, sum-append caller_load xs (drains p ∷ ys)))
        (omega (arith, sum-append caller_load xs (stay q ∷ ys), stay-load q)) _ i
  Step-Balanced (returns xs ys at idle) i = without xs ys at i
  Step-Balanced (times_out xs ys at) i = without xs ys at i

  pub Reach-Balanced :
      {c : Config} {s : System E} → 1 ≤ c.max_size → 1 ≤ c.flush_at → Reach h c s → Balanced s
  unfolding empty
  Reach-Balanced room batch start = record {
    valid = record { room = room; batch = batch; bounded = omega arith };
    flight = refl;
    balance = omega arith;
  }
  Reach-Balanced room batch (later r st) = Step-Balanced st (Reach-Balanced room batch r)

  -- nothing queued, no thread with a batch, and every accepted event accounted for
  pub record Quiet (s : System E) : Type 0 where
    pub queue : length s.buffer.queue ≡ 0
    pub flusher : flusher_held s.flusher ≡ 0
    pub callers : sum caller_held s.callers ≡ 0
    pub all_out : length s.accepted ≡ s.lost + s.finished

  held-load : (p : Pc E) → held p ≡ 0 → load p ≡ 0
  held-load top e = refl
  held-load taking e = refl
  held-load (holding b) e = absurd (omega arith)
  held-load (handed b) e = absurd (omega arith)

  flusher_held-load : (f : Flusher E) → flusher_held f ≡ 0 → flusher_load f ≡ 0
  flusher_held-load (draining last p) e = held-load p e
  flusher_held-load _ e = refl

  callers_held-load : (cs : List (Caller E)) → sum caller_held cs ≡ 0 → sum caller_load cs ≡ 0
  callers_held-load [] e = refl
  callers_held-load (drains p ∷ cs) e =
      omega (arith, held-load p (omega arith), callers_held-load cs (omega arith))
  callers_held-load (awaits ∷ cs) e = omega (arith, callers_held-load cs (omega arith))

  idle_zero :
      (b : Buffer E) (n : ℕ)
      → b.in_flight ≡ pos n
      → is_idle b ≡ true
      → (n ≡ 0) × (length b.queue ≡ 0)
  unfolding is_idle
  idle_zero b n e idle = ground arith

  -- With at least one place and batches of at least one event: whenever the test of
  -- `wait_until_idle` passes, nothing is queued, no thread holds a batch, and every event that was
  -- ever accepted was evicted or has had its batch finished.
  pub Reach-Quiet :
      {c : Config} {s : System E}
      → 1 ≤ c.max_size
      → 1 ≤ c.flush_at
      → Reach h c s
      → is_idle s.buffer ≡ true
      → Quiet s
  Reach-Quiet {c} {s} room batch r idle =
      let i = Reach-Balanced room batch r in
      let (none_held, none_queued) = idle_zero s.buffer _ i.flight idle in
      let order = ap length (Reach-InOrder h r) in
      record {
        queue = none_queued;
        flusher = omega arith;
        callers = omega arith;
        all_out = omega (
          arith,
          order,
          length-append s.out s.buffer.queue,
          i.balance,
          flusher_held-load s.flusher (omega arith),
          callers_held-load s.callers (omega arith),
        );
      }
