-- ===== src/Buffer/Drain.antt =====
-- The loop of `_drain` of llm_metrics/buffer.py: its fuel, and the state that it leaves.
use llm_metrics.Prelude.{
  ℕ, zero, suc, ◌+◌, ◌≤◌, ◌<◌, ◌≡◌, refl, ◌⊎◌, inl, inr, Bool, true, false, some, List, [], ◌∷◌,
  ◌++◌, arith, length, length-append, sym, ◌∙◌, ap, min, ltb, if◌then◌else◌, Bool-cases,
}
use llm_metrics.Prelude.Int.{ℤ, pos, ◌+ℤ◌, ◌-ℤ◌, +ℤ_parts, -ℤ_parts, eq_of_parts}
use llm_metrics.Deadline.{expired}
use llm_metrics.Buffer.{
  Event, Buffer, Host, take_from, take_batch, batch_done, send, deliver, drain_round, drain,
}
use llm_metrics.Buffer.Bounds.{IsValid, take_batch_lem}

undo_in_flight : (n : ℤ) → n +ℤ pos 1 -ℤ pos 1 ≡ n
undo_in_flight n = omega (arith, +ℤ_parts, -ℤ_parts, eq_of_parts)

nil_of_length {ℓ} : {A : Type ℓ} (xs : List A) → length xs ≡ 0 → xs ≡ []
nil_of_length [] e = refl
nil_of_length (x ∷ xs) e = absurd (omega arith)

module _ {E : Type 0} where
  -- all of the buffer but the queue, the in-flight count and the counters
  pub record Same (b b' : Buffer E) : Type 0 where
    pub config : b'.config ≡ b.config
    pub deadline : b'.deadline ≡ b.deadline
    pub shutdown : b'.shutdown ≡ b.shutdown

  pub Same-trans : (a b c : Buffer E) → Same a b → Same b c → Same a c
  Same-trans a b c h k = record {
    config = k.config ∙ h.config;
    deadline = k.deadline ∙ h.deadline;
    shutdown = k.shutdown ∙ h.shutdown;
  }

  -- A batch that was taken off the queue.
  pub record Taken (b : Buffer E) (batch : List (Event E)) (b' : Buffer E) : Type 0 where
    pub same : Same b b'
    pub split : batch ++ b'.queue ≡ b.queue
    pub size : length batch ≡ min b.flush_at (length b.queue)
    pub in_flight :
        b'.in_flight ≡ (if ltb 0 (length b.queue) then b.in_flight +ℤ pos 1 else b.in_flight)

  take_from-Same : (q : List (Event E)) (b : Buffer E) → Same b (take_from q b).1
  unfolding take_from
  take_from-Same [] b = record { config = refl; deadline = refl; shutdown = refl }
  take_from-Same (e ∷ rest) b = record { config = refl; deadline = refl; shutdown = refl }

  pub take_batch-Taken :
      (b : Buffer E) → IsValid b → let (batch, b') = take_batch b in Taken b batch b'
  take_batch-Taken b v =
      let (split, size, in_flight) = take_batch_lem b v in
      record {
        same = unfold take_batch in take_from-Same b.queue b;
        split = split;
        size = size;
        in_flight = in_flight;
      }

module _ {E W : Type 0} (h : Host E W) where
  -- `_send` touches nothing but the counters.
  pub record Sent (b b' : Buffer E) : Type 0 where
    pub same : Same b b'
    pub queue : b'.queue ≡ b.queue
    pub in_flight : b'.in_flight ≡ b.in_flight

  pub send-Sent : (batch : List (Event E)) (b : Buffer E) (w : W) → Sent b (send h batch b w).0
  unfolding send
  send-Sent batch b w = ground arith

  -- A round of the loop.
  pub record Round (b : Buffer E) (more : Bool) (b' : Buffer E) (w' : W) : Type 0 where
    pub same : Same b b'
    pub in_flight : b'.in_flight ≡ b.in_flight
    pub shorter : more ≡ true → length b'.queue < length b.queue
    pub ended : more ≡ false → (b'.queue ≡ []) ⊎ (expired (h.now w') b'.deadline ≡ true)
    pub smaller : length b'.queue ≤ length b.queue

  deliver-Round :
      (batch : List (Event E)) (b b' : Buffer E) (w : W)
      → IsValid b
      → Taken b batch b'
      → let (more, b'', w') = deliver h batch b' w in Round b more b'' w'
  unfolding deliver
  deliver-Round [] b b' w v t =
      let nothing : length b.queue ≡ 0 = omega (arith, v.batch, t.size) in
      let same_length : length b'.queue ≡ 0 = omega (arith, ap length t.split, nothing) in
      record {
        same = t.same;
        in_flight = ground (arith, t.in_flight);
        shorter = λ e. cc;
        ended = λ _. inl (nil_of_length b'.queue same_length);
        smaller = omega (arith, same_length);
      }
  deliver-Round (e ∷ es) b b' w v t =
      let s = send-Sent (e ∷ es) b' w in
      let total : suc (length es) + length b'.queue ≡ length b.queue =
        sym (length-append (e ∷ es) b'.queue) ∙ ap length t.split in
      let there : ltb 0 (length b.queue) ≡ true = ground arith in
      unfold batch_done in
      record {
        same = record {
          config = s.same.config ∙ t.same.config;
          deadline = s.same.deadline ∙ t.same.deadline;
          shutdown = s.same.shutdown ∙ t.same.shutdown;
        };
        in_flight = rw (s.in_flight, t.in_flight, there) (undo_in_flight b.in_flight);
        shorter = λ _. rw s.queue (omega arith);
        ended = λ e. cc;
        smaller = rw s.queue (omega arith);
      }

  pub drain_round-Round :
      (b : Buffer E) (w : W)
      → IsValid b
      → let (more, b', w') = drain_round h b w in Round b more b' w'
  drain_round-Round b w v = elim (Bool-cases (expired (h.now w) b.deadline)) [
    | inl over ↦
        unfold drain_round in
        rw over (record {
          same = record { config = refl; deadline = refl; shutdown = refl };
          in_flight = refl;
          shorter = λ e. cc;
          ended = λ _. inr over;
          smaller = omega arith;
        })
    | inr time ↦ unfold drain_round in rw time (deliver-Round _ b _ w v (take_batch-Taken b v))
  ]

  -- What a whole drain leaves: nothing queued, or the budget used up, and no batch in flight.
  pub record Drained (b b' : Buffer E) (w' : W) : Type 0 where
    pub same : Same b b'
    pub in_flight : b'.in_flight ≡ b.in_flight
    pub ended : (b'.queue ≡ []) ⊎ (expired (h.now w') b'.deadline ≡ true)

  pub Round-IsValid :
      (b b' : Buffer E) (more : Bool) (w' : W) → IsValid b → Round b more b' w' → IsValid b'
  Round-IsValid b b' more w' v r = record {
    room = rw r.same.config v.room;
    batch = rw r.same.config v.batch;
    bounded = rw r.same.config (omega arith);
  }

  Round-Drained :
      (b b' b'' : Buffer E) (more : Bool) (w' w'' : W)
      → Round b more b' w'
      → Drained b' b'' w''
      → Drained b b'' w''
  Round-Drained b b' b'' more w' w'' r d = record {
    same = Same-trans b b' b'' r.same d.same;
    in_flight = d.in_flight ∙ r.in_flight;
    ended = d.ended;
  }

  -- For a valid buffer, fuel above the length of the queue is enough for the loop to end, whatever
  -- the flush target does; it ends with nothing queued or with the budget used up, and with no
  -- batch left over.
  pub drain_total :
      (fuel : ℕ) (b : Buffer E) (w : W)
      → IsValid b
      → length b.queue < fuel
      → (b' : Buffer E) × (w' : W) × (drain h fuel b w ≡ some (b', w')) × Drained b b' w'
  unfolding drain
  drain_total zero b w v enough = absurd (omega arith)
  drain_total (suc fuel) b w v enough =
      let (more, b', w') = drain_round h b w in
      let r : Round b more b' w' = drain_round-Round b w v in
      elim (Bool-cases more) [
        | inl go ↦
            let shorter = r.shorter go in
            let (b'', w'', e, d) =
              drain_total fuel b' w' (Round-IsValid b b' more w' v r) (omega arith) in
            (b'', w'', rw go e, Round-Drained b b' b'' more w' w'' r d)
        | inr stop ↦ (
          b',
          w',
          rw stop,
          record { same = r.same; in_flight = r.in_flight; ended = r.ended stop },
        )
      ]
