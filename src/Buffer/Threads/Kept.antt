-- ===== src/Buffer/Threads/Kept.antt =====
-- What a drain of llm_metrics/buffer.py leaves to the flags, step by step.
use llm_metrics.Prelude.{
  ◌≤◌, ◌≡◌, refl, ap, false, Option, none, List, [], ◌∷◌, length, length-append, arith,
}
use llm_metrics.Buffer.{Event, Buffer, Host, take_from, take_batch, batch_done, send}
use llm_metrics.Buffer.Bounds.{IsValid}
use llm_metrics.Buffer.Drain.{take_batch-Taken, send-Sent}
use llm_metrics.Buffer.Threads.{
  Pc, quits, Drain, give_up, go_on, found, nothing, sends, finishes, taken,
}
use llm_metrics.Buffer.Threads.Order.{Drain-split}

module _ {E : Type 0} where
  take_from-wake : (q : List (Event E)) (b : Buffer E) → (take_from q b).1.wake ≡ b.wake
  unfolding take_from
  take_from-wake [] b = refl
  take_from-wake (e ∷ es) b = refl

  take_batch-wake : (b : Buffer E) → (take_batch b).1.wake ≡ b.wake
  unfolding take_batch
  take_batch-wake b = take_from-wake b.queue b

module _ {E W : Type 0} (h : Host E W) where
  send-wake : (batch : List (Event E)) (b : Buffer E) (w : W) → (send h batch b w).0.wake ≡ b.wake
  unfolding send
  send-wake batch b w = ground arith

  -- what a step of a drain leaves to the flags and to the queue
  pub record Kept (b b' : Buffer E) (p : Pc E) (q : Option (Pc E)) : Type 0 where
    pub wake : b'.wake ≡ b.wake
    pub shutdown : b'.shutdown ≡ b.shutdown
    pub config : b'.config ≡ b.config
    pub shorter : length b'.queue ≤ length b.queue
    pub bare : quits p q ≡ false → q ≡ none → length b'.queue ≡ 0

  Drain-shorter :
      {b b' : Buffer E} {p : Pc E} {q : Option (Pc E)}
      → Drain h b p b' q
      → length b'.queue ≤ length b.queue
  Drain-shorter {b} {b'} {p} {q} d =
      omega (arith, ap length (Drain-split h d), length-append (taken p q) b'.queue)

  pub Drain-Kept :
      {b b' : Buffer E} {p : Pc E} {q : Option (Pc E)}
      → IsValid b
      → Drain h b p b' q
      → Kept b b' p q
  Drain-Kept v (give_up now late) = record {
    wake = refl;
    shutdown = refl;
    config = refl;
    shorter = omega arith;
    bare = λ e n. cc;
  }
  Drain-Kept v (go_on now early) = record {
    wake = refl;
    shutdown = refl;
    config = refl;
    shorter = omega arith;
    bare = λ e n. cc;
  }
  Drain-Kept {b} v (found some_) =
      let t = take_batch-Taken b v in
      record {
        wake = take_batch-wake b;
        shutdown = t.same.shutdown;
        config = t.same.config;
        shorter = Drain-shorter (found some_);
        bare = λ e n. cc;
      }
  Drain-Kept {b} v (nothing none_) =
      let t = take_batch-Taken b v in
      let size : length (take_batch b).0 ≡ 0 = ap length none_ in
      let shorter = Drain-shorter (nothing none_) in
      record {
        wake = take_batch-wake b;
        shutdown = t.same.shutdown;
        config = t.same.config;
        shorter = shorter;
        bare = λ e n. omega (arith, t.size, v.batch, shorter);
      }
  Drain-Kept {b} v (sends {batch} w) =
      let s = send-Sent h batch b w in
      record {
        wake = send-wake batch b w;
        shutdown = s.same.shutdown;
        config = s.same.config;
        shorter = Drain-shorter (sends {batch = batch} w);
        bare = λ e n. cc;
      }
  Drain-Kept (v) finishes =
      unfold batch_done in
      record {
        wake = refl;
        shutdown = refl;
        config = refl;
        shorter = omega arith;
        bare = λ e n. cc;
      }
