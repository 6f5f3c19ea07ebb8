-- ===== src/Buffer/Threads/Order.antt =====
-- What leaves the queue of llm_metrics/buffer.py, with any number of threads at work.
use llm_metrics.Prelude.{
  ◌∙◌, ◌≡◌, refl, sym, ap, Bool, true, false, Option, List, [], ◌∷◌, ◌++◌, append_assoc,
  take-append-drop, length, take, drop, ltb, if◌then◌else◌,
}
use llm_metrics.Buffer.{
  Event, Buffer, Config, Host, empty, accept, deque_append, reject, set_wake, take_from, take_batch,
  batch_done,
}
use llm_metrics.Buffer.Drain.{send-Sent}
use llm_metrics.Buffer.Threads.{
  Pc, Drain, give_up, go_on, found, nothing, sends, finishes, taken, evicted, System, Step, rejects,
  accepts, wakes, arms, shuts, stirs, clears, reads, flushes, calls, helps, returns, times_out,
  Reach, start, later, arm_for, set_shutdown, clear_wake,
}

module _ {E : Type 0} where
  take_from-split :
      (q : List (Event E)) (b : Buffer E)
      → b.queue ≡ q
      → (take_from q b).0 ++ (take_from q b).1.queue ≡ q
  unfolding take_from
  take_from-split [] b same = same
  take_from-split (e ∷ rest) b same = take-append-drop _ (e ∷ rest)

  take_batch-split : (b : Buffer E) → (take_batch b).0 ++ (take_batch b).1.queue ≡ b.queue
  unfolding take_batch
  take_batch-split b = take_from-split b.queue b refl

  front-cut :
      (over : Bool) (q : List (Event E))
      → (if over then take 1 q else []) ++ (if over then drop 1 q else q) ≡ q
  front-cut true q = take-append-drop 1 q
  front-cut false q = refl

  accept-split :
      (e : Event E) (b : Buffer E) → evicted e b ++ (accept e b).0.queue ≡ b.queue ++ e ∷ []
  unfolding accept deque_append
  accept-split e b = front-cut (ltb b.max_size (length (b.queue ++ e ∷ []))) (b.queue ++ e ∷ [])

-- what was already out, what goes out, and what stays
regroup {ℓ} :
    {A : Type ℓ} (out front rest q all : List A)
    → front ++ rest ≡ q
    → out ++ q ≡ all
    → (out ++ front) ++ rest ≡ all
regroup out front rest q all split whole =
    append_assoc out front rest ∙ ap (λ x. out ++ x) split ∙ whole

module _ {E W : Type 0} (h : Host E W) where
  pub Drain-split :
      {b b' : Buffer E} {p : Pc E} {q : Option (Pc E)}
      → Drain h b p b' q
      → taken p q ++ b'.queue ≡ b.queue
  Drain-split (give_up now late) = refl
  Drain-split (go_on now early) = refl
  Drain-split {b} (found some_) =
      ap (λ x. x ++ (take_batch b).1.queue) (sym some_) ∙ take_batch-split b
  Drain-split {b} (nothing none_) =
      ap (λ x. x ++ (take_batch b).1.queue) (sym none_) ∙ take_batch-split b
  Drain-split {b} (sends {batch} w) = (send-Sent h batch b w).queue
  Drain-split finishes = unfold batch_done in refl

  abbrev InOrder : System E → Type 0
  InOrder s = s.out ++ s.buffer.queue ≡ s.accepted

  Step-InOrder : {s t : System E} → Step h s t → InOrder s → InOrder t
  unfolding reject set_wake arm_for set_shutdown clear_wake
  Step-InOrder (rejects shut) o = o
  Step-InOrder {s} (accepts e open_) o =
      let b = s.buffer in
      regroup s.out (evicted e b) (accept e b).0.queue (b.queue ++ e ∷ []) (s.accepted ++ e ∷ [])
        (accept-split e b) (sym (append_assoc s.out b.queue (e ∷ [])) ∙ ap (λ x. x ++ e ∷ []) o)
  Step-InOrder (wakes n) o = o
  Step-InOrder (arms now timeout) o = o
  Step-InOrder shuts o = o
  Step-InOrder (stirs at) o = o
  Step-InOrder (clears at) o = o
  Step-InOrder (reads at) o = o
  Step-InOrder {s} (flushes at d) o = regroup s.out _ _ s.buffer.queue s.accepted (Drain-split d) o
  Step-InOrder calls o = o
  Step-InOrder {s} (helps xs ys at d) o =
      regroup s.out _ _ s.buffer.queue s.accepted (Drain-split d) o
  Step-InOrder (returns xs ys at idle) o = o
  Step-InOrder (times_out xs ys at) o = o

  -- With any threads in any interleaving, the events that have left the queue, followed by those
  -- in it, are exactly the events that were accepted, in the order in which they were.
  pub Reach-InOrder :
      {c : Config} {s : System E} → Reach h c s → s.out ++ s.buffer.queue ≡ s.accepted
  unfolding empty
  Reach-InOrder start = refl
  Reach-InOrder (later r st) = Step-InOrder st (Reach-InOrder r)
