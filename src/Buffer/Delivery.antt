-- ===== src/Buffer/Delivery.antt =====
-- What a drain hands to the flush target (`_drain` and `_send` of llm_metrics/buffer.py).
use llm_metrics.Prelude.{
  ℕ, zero, suc, ◌<◌, ◌≡◌, refl, inl, inr, false, none, some, List, [], ◌∷◌, ◌++◌, arith, length,
  Option-cases, sym, ◌∙◌, ap, append_assoc, append-nil, Bool-cases,
}
use llm_metrics.Prelude.Int.{ℤ}
use llm_metrics.Value.{Value}
use llm_metrics.Deadline.{Deadline, expired}
use llm_metrics.Buffer.{
  Event, Buffer, Host, take_batch, batch_done, to_payload, payload, send, deliver, drain_round,
  drain,
}
use llm_metrics.Buffer.Bounds.{IsValid}
use llm_metrics.Buffer.Drain.{take_batch-Taken, Round, drain_round-Round, Round-IsValid, send-Sent}

unarmed_not_expired : (d : Deadline) (now : ℤ) → d.due ≡ none → expired now d ≡ false
unfolding expired
unarmed_not_expired d now e = ground arith

module _ {E W : Type 0} (h : Host E W) where
  payload-cons :
      (x : Event E) (xs : List (Event E)) (vs : List Value)
      → payload h (x ∷ xs) ≡ some vs
      → (v : Value) × (us : List Value) × (to_payload h x ≡ some v)
        × (payload h xs ≡ some us)
        × (v ∷ us ≡ vs)
  unfolding payload
  payload-cons x xs vs e = elim (Option-cases (to_payload h x)) [
    | inl raised ↦ absurd (ground arith)
    | inr (v, ev) ↦ elim (Option-cases (payload h xs)) [
      | inl raised ↦ absurd (ground arith)
      | inr (us, eus) ↦ (v, us, ev, eus, ground arith)
    ]
  ]

  cons-payload :
      (x : Event E) (xs : List (Event E)) (v : Value) (us : List Value)
      → to_payload h x ≡ some v
      → payload h xs ≡ some us
      → payload h (x ∷ xs) ≡ some (v ∷ us)
  unfolding payload
  cons-payload x xs v us ev eus = ground arith

  payload-nil : (q : List (Event E)) (ws : List Value) → q ≡ [] → payload h q ≡ some ws → ws ≡ []
  unfolding payload
  payload-nil q ws e p = ground arith

  -- The payload of a list splits where the list does.
  payload-append :
      (xs ys : List (Event E)) (vs : List Value)
      → payload h (xs ++ ys) ≡ some vs
      → (us : List Value) × (ws : List Value) × (payload h xs ≡ some us)
        × (payload h ys ≡ some ws)
        × (us ++ ws ≡ vs)
  unfolding payload
  payload-append [] ys vs e = ([], vs, refl, e, refl)
  payload-append (x ∷ xs) ys vs e =
      let (v, us, ev, eus, same) = payload-cons x (xs ++ ys) vs e in
      let (as_, bs, ea, eb, eq) = payload-append xs ys us eus in
      (v ∷ as_, bs, cons-payload x xs v as_ ev ea, eb, rw eq same)

  module _ (log : W → List Value)
      (records : (vs : List Value) (d : Deadline) (w : W)
        → log (h.flush_fn vs d w).1 ≡ log w ++ vs) where
    log-send :
        (batch : List (Event E)) (b : Buffer E) (w : W) (us : List Value)
        → payload h batch ≡ some us
        → log (send h batch b w).1 ≡ log w ++ us
    unfolding send
    log-send batch b w us e = ground (arith, records us b.deadline w)

    -- what one round delivers, and what it leaves
    record Delivered (b' : Buffer E) (w w' : W) (vs : List Value) : Type 0 where
      sent : List Value
      left : List Value
      logged : log w' ≡ log w ++ sent
      queued : payload h b'.queue ≡ some left
      whole : sent ++ left ≡ vs

    deliver-Delivered :
        (batch : List (Event E)) (b' : Buffer E) (w : W) (vs : List Value)
        → payload h (batch ++ b'.queue) ≡ some vs
        → let (_, b'', w') = deliver h batch b' w in Delivered b'' w w' vs
    unfolding deliver
    deliver-Delivered [] b' w vs e = record {
      sent = [];
      left = vs;
      logged = sym (append-nil (log w));
      queued = e;
      whole = refl;
    }
    deliver-Delivered (x ∷ xs) b' w vs e =
        let (us, ws, eu, ew, eq) = payload-append (x ∷ xs) b'.queue vs e in
        unfold batch_done in
        record {
          sent = us;
          left = ws;
          logged = log-send (x ∷ xs) b' w us eu;
          queued = rw (send-Sent h (x ∷ xs) b' w).queue ew;
          whole = eq;
        }

    drain_round-Delivered :
        (b : Buffer E) (w : W) (vs : List Value)
        → IsValid b
        → payload h b.queue ≡ some vs
        → expired (h.now w) b.deadline ≡ false
        → let (_, b', w') = drain_round h b w in Delivered b' w w' vs
    drain_round-Delivered b w vs v e time =
        let (batch, b') = take_batch b in
        unfold drain_round in
        rw time (deliver-Delivered batch b' w vs (rw (take_batch-Taken b v).split e))

    -- For a flush target that appends its payload to a log: if the buffer is valid, no budget is
    -- armed, every queued event can be serialised and the fuel is above the length of the queue, a
    -- drain ends, leaves the queue empty, and appends exactly the queued events to the log, in
    -- queue order.
    pub drain-log :
        (fuel : ℕ) (b : Buffer E) (w : W) (vs : List Value)
        → IsValid b
        → length b.queue < fuel
        → b.deadline.due ≡ none
        → payload h b.queue ≡ some vs
        → (b' : Buffer E) × (w' : W) × (drain h fuel b w ≡ some (b', w'))
          × (b'.queue ≡ [])
          × (log w' ≡ log w ++ vs)
    unfolding drain
    drain-log zero b w vs v enough unarmed e = absurd (omega arith)
    drain-log (suc fuel) b w vs v enough unarmed e =
        let (more, b', w') = drain_round h b w in
        let r : Round h b more b' w' = drain_round-Round h b w v in
        let d : Delivered b' w w' vs =
          drain_round-Delivered b w vs v e (unarmed_not_expired b.deadline (h.now w) unarmed) in
        let still : b'.deadline.due ≡ none = ap (λ x. x.due) r.same.deadline ∙ unarmed in
        elim (Bool-cases more) [
          | inl go ↦
              let shorter = r.shorter go in
              let (b'', w'', eq, nothing, logged) =
                drain-log fuel b' w' d.left (Round-IsValid h b b' more w' v r) (omega arith) still
                  d.queued in
              (
                b'',
                w'',
                rw go eq,
                nothing,
                logged
                    ∙ ap (λ l. l ++ d.left) d.logged
                    ∙ append_assoc (log w) d.sent d.left
                    ∙ ap (λ l. log w ++ l) d.whole,
              )
          | inr stop ↦
              let nothing : b'.queue ≡ [] = elim (r.ended stop) [
                | inl done ↦ done
                | inr over ↦ cc (unarmed_not_expired b'.deadline (h.now w') still)
              ] in
              let rest : d.left ≡ [] = payload-nil b'.queue d.left nothing d.queued in
              let all : d.sent ≡ vs =
                sym (append-nil d.sent) ∙ ap (λ l. d.sent ++ l) (sym rest) ∙ d.whole in
              (b', w', rw stop, nothing, d.logged ∙ ap (λ l. log w ++ l) all)
        ]
