-- ===== src/Client/Policy.antt =====
-- The retry policy of llm_metrics/client.py: which replies are retried, how often, how long the
-- waits are, and what an inert client does.
use llm_metrics.Prelude.{
  ap, ℕ, zero, suc, ◌+◌, ◌*◌, ◌^◌, ◌≤◌, ◌≡◌, refl, String, Bool, true, false, Option, none, List,
  [], ◌∷◌, arith, Bool-cases, Option-cases, inl, inr, ◌==◌, ◌≢◌, min, leb, ltb, ◌&&◌, ◌||◌,
}
use llm_metrics.Prelude.Int.{ℤ, pos}
use llm_metrics.Value.{Value}
use llm_metrics.Deadline.{Wait}
use llm_metrics.Client.{
  Net, Client, Attempt, Outcome, raised, done, ok, permanent, retry, classify, attempt_once,
  after_attempt, attempts, try_send, send, backoff, budget, is_spent, cap, pause, drop_events,
  enabled, parse_retry_after,
}
use llm_metrics.Client.Accounting.{Encoded-cases}

abbrev is_retry : Outcome → Bool
is_retry (retry d) = true
is_retry _ = false

abbrev is_ok : Outcome → Bool
is_ok ok = true
is_ok _ = false

-- A response is a success exactly if its status is 2xx, and is tried again exactly if it is 408,
-- 425, 429 or 5xx.
classify_lem :
    (s : ℕ) (retry_after : String)
    → (is_ok (classify s retry_after) ≡ (leb 200 s && ltb s 300))
      × (is_retry (classify s retry_after)
          ≡ (s == 408 || s == 425 || s == 429 || (leb 500 s && ltb s 600)))
unfolding classify
classify_lem s retry_after = (ground arith, ground arith)

module _ {W : Type 0} (net : Net W) where
  try_send_disabled :
      (payload : List Value) (given : Bool) (c : Client) (w : W)
      → enabled c ≡ false
      → payload ≢ []
      → try_send net payload given c w ≡ (none, drop_events payload c, w)
  unfolding try_send
  try_send_disabled [] given c w off some_events = absurd (some_events refl)
  try_send_disabled (v ∷ vs) given c w off some_events = rw (off, try_send)

  -- A client without a key, or a closed one, that is given a batch that is not empty: the world is
  -- as it was, and the batch is counted as dropped.
  send_disabled :
      (payload : List Value) (given : Bool) (c : Client) (w : W)
      → enabled c ≡ false
      → payload ≢ []
      → send net payload given c w ≡ (drop_events payload c, w)
  unfolding send
  send_disabled payload given c w off some_events =
      let e = try_send_disabled payload given c w off some_events in
      let none_raised : (try_send net payload given c w).0 ≡ none = ap (λ r. r.0) e in
      rw (none_raised, send) (ap (λ r. (r.1, r.2)) e)

  -- If the random source keeps to its bound, a wait before a retry is never longer than
  -- `backoff_max`, whatever the server asks for.
  pub backoff-le-max :
      (uniform_le : (d : ℕ) (w : W) → (net.uniform d w).0 ≤ d)
      → (c : Client) (attempt : ℕ) (detail : String) (w : W)
      → (backoff net c attempt detail w).0 ≤ c.backoff_max
  unfolding backoff
  backoff-le-max uniform_le c attempt detail w =
      let d = min c.backoff_max (c.backoff_base * 2 ^ attempt) in
      elim (Option-cases (parse_retry_after net detail)) [
        | inl own ↦ rw (own, backoff) (omega (arith, uniform_le d w))
        | inr (n, asked) ↦ rw (asked, backoff) (omega arith)
      ]

  -- The requests of a run, by a count that `post` raises by one and nothing else changes.
  module _ (count : W → ℕ)
      (post_counts : (u b : String) (t : ℤ) (w : W) → count (net.post u b t w).1 ≡ count w + 1)
      (wait_counts : (d : Wait) (w : W) → count (net.wait d w) ≡ count w)
      (uniform_counts : (d : ℕ) (w : W) → count (net.uniform d w).1 ≡ count w) where
    count-attempt_once :
        (body : String) (left : Option ℤ) (c : Client) (w : W)
        → count (attempt_once net body left c w).2 ≡ count w + 1
    unfolding attempt_once
    count-attempt_once body left c w = post_counts _ _ _ w

    count-backoff :
        (c : Client) (attempt : ℕ) (detail : String) (w : W)
        → count (backoff net c attempt detail w).1 ≡ count w
    unfolding backoff
    count-backoff c attempt detail w = elim (Option-cases (parse_retry_after net detail)) [
      | inl own ↦ rw (own, backoff) (uniform_counts _ w)
      | inr (n, asked) ↦ rw (asked, backoff)
    ]

    count-pause : (given : Bool) (t : ℤ) (w : W) → count (pause net given t w) ≡ count w
    unfolding pause
    count-pause given t w = wait_counts _ w

    count-after_attempt :
        (r : Attempt) (payload : List Value) (attempt : ℕ) (given : Bool)
        (next : Client → W → Option String × Client × W) (c : Client) (w : W) (n : ℕ)
        → ((c' : Client) (w' : W) → count (next c' w').2 ≤ count w' + n)
        → count (after_attempt net r payload attempt given next c w).2 ≤ count w + n
    unfolding after_attempt
    count-after_attempt (raised e) payload attempt given next c w n ih = omega arith
    count-after_attempt (done ok) payload attempt given next c w n ih = omega arith
    count-after_attempt (done (permanent d)) payload attempt given next c w n ih = omega arith
    count-after_attempt (done (retry d)) payload attempt given next c w n ih =
        let (delay, w') = backoff net c attempt d w in
        let same = count-backoff c attempt d w in
        let c' = record c { stats = record c.stats { retries = c.stats.retries + 1 } } in
        let t = cap net (budget net given w') (pos delay) in
        elim (Bool-cases (attempt + 1 == c.max_attempts)) [
          | inl last ↦ rw (last, after_attempt) (omega arith)
          | inr more ↦
              rw (more, after_attempt)
                (elim (Bool-cases (is_spent net (budget net given w'))) [
                  | inl spent ↦ rw (spent, after_attempt) (omega arith)
                  | inr time ↦
                      rw (time, after_attempt)
                        (omega (arith, ih c' (pause net given t w'), count-pause given t w', same))
                ])
        ]

    count-attempts :
        (left attempt : ℕ) (payload : List Value) (body : String) (given : Bool) (c : Client)
        (w : W)
        → count (attempts net left attempt payload body given c w).2 ≤ count w + left
    unfolding attempts
    count-attempts zero attempt payload body given c w = omega arith
    count-attempts (suc left) attempt payload body given c w =
        elim (Bool-cases (is_spent net (budget net given w))) [
          | inl spent ↦ rw (spent, attempts) (omega arith)
          | inr time ↦
              let (r, c', w') = attempt_once net body (budget net given w) c w in
              rw (time, attempts)
                (omega (
                  arith,
                  count-attempt_once body (budget net given w) c w,
                  count-after_attempt r payload attempt given
                      (attempts net left (attempt + 1) payload body given) c' w' left
                      (count-attempts left (attempt + 1) payload body given),
                ))
        ]

    count-try_send :
        (payload : List Value) (given : Bool) (c : Client) (w : W)
        → count (try_send net payload given c w).2 ≤ count w + c.max_attempts
    unfolding try_send
    count-try_send [] given c w = omega arith
    count-try_send (v ∷ vs) given c w = elim (Bool-cases (enabled c)) [
      | inl on ↦ elim (Encoded-cases (net.encode (v ∷ vs))) [
        | inl (e, bad) ↦ rw (on, bad, try_send) (omega arith)
        | inr (b, good) ↦
            rw (on, good, try_send) (count-attempts c.max_attempts 0 (v ∷ vs) b given c w)
      ]
      | inr off ↦ rw (off, try_send) (omega arith)
    ]

    -- For a count that `post` raises by one and that waiting and drawing a random number leave
    -- alone: one batch raises it by at most `max_attempts`, the first attempt included.
    pub send-requests-le :
        (payload : List Value) (given : Bool) (c : Client) (w : W)
        → count (send net payload given c w).1 ≤ count w + c.max_attempts
    unfolding send
    send-requests-le payload given c w =
        let h = count-try_send payload given c w in
        elim (Option-cases (try_send net payload given c w).0) [
          | inl fine ↦ rw (fine, send) h
          | inr (e, failed) ↦ rw (failed, send) h
        ]
