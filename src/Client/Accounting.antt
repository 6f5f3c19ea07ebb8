-- ===== src/Client/Accounting.antt =====
-- What `send` of llm_metrics/client.py counts.
use llm_metrics.Prelude.{
  ℕ, zero, suc, ◌+◌, ◌≤◌, ◌≡◌, refl, String, Bool, true, Option, none, some, List, [], ◌∷◌, arith,
  length, Bool-cases, inl, inr, ◌==◌, ◌≢◌, ◌⊎◌, Option-cases, ap, subst, ◌∙◌,
}
use llm_metrics.Prelude.Int.{ℤ}
use llm_metrics.Value.{Value}
use llm_metrics.Client.{
  Net, Client, Reply, Attempt, read_reply, attempt_once, attempts, try_send, send, backoff, budget,
  is_spent, cap, enabled, Encoded, encoded, unencodable, after_attempt, raised, done, ok, permanent,
  retry,
}

-- the events that the counters account for
abbrev pub accounted : Client → ℕ
accounted c = c.stats.sent_events + c.stats.dropped_events

-- what `send` still has to count when the attempts raised
abbrev owed : Option String → List Value → ℕ
owed none payload = 0
owed (some e) payload = length payload

record Quiet (c c' : Client) : Type 0 where
  stats : c'.stats ≡ c.stats
  max_attempts : c'.max_attempts ≡ c.max_attempts

read_reply-Quiet : (r : Reply) (c : Client) → Quiet c (read_reply r c).1
unfolding read_reply
read_reply-Quiet r c = ground arith

pub Encoded-cases :
    (x : Encoded) → ((e : String) × (x ≡ unencodable e)) ⊎ ((b : String) × (x ≡ encoded b))
Encoded-cases (unencodable e) = inl (e, refl)
Encoded-cases (encoded b) = inr (b, refl)

module _ {W : Type 0} (net : Net W) where
  attempt_once-Quiet :
      (body : String) (left : Option ℤ) (c : Client) (w : W)
      → Quiet c (attempt_once net body left c w).1
  unfolding attempt_once
  attempt_once-Quiet body left c w =
      let (reply, w') = net.post c.url body (cap net left c.timeout) w in
      let q = read_reply-Quiet reply (record c { http = true }) in
      record { stats = q.stats; max_attempts = q.max_attempts }

  -- after a run of the loop `n` events are accounted for, or about to be
  abbrev Accounts : List Value → ℕ → Option String × Client × W → Type 0
  Accounts payload n r = accounted r.1 + owed r.0 payload ≡ n

  after_attempt-Accounts :
      (r : Attempt) (payload : List Value) (attempt : ℕ) (given : Bool)
      (next : Client → W → Option String × Client × W) (c : Client) (w : W)
      → (attempt + 1 ≢ c.max_attempts
          → (c' : Client) (w' : W) → accounted c' ≡ accounted c
          → c'.max_attempts ≡ c.max_attempts
          → Accounts payload (accounted c + length payload) (next c' w'))
      → Accounts payload
          (accounted c + length payload)
          (after_attempt net r payload attempt given next c w)
  unfolding after_attempt
  after_attempt-Accounts (raised e) payload attempt given next c w ih = omega arith
  after_attempt-Accounts (done ok) payload attempt given next c w ih = omega arith
  after_attempt-Accounts (done (permanent d)) payload attempt given next c w ih = omega arith
  after_attempt-Accounts (done (retry d)) payload attempt given next c w ih =
      elim (Bool-cases (attempt + 1 == c.max_attempts)) [
        | inl last ↦ rw (last, after_attempt) (omega arith)
        | inr more ↦
            let (delay, w') = backoff net c attempt d w in
            rw (more, after_attempt)
              (elim (Bool-cases (is_spent net (budget net given w'))) [
                | inl spent ↦ rw (spent, after_attempt) (omega arith)
                | inr time ↦ rw (time, after_attempt) (ih (ground arith) _ _ refl refl)
              ])
      ]

  -- With `left` rounds to go up to the last one, the loop sends or drops the batch, or raises and
  -- leaves it to `send`: it never falls through its end.
  attempts-Accounts :
      (left attempt : ℕ) (payload : List Value) (body : String) (given : Bool) (c : Client) (w : W)
      → 1 ≤ left
      → attempt + left ≡ c.max_attempts
      → Accounts payload
          (accounted c + length payload)
          (attempts net left attempt payload body given c w)
  unfolding attempts
  attempts-Accounts zero attempt payload body given c w some_left e = absurd (omega arith)
  attempts-Accounts (suc left) attempt payload body given c w some_left e =
      elim (Bool-cases (is_spent net (budget net given w))) [
        | inl spent ↦ rw (spent, attempts) (omega arith)
        | inr time ↦
            let (r, c', w') = attempt_once net body (budget net given w) c w in
            let q : Quiet c c' = attempt_once-Quiet body (budget net given w) c w in
            let same : accounted c' ≡ accounted c =
              ap (λ s. s.sent_events + s.dropped_events) q.stats in
            rw (time, attempts)
              (subst
                (λ n. Accounts payload (n + length payload) (
                  after_attempt net r payload attempt given
                    (attempts net left (attempt + 1) payload body given) c' w'))
                same
                (after_attempt-Accounts r payload attempt given _ c' w' λ more c'' w'' kept limit.
                  let still = limit ∙ q.max_attempts in
                  subst
                    (λ n.
                      Accounts payload (n + length payload)
                        (attempts net left (attempt + 1) payload body given c'' w''))
                    kept
                    (attempts-Accounts left (attempt + 1) payload body given c'' w'' (omega arith)
                      (omega arith))))
      ]

  try_send-Accounts :
      (payload : List Value) (given : Bool) (c : Client) (w : W)
      → 1 ≤ c.max_attempts
      → Accounts payload (accounted c + length payload) (try_send net payload given c w)
  unfolding try_send
  try_send-Accounts [] given c w positive = omega arith
  try_send-Accounts (v ∷ vs) given c w positive = elim (Bool-cases (enabled c)) [
    | inl on ↦ elim (Encoded-cases (net.encode (v ∷ vs))) [
      | inl (e, bad) ↦ rw (on, bad, try_send) (omega arith)
      | inr (b, good) ↦
          rw (on, good, try_send)
            (attempts-Accounts c.max_attempts 0 (v ∷ vs) b given c w positive (omega arith))
    ]
    | inr off ↦ rw (off, try_send) (omega arith)
  ]

  -- If at least one attempt is allowed, then whatever the network does, `send` raises the number
  -- of events that are counted as sent or as dropped by exactly the length of its batch.
  pub send-accounted :
      (payload : List Value) (given : Bool) (c : Client) (w : W)
      → 1 ≤ c.max_attempts
      → accounted (send net payload given c w).0 ≡ accounted c + length payload
  unfolding send
  send-accounted payload given c w positive =
      let h = try_send-Accounts payload given c w positive in
      elim (Option-cases (try_send net payload given c w).0) [
        | inl fine ↦ rw (fine, send) (omega (arith, rw fine at h))
        | inr (e, failed) ↦ rw (failed, send) (omega (arith, rw failed at h))
      ]
