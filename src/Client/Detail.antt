-- ===== src/Client/Detail.antt =====
-- How `Retry-After` travels through the error detail of llm_metrics/client.py: `_attempt` writes it
-- behind a bar, and `_parse_retry_after` reads it from there.
use llm_metrics.Prelude.{
  ℕ, zero, suc, ◌/◌, ◌%◌, String, Bool, false, ◌||◌, ◌&&◌, ◌==◌, leb, ltb, str_eq, ◌⧺◌, decimal,
  digit, decimal_digits, if◌then◌else◌, ◌≡◌, refl, ◌∙◌, ap, sym, arith, Bool-cases, inl, inr,
}
use llm_metrics.Client.{
  Attempt, done, read_reply, response, Client, retry, classify, is_retryable, is_auth, after_bar,
}

-- the text holds a bar
unfoldable has_bar : String → Bool
has_bar String.[] = false
has_bar (String.◌∷◌ c s) = str_eq (String.◌∷◌ c String.[]) "|" || has_bar s

has_bar-append : (s t : String) → has_bar (s ⧺ t) ≡ (has_bar s || has_bar t)
unfolding has_bar
has_bar-append String.[] t = refl
has_bar-append (String.◌∷◌ c s) t = ground (arith, has_bar-append s t)

has_bar-digit : (n : ℕ) → has_bar (digit n) ≡ false
unfolding has_bar
has_bar-digit zero = refl
has_bar-digit (suc zero) = refl
has_bar-digit (suc (suc zero)) = refl
has_bar-digit (suc (suc (suc zero))) = refl
has_bar-digit (suc (suc (suc (suc zero)))) = refl
has_bar-digit (suc (suc (suc (suc (suc zero))))) = refl
has_bar-digit (suc (suc (suc (suc (suc (suc zero)))))) = refl
has_bar-digit (suc (suc (suc (suc (suc (suc (suc zero))))))) = refl
has_bar-digit (suc (suc (suc (suc (suc (suc (suc (suc zero)))))))) = refl
has_bar-digit (suc (suc (suc (suc (suc (suc (suc (suc (suc n))))))))) = refl

has_bar-decimal_digits : (fuel n : ℕ) → has_bar (decimal_digits fuel n) ≡ false
unfolding decimal_digits
has_bar-decimal_digits zero n = unfold has_bar in refl
has_bar-decimal_digits (suc fuel) zero = unfold has_bar in refl
has_bar-decimal_digits (suc fuel) (suc n) =
    has_bar-append (decimal_digits fuel (suc n / 10)) (digit (suc n % 10))
    ∙ rw (has_bar-decimal_digits fuel (suc n / 10), has_bar-digit (suc n % 10))

has_bar-decimal : (n : ℕ) → has_bar (decimal n) ≡ false
unfolding decimal
has_bar-decimal zero = unfold has_bar in refl
has_bar-decimal (suc n) = has_bar-decimal_digits (suc n) (suc n)

-- what follows the first bar
after_bar-append : (s t : String) → has_bar s ≡ false → after_bar (s ⧺ "|" ⧺ t) ≡ t
unfolding after_bar has_bar
after_bar-append String.[] t no_bar = refl
after_bar-append (String.◌∷◌ c s) t no_bar =
    elim (Bool-cases (str_eq (String.◌∷◌ c String.[]) "|")) [
      | inl bar ↦ cc (rw bar at no_bar)
      | inr other ↦ rw other (after_bar-append s t (rw other at no_bar))
    ]

after_bar-detail : (s : ℕ) (t : String) → after_bar ("HTTP " ⧺ decimal s ⧺ "|" ⧺ t) ≡ t
unfolding after_bar
after_bar-detail s t = after_bar-append (decimal s) t (has_bar-decimal s)

abbrev detail_of : Attempt → String
detail_of (done (retry detail)) = detail
detail_of _ = ""

-- the header as the retry policy is to see it: that of a status of `RETRYABLE_STATUS`, and no
-- header for the other statuses from 500 on
abbrev pub header_seen : ℕ → String → String
header_seen s retry_after =
    if s == 408 || s == 425 || s == 429 || s == 500 || s == 502 || s == 503 || s == 504
    then retry_after
    else ""

after_bar-classify :
    (s : ℕ) (retry_after : String)
    → after_bar (detail_of (done (classify s retry_after)))
      ≡ (if leb 200 s && ltb s 300 then "" else if is_auth s then "" else header_seen s retry_after)
unfolding classify is_retryable
after_bar-classify s retry_after = elim (Bool-cases (leb 200 s && ltb s 300)) [
  | inl fine ↦ rw fine (unfold after_bar in refl)
  | inr bad ↦ elim (Bool-cases (is_auth s)) [
    | inl auth ↦ rw (bad, auth) (unfold after_bar in refl)
    | inr other ↦ elim (Bool-cases (is_retryable s)) [
      | inl again ↦ rw (bad, other, again) (after_bar-detail s retry_after)
      | inr rare ↦ elim (Bool-cases (leb 500 s && ltb s 600)) [
        | inl five ↦ rw (bad, other, rare, five) (after_bar-detail s "")
        | inr last ↦ rw (bad, other, rare, last) (unfold after_bar in refl)
      ]
    ]
  ]
]

-- `Retry-After` survives its way through the error detail: whatever the status and the text of the
-- header are, also a text with bars of its own, if `_attempt` answers a response with `retry`, what
-- stands behind the first bar of the detail is the whole header for the statuses 408, 425, 429,
-- 500, 502, 503 and 504, and nothing for any other status.
pub after_bar-read_reply :
    (s : ℕ) (retry_after detail : String) (c : Client)
    → (read_reply (response s retry_after) c).0 ≡ done (retry detail)
    → after_bar detail ≡ header_seen s retry_after
unfolding read_reply classify
after_bar-read_reply s retry_after detail c again =
    let seen : after_bar detail ≡ _ =
      ap (λ a. after_bar (detail_of a)) (sym again) ∙ after_bar-classify s retry_after in
    elim (Bool-cases (leb 200 s && ltb s 300)) [
      | inl fine ↦ cc (rw fine at again)
      | inr bad ↦ elim (Bool-cases (is_auth s)) [
        | inl auth ↦ cc (rw (bad, auth) at again)
        | inr other ↦ rw (bad, other) at seen
      ]
    ]
