-- ===== src/Deadline.antt =====
-- `Deadline` of llm_metrics/buffer.py: a time budget that is armed after it was handed out. Times
-- are whole microseconds, a reading of the monotonic clock is the argument `now`.
use llm_metrics.Prelude.{
  ◌≡◌, Bool, true, false, Option, none, some, if◌then◌else◌, arith, ◌*◌, ◌/◌, suc,
}
use llm_metrics.Prelude.Int.{ℤ, pos, negsuc, ◌+ℤ◌, ◌-ℤ◌, ◌≤ℤ◌, leb_ℤ, min_ℤ, sub_ℕ}

pub record Deadline : Type 0 where
  -- `_at`
  pub due : Option ℤ
  pub armed : Bool

unfoldable pub unarmed : Deadline
unarmed = record { due = none; armed = false }

unfoldable pub arm : ℤ → ℤ → Deadline → Deadline
arm now seconds d = record { due = some (now +ℤ seconds); armed = true }

unfoldable pub remaining : ℤ → Deadline → Option ℤ
remaining now d = elim d.due [ none ↦ none | some due ↦ some (due -ℤ now) ]

unfoldable pub expired : ℤ → Deadline → Bool
unfolding remaining
expired now d = elim (remaining now d) [ none ↦ false | some left ↦ leb_ℤ left (pos 0) ]

-- What a call of `sleep` waits for: the arming or the given time, whichever is first, or a plain
-- time, or nothing.
pub data Wait : Type 0 where
  until_armed : ℤ → Wait
  plain : ℤ → Wait
  no_wait : Wait

-- `seconds = min(seconds, remaining)`, if there is a limit
unfoldable pub cut : Option ℤ → ℤ → ℤ
cut none seconds = seconds
cut (some left) seconds = min_ℤ seconds left

unfoldable pub sleep : ℤ → ℤ → Deadline → Wait
unfolding remaining cut
sleep now seconds d =
    if d.armed
    then (let wait = cut (remaining now d) seconds in
        if leb_ℤ wait (pos 0) then no_wait else plain wait)
    else until_armed seconds

-- `0.9 * timeout`, to the microsecond
unfoldable pub nine_tenths : ℤ → ℤ
nine_tenths (pos n) = pos (n * 9 / 10)
nine_tenths (negsuc n) = sub_ℕ 0 (suc n * 9 / 10)

-- A plain sleep against an armed deadline is positive, never longer than was asked for and never
-- longer than what is left of the budget.
sleep_bounds :
    (now seconds due wait : ℤ)
    → sleep now seconds (record { due = some due; armed = true }) ≡ plain wait
    → (pos 1 ≤ℤ wait) × (wait ≤ℤ seconds) × (wait ≤ℤ due -ℤ now)
unfolding sleep
sleep_bounds now seconds due wait e = ground arith

-- Once the budget of an armed deadline is used up, nothing sleeps on it any more.
sleep-expired :
    (now seconds : ℤ) (d : Deadline)
    → d.armed ≡ true
    → expired now d ≡ true
    → sleep now seconds d ≡ no_wait
unfolding sleep expired
sleep-expired now seconds d armed used = ground arith
