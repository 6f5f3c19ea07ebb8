-- ===== src/Examples/Threads.antt =====
-- A run of two threads on one buffer.
use llm_metrics.Prelude.{ℕ, ◌≡◌, ◌<◌, refl, true, false, [], ◌++◌, length, arith}
use llm_metrics.Prelude.Int.{pos, ◌-ℤ◌, ◌+ℤ◌}
use llm_metrics.Deadline.{expired, arm, nine_tenths, unarmed, arm}
use llm_metrics.Buffer.{
  Config, entity, accept, take_batch, is_idle, empty, deque_append, take_from, send, payload,
  to_payload, batch_done, set_wake,
}
use llm_metrics.Buffer.Threads.{
  System, Reach, start, later, Step, go_on, found, nothing, sends, finishes, clear_wake, arm_for,
  set_shutdown,
}
use llm_metrics.Buffer.Threads.Order.{Reach-InOrder}
use llm_metrics.Buffer.Threads.Flight.{Quiet, Reach-Quiet}
use llm_metrics.Buffer.Threads.Wakeups.{Reach-wakeup, Reach-ended}
use llm_metrics.Examples.Delivery.{recorder}

abbrev config : Config
config = record { max_size = 2; flush_at = 1; flush_interval = pos 5; shutdown_timeout = pos 5 }

-- one event comes, and the flush thread delivers it
abbrev delivered : (s : System ℕ) × Reach recorder config s
unfolding empty unarmed expired accept deque_append take_batch take_from send payload to_payload
    batch_done set_wake clear_wake
delivered =
    let accepted = later start (Step.accepts (entity 1) refl) in
    let called = later accepted (Step.wakes {n = 0} refl) in
    let stirred = later called (Step.stirs refl) in
    let cleared = later stirred (Step.clears refl) in
    let draining = later cleared (Step.reads refl) in
    let going = later draining (Step.flushes refl (go_on (pos 0) refl)) in
    let holding = later going (Step.flushes refl (found refl)) in
    let handed = later holding (Step.flushes refl (sends [])) in
    let done = later handed (Step.flushes refl finishes) in
    let again = later done (Step.flushes refl (go_on (pos 0) refl)) in
    (_, later again (Step.flushes refl (nothing refl)))

Reach-InOrder_example : let s = delivered.0 in s.out ++ s.buffer.queue ≡ s.accepted
Reach-InOrder_example = Reach-InOrder recorder delivered.1

Reach-Quiet_example : Quiet recorder delivered.0
unfolding is_idle delivered ◌-ℤ◌ ◌+ℤ◌
Reach-Quiet_example = Reach-Quiet recorder (omega arith) (omega arith) delivered.1 refl

Reach-wakeup_example :
    let b = delivered.0.buffer in (length b.queue < b.flush_at) × (b.shutdown ≡ false)
unfolding delivered
Reach-wakeup_example =
    Reach-wakeup recorder (omega arith) (omega arith) delivered.1 refl refl refl refl

-- a shutdown begins while the flush thread waits
abbrev shut_down : (s : System ℕ) × Reach recorder config s
unfolding delivered arm_for set_shutdown set_wake clear_wake expired arm take_batch take_from ◌-ℤ◌
    ◌+ℤ◌ nine_tenths
shut_down =
    let armed = later delivered.1 (Step.arms (pos 0) (pos 5)) in
    let shut = later armed Step.shuts in
    let called = later shut (Step.wakes {n = 0} refl) in
    let stirred = later called (Step.stirs refl) in
    let cleared = later stirred (Step.clears refl) in
    let draining = later cleared (Step.reads refl) in
    let going = later draining (Step.flushes refl (go_on (pos 1) refl)) in
    (_, later going (Step.flushes refl (nothing refl)))

Reach-ended_example : let b = shut_down.0.buffer in (length b.queue ≡ 0) × (b.shutdown ≡ true)
unfolding shut_down
Reach-ended_example = Reach-ended recorder (omega arith) (omega arith) shut_down.1 refl refl
