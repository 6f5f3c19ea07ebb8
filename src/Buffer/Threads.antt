-- ===== src/Buffer/Threads.antt =====
-- The threads around one buffer of llm_metrics/buffer.py, interleaved in any order: the callers of
-- `add`, of `shutdown` and of `flush_once`, and the flush thread. What runs under the lock is one
-- step; what runs outside it may be interrupted between any two statements. The fields `accepted`
-- to `gave_up` are not in the program: they record what has happened.
pub mod Order
pub mod Held
pub mod Flight
pub mod Kept
pub mod Wakeups
use llm_metrics.Prelude.{
  ℕ, suc, ◌+◌, ◌≡◌, Bool, true, false, ◌||◌, Option, none, some, List, [], ◌∷◌, ◌++◌, length, take,
  ltb, if◌then◌else◌,
}
use llm_metrics.Prelude.Int.{ℤ}
use llm_metrics.Deadline.{arm, expired, nine_tenths}
use llm_metrics.Buffer.{
  Event, Buffer, Config, Host, empty, reject, accept, set_wake, take_batch, batch_done, send,
  is_idle,
}

-- where a thread stands in `_drain`, with its batch
pub data Pc (E : Type 0) : Type 0 where
  top taking : Pc E
  holding handed : List (Event E) → Pc E

-- where the flush thread stands in `_run`, with its `shutting_down`
pub data Flusher (E : Type 0) : Type 0 where
  waiting woken cleared : Flusher E
  draining : Bool → Pc E → Flusher E
  ended : Flusher E

-- where a caller of `flush_once` stands
pub data Caller (E : Type 0) : Type 0 where
  drains : Pc E → Caller E
  awaits : Caller E

-- the deadline is armed, as `shutdown` does it
unfoldable pub arm_for : {E : Type 0} → ℤ → ℤ → Buffer E → Buffer E
arm_for now timeout b = record b { deadline = arm now (nine_tenths timeout) b.deadline }

unfoldable pub set_shutdown : {E : Type 0} → Buffer E → Buffer E
set_shutdown b = record b { shutdown = true }

unfoldable pub clear_wake : {E : Type 0} → Buffer E → Buffer E
clear_wake b = record b { wake = false }

-- One step of a thread in `_drain`, and where it stands after it; `none` means that it returns.
pub data Drain {E W : Type 0} (h : Host E W) (b : Buffer E)
    : Pc E → Buffer E → Option (Pc E) → Type 0 where
  give_up : (now : ℤ) → expired now b.deadline ≡ true → Drain h b top b none
  go_on : (now : ℤ) → expired now b.deadline ≡ false → Drain h b top b (some taking)
  found :
      {e : Event E} {es : List (Event E)}
      → (take_batch b).0 ≡ e ∷ es
      → Drain h b taking (take_batch b).1 (some (holding (e ∷ es)))
  nothing : (take_batch b).0 ≡ [] → Drain h b taking (take_batch b).1 none
  sends :
      {batch : List (Event E)} (w : W)
      → Drain h b (holding batch) (send h batch b w).0 (some (handed batch))
  finishes : {batch : List (Event E)} → Drain h b (handed batch) (batch_done b) (some top)

-- the events that such a step takes off the queue, and those whose batch it finishes
abbrev pub taken : {E : Type 0} → Pc E → Option (Pc E) → List (Event E)
taken taking (some (holding batch)) = batch
taken p q = []

abbrev pub settled : {E : Type 0} → Pc E → ℕ
settled (handed batch) = length batch
settled p = 0

abbrev pub quits : {E : Type 0} → Pc E → Option (Pc E) → Bool
quits top none = true
quits p q = false

abbrev pub go_back : {E : Type 0} → Bool → Option (Pc E) → Flusher E
go_back last (some p) = draining last p
go_back true none = ended
go_back false none = waiting

abbrev pub stay : {E : Type 0} → Option (Pc E) → Caller E
stay (some p) = drains p
stay none = awaits

-- what the `deque` lets go when the event is appended
abbrev pub evicted : {E : Type 0} → Event E → Buffer E → List (Event E)
evicted e b = let q = b.queue ++ e ∷ [] in if ltb b.max_size (length q) then take 1 q else []

pub record System (E : Type 0) : Type 0 where
  pub buffer : Buffer E
  pub flusher : Flusher E
  pub callers : List (Caller E)
  -- the threads that are about to call `_wake.set()`
  pub to_wake : ℕ
  -- the events that were appended, and those that left the queue, in order
  pub accepted : List (Event E)
  pub out : List (Event E)
  -- the number of evicted events, and of events whose batch is finished
  pub lost : ℕ
  pub finished : ℕ
  -- a drain has returned because the budget was used up
  pub gave_up : Bool

abbrev launched : {E : Type 0} → Config → System E
launched c = record {
  buffer = empty c;
  flusher = waiting;
  callers = [];
  to_wake = 0;
  accepted = [];
  out = [];
  lost = 0;
  finished = 0;
  gave_up = false;
}

module _ {E W : Type 0} (h : Host E W) where
  pub data Step (s : System E) : System E → Type 0 where
    -- `add`
    rejects : s.buffer.shutdown ≡ true → Step s (record s { buffer = reject s.buffer })
    accepts :
        (e : Event E)
        → s.buffer.shutdown ≡ false
        → Step s (record s {
          buffer = (accept e s.buffer).0;
          to_wake = if (accept e s.buffer).1 then suc s.to_wake else s.to_wake;
          accepted = s.accepted ++ e ∷ [];
          out = s.out ++ evicted e s.buffer;
          lost = s.lost + length (evicted e s.buffer);
        })
    wakes :
        {n : ℕ} → s.to_wake ≡ suc n → Step s (record s { buffer = set_wake s.buffer; to_wake = n })
    -- `shutdown`
    arms : (now timeout : ℤ) → Step s (record s { buffer = arm_for now timeout s.buffer })
    shuts : Step s (record s { buffer = set_shutdown s.buffer; to_wake = suc s.to_wake })
    -- `_run`; its wait may end by the interval alone
    stirs : s.flusher ≡ waiting → Step s (record s { flusher = woken })
    clears :
        s.flusher ≡ woken → Step s (record s { buffer = clear_wake s.buffer; flusher = cleared })
    reads : s.flusher ≡ cleared → Step s (record s { flusher = draining s.buffer.shutdown top })
    flushes :
        {last : Bool} {p : Pc E} {b : Buffer E} {q : Option (Pc E)}
        → s.flusher ≡ draining last p
        → Drain h s.buffer p b q
        → Step s (record s {
          buffer = b;
          flusher = go_back last q;
          out = s.out ++ taken p q;
          finished = s.finished + settled p;
          gave_up = s.gave_up || quits p q;
        })
    -- `flush_once`
    calls : Step s (record s { callers = drains top ∷ s.callers })
    helps :
        (xs ys : List (Caller E)) {p : Pc E} {b : Buffer E} {q : Option (Pc E)}
        → s.callers ≡ xs ++ drains p ∷ ys
        → Drain h s.buffer p b q
        → Step s (record s {
          buffer = b;
          callers = xs ++ stay q ∷ ys;
          out = s.out ++ taken p q;
          finished = s.finished + settled p;
          gave_up = s.gave_up || quits p q;
        })
    returns :
        (xs ys : List (Caller E))
        → s.callers ≡ xs ++ awaits ∷ ys
        → is_idle s.buffer ≡ true
        → Step s (record s { callers = xs ++ ys })
    times_out :
        (xs ys : List (Caller E))
        → s.callers ≡ xs ++ awaits ∷ ys
        → Step s (record s { callers = xs ++ ys })

  pub data Reach (c : Config) : System E → Type 0 where
    start : Reach c (launched c)
    later : {s t : System E} → Reach c s → Step s t → Reach c t
