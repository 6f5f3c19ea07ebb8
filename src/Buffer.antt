-- ===== src/Buffer.antt =====
-- `EventBuffer` of llm_metrics/buffer.py: the bounded queue, the flush thread and the shutdown.
-- The flush target and the clock belong to the host: they are the fields of `Host`, over a state
-- `W` of the world outside the buffer.
pub mod Bounds
pub mod Drain
pub mod Delivery
pub mod Shutdown
pub mod Threads
use llm_metrics.Prelude.{
  ℕ, zero, suc, ◌+◌, Bool, true, false, not, ◌&&◌, Option, none, some, List, [], ◌∷◌, ◌++◌, ltb,
  leb, ◌==◌, if◌then◌else◌, length, take, drop, min, or_else,
}
use llm_metrics.Prelude.Int.{ℤ, pos, ◌+ℤ◌, ◌-ℤ◌, leb_ℤ}
use llm_metrics.Value.{Value}
use llm_metrics.Deadline.{Deadline, unarmed, arm, expired, nine_tenths}

-- `Event`: a dict, or an object with a `to_dict`
pub data Event (E : Type 0) : Type 0 where
  dict : Value → Event E
  entity : E → Event E

pub record BufferStats : Type 0 where
  pub queued : ℕ
  pub flushed : ℕ
  pub dropped : ℕ
  pub failed_batches : ℕ

-- `_thread`: `None`, created but not yet started, running, ended
pub data Thread : Type 0 where
  absent created alive dead : Thread

abbrev is_alive : Thread → Bool
is_alive Thread.alive = true
is_alive _ = false

pub record Config : Type 0 where
  pub max_size : ℕ
  pub flush_at : ℕ
  pub flush_interval : ℤ
  pub shutdown_timeout : ℤ

pub record Buffer (E : Type 0) : Type 0 where
  pub config : Config
  pub open config use *
  pub queue : List (Event E)
  pub wake : Bool
  pub shutdown : Bool
  pub thread : Thread
  pub atexit_hook : Bool
  pub fork_registered : Bool
  pub deadline : Deadline
  pub in_flight : ℤ
  pub stats : BufferStats

pub data Error : Type 0 where
  value_error runtime_error : Error

pub data Result (A : Type 0) : Type 0 where
  ok : A → Result A
  raise : Error → Result A

-- `to_dict` returns nothing if it raised; `flush_fn` says whether it returned (`true`) or raised.
pub record Host (E W : Type 0) : Type 0 where
  pub now : W → ℤ
  pub to_dict : E → Option Value
  pub flush_fn : List Value → Deadline → W → Bool × W

abbrev pub no_stats : BufferStats
no_stats = record { queued = 0; flushed = 0; dropped = 0; failed_batches = 0 }

module _ {E : Type 0} where
  unfoldable pub empty : Config → Buffer E
  unfolding unarmed
  empty c = record {
    config = c;
    queue = [];
    wake = false;
    shutdown = false;
    thread = Thread.absent;
    atexit_hook = false;
    fork_registered = false;
    deadline = unarmed;
    in_flight = pos 0;
    stats = no_stats;
  }

  -- `start`, under the lock: an error, or whether a new thread was made
  unfoldable claim_thread : Buffer E → Result (Bool × Buffer E)
  claim_thread b = elim b.thread [
    | Thread.alive ↦ ok (false, b)
    | _ ↦
        if b.shutdown then raise runtime_error else ok (true, record b { thread = Thread.created })
  ]

  -- the rest of `start`, after the lock is released
  unfoldable launch : Buffer E → Buffer E
  launch b = record b { atexit_hook = true; fork_registered = true; thread = Thread.alive }

  unfoldable pub start : Buffer E → Result (Buffer E)
  unfolding claim_thread launch
  start b = elim (claim_thread b) [
    | raise e ↦ raise e
    | ok (made, b') ↦ if made then ok (launch b') else ok b'
  ]

  -- the constructor, with `start` as its last argument
  unfoldable pub init : Config → Bool → Result (Buffer E)
  unfolding empty start
  init c now =
      if ltb c.max_size 1
      then raise value_error
      else if ltb c.flush_at 1
      then raise value_error
      else if leb_ℤ c.flush_interval (pos 0)
      then raise value_error
      else if now
      then start (empty c)
      else ok (empty c)

  unfoldable pub reset_after_fork : Buffer E → Result (Buffer E)
  unfolding start
  reset_after_fork b = start (record b {
    queue = [];
    wake = false;
    shutdown = false;
    deadline = unarmed;
    in_flight = pos 0;
    thread = Thread.absent;
    stats = no_stats;
  })

  -- `deque(maxlen=n).append`: past the cap the oldest entry goes
  unfoldable pub deque_append : ℕ → List (Event E) → Event E → List (Event E)
  deque_append n q e = let q' = q ++ e ∷ [] in if ltb n (length q') then drop 1 q' else q'

  -- the branch of `add` after a shutdown
  unfoldable pub reject : Buffer E → Buffer E
  reject b = record b { stats = record b.stats { dropped = b.stats.dropped + 1 } }

  -- the rest of `add` under the lock, with the value of `should_wake`
  unfoldable pub accept : Event E → Buffer E → Buffer E × Bool
  accept e b =
      let overflowed = length b.queue == b.max_size in
      let queue = deque_append b.max_size b.queue e in
      let dropped = if overflowed then b.stats.dropped + 1 else b.stats.dropped in
      (
        record b {
          queue = queue;
          stats = record b.stats { queued = b.stats.queued + 1; dropped = dropped };
        },
        leb b.flush_at (length queue),
      )

  unfoldable pub set_wake : Buffer E → Buffer E
  set_wake b = record b { wake = true }

  unfoldable pub add : Event E → Buffer E → Buffer E
  unfolding reject accept set_wake
  add e b =
      if b.shutdown
      then reject b
      else (let (b', should_wake) = accept e b in if should_wake then set_wake b' else b')

  -- `_take_batch`, by the test of the queue
  unfoldable pub take_from : List (Event E) → Buffer E → List (Event E) × Buffer E
  take_from [] b = ([], b)
  take_from (e ∷ rest) b =
      let n = min b.flush_at (length (e ∷ rest)) in
      (take n (e ∷ rest), record b { in_flight = b.in_flight +ℤ pos 1; queue = drop n (e ∷ rest) })

  unfoldable pub take_batch : Buffer E → List (Event E) × Buffer E
  unfolding take_from
  take_batch b = take_from b.queue b

  -- the state after `_batch_done`; `notify_all` only wakes waiters, which test again
  unfoldable pub batch_done : Buffer E → Buffer E
  batch_done b = record b { in_flight = b.in_flight -ℤ pos 1 }

  -- the predicate of `wait_until_idle`
  unfoldable pub is_idle : Buffer E → Bool
  is_idle b = leb_ℤ b.in_flight (pos 0) && leb_ℤ (pos 0) b.in_flight && leb (length b.queue) 0

  -- `shutdown`, up to the join
  unfoldable pub begin_shutdown : ℤ → Option ℤ → Buffer E → Buffer E
  unfolding arm nine_tenths
  begin_shutdown now timeout b =
      let budget = or_else timeout b.shutdown_timeout in
      record b {
        atexit_hook = false;
        deadline = arm now (nine_tenths budget) b.deadline;
        shutdown = true;
        wake = true;
      }

module _ {E W : Type 0} (h : Host E W) where
  unfoldable pub to_payload : Event E → Option Value
  to_payload (dict v) = some v
  to_payload (entity e) = h.to_dict e

  -- the list comprehension of `_send`; one event that raises loses the batch
  unfoldable pub payload : List (Event E) → Option (List Value)
  unfolding to_payload
  payload [] = some []
  payload (e ∷ es) = elim (to_payload e) [
    | none ↦ none
    | some v ↦ elim (payload es) [ none ↦ none | some vs ↦ some (v ∷ vs) ]
  ]

  unfoldable pub send : List (Event E) → Buffer E → W → Buffer E × W
  unfolding payload
  send batch b w = elim (payload batch) [
    | none ↦
        (record b { stats = record b.stats { failed_batches = b.stats.failed_batches + 1 } }, w)
    | some vs ↦
        let (returned, w') = h.flush_fn vs b.deadline w in
        if returned
        then (record b { stats = record b.stats { flushed = b.stats.flushed + length vs } }, w')
        else (
          record b { stats = record b.stats { failed_batches = b.stats.failed_batches + 1 } },
          w',
        )
  ]

  -- the rest of a round of `_drain`, by the test of the batch
  unfoldable pub deliver : List (Event E) → Buffer E → W → Bool × Buffer E × W
  unfolding send batch_done
  deliver [] b w = (false, b, w)
  deliver (e ∷ es) b w = let (b', w') = send (e ∷ es) b w in (true, batch_done b', w')

  -- one round of `_drain`: the new state, and whether the loop goes on
  unfoldable pub drain_round : Buffer E → W → Bool × Buffer E × W
  unfolding deliver take_batch
  drain_round b w =
      if expired (h.now w) b.deadline
      then (false, b, w)
      else (let (batch, b') = take_batch b in deliver batch b' w)

  -- `_drain`, with fuel for its rounds; `none` means that the fuel ran out
  unfoldable pub drain : ℕ → Buffer E → W → Option (Buffer E × W)
  unfolding drain_round
  drain zero b w = none
  drain (suc fuel) b w =
      let (more, b', w') = drain_round b w in
      let rest = drain fuel b' w' in if more then rest else some (b', w')

  -- one turn of `_run`, from the moment its wait returns
  unfoldable pub run_turn : ℕ → Buffer E → W → Option (Buffer E × W)
  unfolding drain
  run_turn fuel b w =
      let shutting_down = b.shutdown in
      elim (drain fuel (record b { wake = false }) w) [
        | none ↦ none
        | some (b', w') ↦
            some (if shutting_down then record b' { thread = Thread.dead } else b', w')
      ]

  -- `flush_once`; `wait` is what the other threads do until `wait_for` returns
  unfoldable flush_once :
      ℕ → (Buffer E → W → Buffer E × W) → Buffer E → W → Option (Bool × Buffer E × W)
  unfolding drain is_idle
  flush_once fuel wait b w = elim (drain fuel b w) [
    | none ↦ none
    | some (b', w') ↦ let (b'', w'') = wait b' w' in some (is_idle b'', b'', w'')
  ]

  -- `shutdown`; `current` says whether the flush thread itself calls it, and `join` is what the
  -- other threads do until the join returns
  unfoldable pub shut_down :
      (ℤ → Buffer E → W → Buffer E × W) → Bool → Option ℤ → Buffer E → W → Bool × Buffer E × W
  unfolding begin_shutdown
  shut_down join current timeout b w =
      let b' = begin_shutdown (h.now w) timeout b in
      elim b.thread [
        | Thread.alive ↦
            if current
            then (false, b', w)
            else (let (b'', w') = join (or_else timeout b.shutdown_timeout) b' w in
                (not (is_alive b''.thread), b'', w'))
        | _ ↦ (true, b', w)
      ]

  -- `_on_interpreter_exit`: the number of abandoned events that is reported, if any
  unfoldable on_interpreter_exit :
      (ℤ → Buffer E → W → Buffer E × W) → Bool → Buffer E → W → Option ℕ × Buffer E × W
  unfolding shut_down
  on_interpreter_exit join debug b w =
      let (delivered, b', w') = shut_down join false none b w in
      (if not delivered && debug then some (length b'.queue) else none, b', w')
