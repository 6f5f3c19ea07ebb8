-- ===== src/Stats/Health.antt =====
-- What `healthy` of llm_metrics/_runtime.py says about the events.
use llm_metrics.Prelude.{◌+◌, ◌≤◌, ◌≡◌, Bool, true, Option, none, some, List, length, arith}
use llm_metrics.Value.{Value}
use llm_metrics.Buffer.{BufferStats}
use llm_metrics.Client.{Client, Net, send}
use llm_metrics.Client.Accounting.{accounted, send-accounted}
use llm_metrics.Stats.{healthy, stats, with_buffer, with_client}

-- A pipeline that looks healthy has no event lost at its client.
healthy-dropped :
    (on : Bool) (b : Option BufferStats) (c : Client)
    → healthy (stats on b (some c.stats)) ≡ true
    → c.stats.dropped_events ≡ 0
unfolding healthy stats with_buffer with_client
healthy-dropped on none c h = ground arith
healthy-dropped on (some b) c h = ground arith

module _ {W : Type 0} (net : Net W) where
  -- If at least one attempt is allowed and `stats()` is healthy after a batch was sent, every
  -- event that the client ever counted, this batch included, is counted as sent.
  pub healthy-send :
      (on : Bool) (b : Option BufferStats) (payload : List Value) (given : Bool) (c : Client)
      (w : W)
      → 1 ≤ c.max_attempts
      → healthy (stats on b (some (send net payload given c w).0.stats)) ≡ true
      → (send net payload given c w).0.stats.sent_events ≡ accounted c + length payload
  healthy-send on b payload given c w positive h = omega (
    arith,
    healthy-dropped on b (send net payload given c w).0 h,
    send-accounted net payload given c w positive,
  )
