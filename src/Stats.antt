-- ===== src/Stats.antt =====
-- `Stats` and `stats` of llm_metrics/_runtime.py, over the counters of the installed
-- buffer and client, if there are any.
pub mod Health
use llm_metrics.Prelude.{ℕ, String, Bool, true, false, ◌&&◌, Option, none, some, ◌==◌, or_else}
use llm_metrics.Buffer
use llm_metrics.Buffer.{BufferStats}
use llm_metrics.Client.{ClientStats}

pub record Stats : Type 0 where
  pub enabled : Bool
  pub queued : ℕ
  pub flushed : ℕ
  pub dropped_on_overflow : ℕ
  pub failed_batches : ℕ
  pub sent_batches : Option ℕ
  pub sent_events : Option ℕ
  pub dropped_by_transport : Option ℕ
  pub retries : Option ℕ
  pub last_error : Option String

-- not one of the three loss counters is set; `None` counts as 0
unfoldable pub healthy : Stats → Bool
healthy v =
    v.dropped_on_overflow == 0 && v.failed_batches == 0 && or_else v.dropped_by_transport 0 == 0

-- `view = Stats(enabled=…)`
abbrev blank : Bool → Stats
blank on = record {
  enabled = on;
  queued = 0;
  flushed = 0;
  dropped_on_overflow = 0;
  failed_batches = 0;
  sent_batches = none;
  sent_events = none;
  dropped_by_transport = none;
  retries = none;
  last_error = none;
}

unfoldable pub with_buffer : Option BufferStats → Stats → Stats
with_buffer none v = v
with_buffer (some b) v = record v {
  queued = b.queued;
  flushed = b.flushed;
  dropped_on_overflow = b.dropped;
  failed_batches = b.failed_batches;
}

unfoldable pub with_client : Option ClientStats → Stats → Stats
with_client none v = v
with_client (some c) v = record v {
  sent_batches = some c.sent_batches;
  sent_events = some c.sent_events;
  dropped_by_transport = some c.dropped_events;
  retries = some c.retries;
  last_error = c.last_error;
}

unfoldable pub stats : Bool → Option BufferStats → Option ClientStats → Stats
unfolding with_buffer with_client
stats on b c = with_client c (with_buffer b (blank on))
