-- ===== src/Examples/Sending.antt =====
-- The client against a small network, captures, and payloads.
use llm_metrics.Prelude.{
  decimal, ℕ, ◌+◌, ◌≡◌, refl, ◌≤◌, true, false, none, some, List, [], ◌∷◌, arith,
}
use llm_metrics.Prelude.Int.{pos}
use llm_metrics.Value.{Value, null, int, text, sequence, mapping, items_of, Objects, end}
use llm_metrics.Capture.{summarise, max_depth}
use llm_metrics.Capture.Bounds.{Fits, summarise-Fits}
use llm_metrics.Deadline.{remaining}
use llm_metrics.Client.{
  try_send, attempts, attempt_once, after_attempt, succeed, is_spent, budget, cap, read_reply,
  classify, keyless, Client, Net, Reply, response, encoded, no_stats, send, enabled, classify,
  backoff, read_reply, after_bar, retry, done,
}
use llm_metrics.Stats.{healthy, stats, with_client, with_buffer}
use llm_metrics.Stats.Health.{healthy-send}
use llm_metrics.Client.Accounting.{accounted, send-accounted}
use llm_metrics.Client.Detail.{after_bar-read_reply}
use llm_metrics.Client.Policy.{backoff-le-max, send-requests-le}
use llm_metrics.Models.{
  Trace, Observation, ObservationStatus, DateTime, trace_payload, observation_payload,
}
use llm_metrics.Models.Wire.{get_field, trace_payload_lem, observation_payload_lem}

-- The world counts the requests; every one gets the same reply, and `float` reads 7.
abbrev network : Reply → Net ℕ
network reply = record {
  now = λ w. pos 0;
  live = λ w. record { due = none; armed = false };
  post = λ u b t w. (reply, w + 1);
  wait = λ d w. w;
  uniform = λ d w. (0, w);
  encode = λ vs. encoded "[]";
  parse_float = λ s. some (pos 7);
}

abbrev client : Client
client = record {
  api_key = some "key";
  host = "http://localhost";
  url = "http://localhost/v1/ingest";
  timeout = pos 5000000;
  max_attempts = 3;
  backoff_base = 500000;
  backoff_max = 30000000;
  http = true;
  warned = [];
  closed = false;
  stats = no_stats;
  stderr = [];
}

abbrev busy : Reply
busy = response 503 ""

abbrev batch : List Value
batch = int (pos 1) ∷ int (pos 2) ∷ []

send-accounted_example : accounted (send (network busy) batch true client 0).0 ≡ 2
send-accounted_example = send-accounted (network busy) batch true client 0 (omega arith)

send-requests-le_example : (send (network busy) batch true client 0).1 ≤ 3
send-requests-le_example =
    send-requests-le (network busy) (λ w. w) (λ u b t w. refl) (λ d w. refl) (λ d w. refl) batch
      true client 0

backoff-le-max_example : (backoff (network busy) client 0 "HTTP 503|7" 0).0 ≤ 30000000
backoff-le-max_example = backoff-le-max (network busy) (λ d w. omega arith) client 0 "HTTP 503|7" 0

read_429 : (read_reply (response 429 "7|8") client).0 ≡ done (retry "HTTP 429|7|8")
unfolding read_reply classify decimal
read_429 = refl

after_bar-read_reply_example : after_bar "HTTP 429|7|8" ≡ "7|8"
after_bar-read_reply_example = after_bar-read_reply 429 "7|8" "HTTP 429|7|8" client read_429

abbrev pub objects : Objects
objects = record { repr = λ v. some "<object>"; str = λ v. none; type_name = λ v. "object" }

-- lists inside one another, one level deeper than is captured
abbrev nested : Value
nested = sequence (
    items_of
      (sequence (items_of (sequence (items_of (sequence (items_of (null ∷ [])) ∷ [])) ∷ [])) ∷ []))

summarise-Fits_example : Fits max_depth (summarise objects 2000 nested)
summarise-Fits_example = summarise-Fits objects 2000 nested

abbrev pub noon : DateTime
noon = record { wall = pos 43200000000; offset = some (pos 0) }

abbrev pub trace : Trace
trace = record {
  id = "t1";
  name = "answer";
  user_id = some "u1";
  session_id = none;
  tags = "qa" ∷ [];
  environment = none;
  release = none;
  metadata = end;
  start_time = noon;
  end_time = none;
  sampled = true;
}

trace_payload_lem_example :
    let p = trace_payload (λ d. "12:00") trace in
    (get_field "id" p ≡ some (text "t1"))
    × (get_field "name" p ≡ some (text "answer"))
    × (get_field "metadata" p ≡ some (mapping end))
    × (get_field "user_id" p ≡ some (text "u1"))
    × (get_field "session_id" p ≡ none)
    × (get_field "environment" p ≡ none)
    × (get_field "release" p ≡ none)
    × (get_field "tags" p ≡ some (sequence (items_of (text "qa" ∷ []))))
    × (get_field "sampled" p ≡ none)
trace_payload_lem_example = trace_payload_lem (λ d. "12:00") trace

abbrev pub observation : Observation
observation = record {
  id = "o1";
  trace_id = "t1";
  name = "answer";
  parent_id = none;
  type = "generation";
  model = text "m";
  input = null;
  output = text "yes";
  prompt_tokens = some (pos 3);
  completion_tokens = none;
  cached_tokens = none;
  reasoning_tokens = none;
  latency_ms = none;
  prompt_name = none;
  prompt_version = none;
  status = ObservationStatus.ok;
  status_message = none;
  metadata = end;
  start_time = noon;
  end_time = none;
}

observation_payload_lem_example :
    let p = observation_payload (λ d. "12:00") observation in
    (get_field "id" p ≡ some (text "o1"))
    × (get_field "trace_id" p ≡ some (text "t1"))
    × (get_field "parent_id" p ≡ none)
    × (get_field "status" p ≡ some (text "ok"))
    × (get_field "status_message" p ≡ none)
    × (get_field "model" p ≡ some (text "m"))
    × (get_field "input" p ≡ none)
    × (get_field "output" p ≡ some (text "yes"))
    × (get_field "prompt_tokens" p ≡ some (int (pos 3)))
    × (get_field "completion_tokens" p ≡ none)
    × (get_field "cached_tokens" p ≡ none)
    × (get_field "reasoning_tokens" p ≡ none)
    × (get_field "latency_ms" p ≡ none)
    × (get_field "cost" p ≡ none)
observation_payload_lem_example = observation_payload_lem (λ d. "12:00") observation

healthy-send_example :
    (send (network (response 200 "")) batch true client 0).0.stats.sent_events ≡ 2
unfolding healthy stats with_client with_buffer send try_send attempts attempt_once after_attempt
    after_bar classify read_reply succeed enabled keyless is_spent budget cap remaining
healthy-send_example =
    healthy-send (network (response 200 "")) true none batch true client 0 (omega arith) refl
