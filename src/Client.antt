-- ===== src/Client.antt =====
-- `IngestClient` of llm_metrics/client.py: one batch, its attempts, and what is counted. The HTTP
-- library, the clock, the random source, JSON and `float` are the fields of `Net`, over a state
-- `W` of the world. Times are microseconds.
pub mod Accounting
pub mod Policy
pub mod Detail
use llm_metrics.Prelude.{
  ℕ, zero, suc, ◌+◌, ◌*◌, ◌^◌, String, Bool, true, false, not, ◌&&◌, ◌||◌, Option, none, some, List,
  [], ◌∷◌, ltb, leb, ◌==◌, if◌then◌else◌, length, min, max, or_else, str_eq, ◌⧺◌, decimal, is_blank,
}
use llm_metrics.Prelude.Int.{ℤ, pos, negsuc, leb_ℤ, min_ℤ}
use llm_metrics.Value.{Value}
use llm_metrics.Deadline.{Deadline, remaining, sleep, Wait, plain}

-- What a call of `post` comes to: a response with its status and `Retry-After` header (empty if
-- there is none), a `TransportError`, another `HTTPError`, or any other exception, with its text.
pub data Reply : Type 0 where
  response : ℕ → String → Reply
  transport_error http_error other_error : String → Reply

pub data Encoded : Type 0 where
  encoded : String → Encoded
  unencodable : String → Encoded

pub record Net (W : Type 0) : Type 0 where
  pub now : W → ℤ
  -- the shared deadline object as it stands now: another thread may arm it at any time
  pub live : W → Deadline
  pub post : String → String → ℤ → W → Reply × W
  pub wait : Wait → W → W
  -- `random.uniform(0, delay)`
  pub uniform : ℕ → W → ℕ × W
  pub encode : List Value → Encoded
  -- `float(raw.strip())`, nothing if it raises or is not a number
  pub parse_float : String → Option ℤ

pub record ClientStats : Type 0 where
  pub sent_batches : ℕ
  pub sent_events : ℕ
  pub dropped_events : ℕ
  pub retries : ℕ
  pub permanent_failures : ℕ
  pub last_error : Option String

pub record Client : Type 0 where
  pub api_key : Option String
  pub host : String
  pub url : String
  pub timeout : ℤ
  pub max_attempts : ℕ
  pub backoff_base : ℕ
  pub backoff_max : ℕ
  pub http : Bool
  pub warned : List String
  pub closed : Bool
  pub stats : ClientStats
  -- the lines that went to stderr, newest first
  pub stderr : List String

abbrev pub no_stats : ClientStats
no_stats = record {
  sent_batches = 0;
  sent_events = 0;
  dropped_events = 0;
  retries = 0;
  permanent_failures = 0;
  last_error = none;
}

unfoldable pub contains : String → List String → Bool
contains k [] = false
contains k (x ∷ xs) = str_eq x k || contains k xs

unfoldable warn_once : String → String → Client → Client
unfolding contains
warn_once key message c =
    if contains key c.warned
    then c
    else record c { warned = key ∷ c.warned; stderr = message ∷ c.stderr }

-- `not self.api_key`: there is no key, or an empty one
unfoldable pub keyless : Option String → Bool
keyless none = true
keyless (some key) = is_blank key

unfoldable rstrip_slashes : String → String
rstrip_slashes String.[] = String.[]
rstrip_slashes (String.◌∷◌ c s) =
    let rest = rstrip_slashes s in
    if is_blank rest && str_eq (String.◌∷◌ c String.[]) "/" then String.[] else String.◌∷◌ c rest

abbrev default_host : String
default_host = "https://api-eta-eight-10.vercel.app"

-- `os.environ.get(ENV_HOST) or DEFAULT_HOST`
unfoldable host_from_env : Option String → String
host_from_env none = default_host
host_from_env (some h) = if is_blank h then default_host else h

abbrev no_key_message : String
no_key_message = "llm-metrics: no API key (set $LLM_METRICS_API_KEY); traces will be dropped"

-- the constructor: the arguments, then the two environment variables
unfoldable pub init :
    Option String
    → Option String
    → (timeout : ℤ) (max_attempts : ℤ) (backoff_base backoff_max : ℕ)
    → (env_key env_host : Option String) → Client
unfolding warn_once keyless rstrip_slashes host_from_env
init api_key host timeout max_attempts backoff_base backoff_max env_key env_host =
    let key = elim api_key as (λ _. Option String) [ none ↦ env_key | some k ↦ some k ] in
    let stripped = rstrip_slashes (or_else host (host_from_env env_host)) in
    let c : Client = record {
      api_key = key;
      host = stripped;
      url = stripped ⧺ "/v1/ingest";
      timeout = timeout;
      max_attempts = elim max_attempts as (λ _. ℕ) [ pos n ↦ max 1 n | negsuc n ↦ 1 ];
      backoff_base = backoff_base;
      backoff_max = backoff_max;
      http = false;
      warned = [];
      closed = false;
      stats = no_stats;
      stderr = [];
    } in
    if keyless key then warn_once "no_key" no_key_message c else c

unfoldable pub enabled : Client → Bool
unfolding keyless
enabled c = not (keyless c.api_key) && not c.closed

unfoldable pub close : Client → Client
close c = record c { closed = true; http = false }

unfoldable pub reset_after_fork : Client → Client
reset_after_fork c = record c { http = false; stats = no_stats }

-- `self.stats.dropped_events += len(payload)`
unfoldable pub drop_events : List Value → Client → Client
drop_events payload c = record c {
  stats = record c.stats { dropped_events = c.stats.dropped_events + length payload };
}

unfoldable set_error : String → Client → Client
set_error detail c = record c { stats = record c.stats { last_error = some detail } }

-- `_fail`; the debug line is left out
unfoldable pub fail : List Value → String → Bool → Client → Client
unfolding drop_events set_error
fail payload detail permanent c =
    let c' = set_error detail (drop_events payload c) in
    if permanent
    then record c' {
      stats = record c'.stats { permanent_failures = c'.stats.permanent_failures + 1 };
    }
    else c'

unfoldable pub succeed : List Value → Client → Client
succeed payload c = record c {
  stats = record c.stats {
    sent_batches = c.stats.sent_batches + 1;
    sent_events = c.stats.sent_events + length payload;
  };
}

pub data Outcome : Type 0 where
  ok : Outcome
  retry permanent : String → Outcome

-- `RETRYABLE_STATUS` and `AUTH_STATUS`
unfoldable is_retryable : ℕ → Bool
is_retryable s = s == 408 || s == 425 || s == 429 || s == 500 || s == 502 || s == 503 || s == 504

unfoldable is_auth : ℕ → Bool
is_auth s = s == 401 || s == 403

unfoldable auth_message : ℕ → String
auth_message s =
    "llm-metrics: ingest API rejected the API key (HTTP " ⧺ decimal s ⧺ "); traces will be dropped"

-- the part of `_attempt` that reads a response
unfoldable pub classify : ℕ → String → Outcome
unfolding is_retryable is_auth
classify s retry_after =
    if leb 200 s && ltb s 300
    then ok
    else if is_auth s
    then permanent ("HTTP " ⧺ decimal s)
    else if is_retryable s
    then retry ("HTTP " ⧺ decimal s ⧺ "|" ⧺ retry_after)
    else if leb 500 s && ltb s 600
    then retry ("HTTP " ⧺ decimal s ⧺ "|")
    else permanent ("HTTP " ⧺ decimal s)

pub data Attempt : Type 0 where
  done : Outcome → Attempt
  raised : String → Attempt

unfoldable pub read_reply : Reply → Client → Attempt × Client
unfolding classify warn_once auth_message is_auth
read_reply (transport_error e) c = (done (retry e), c)
read_reply (http_error e) c = (done (permanent e), c)
read_reply (other_error e) c = (raised e, c)
read_reply (response s retry_after) c = (
  done (classify s retry_after),
  if is_auth s then warn_once ("auth_" ⧺ decimal s) (auth_message s) c else c,
)

-- `detail.partition("|")`, the part after the bar
unfoldable pub after_bar : String → String
after_bar String.[] = String.[]
after_bar (String.◌∷◌ c s) =
    let rest = after_bar s in if str_eq (String.◌∷◌ c String.[]) "|" then s else rest

module _ {W : Type 0} (net : Net W) where
  unfoldable pub parse_retry_after : String → Option ℕ
  unfolding after_bar
  parse_retry_after detail =
      let raw = after_bar detail in
      if is_blank raw then none else elim (net.parse_float raw) [
        | none ↦ none
        | some (pos n) ↦ some n
        | some (negsuc n) ↦ none
      ]

  unfoldable pub backoff : Client → ℕ → String → W → ℕ × W
  unfolding parse_retry_after
  backoff c attempt detail w = elim (parse_retry_after detail) [
    | some seconds ↦ (min seconds c.backoff_max, w)
    | none ↦ net.uniform (min c.backoff_max (c.backoff_base * 2 ^ attempt)) w
  ]

  -- `_remaining`; `given` says whether the call of `send` had a deadline
  unfoldable pub budget : Bool → W → Option ℤ
  budget given w = if given then remaining (net.now w) (net.live w) else none

  unfoldable pub is_spent : Option ℤ → Bool
  is_spent none = false
  is_spent (some left) = leb_ℤ left (pos 0)

  unfoldable pub cap : Option ℤ → ℤ → ℤ
  cap none t = t
  cap (some left) t = min_ℤ t left

  -- `_attempt`
  unfoldable pub attempt_once : String → Option ℤ → Client → W → Attempt × Client × W
  unfolding read_reply cap
  attempt_once body left c w =
      let (reply, w') = net.post c.url body (cap left c.timeout) w in
      let (r, c') = read_reply reply (record c { http = true }) in (r, c', w')

  -- `time.sleep(delay)` or `deadline.sleep(delay)`
  unfoldable pub pause : Bool → ℤ → W → W
  pause given delay w =
      net.wait (if given then sleep (net.now w) delay (net.live w) else plain delay) w

  -- the body of the loop of `_send` after the attempt; `next` is the next round
  unfoldable pub after_attempt :
      Attempt
      → List Value
      → ℕ
      → Bool
      → (Client → W → Option String × Client × W)
      → Client
      → W
      → Option String × Client × W
  unfolding fail succeed
  after_attempt (raised e) payload attempt given next c w = (some e, c, w)
  after_attempt (done ok) payload attempt given next c w = (none, succeed payload c, w)
  after_attempt (done (permanent detail)) payload attempt given next c w =
      (none, fail payload detail true c, w)
  after_attempt (done (retry detail)) payload attempt given next c w =
      elim (attempt + 1 == c.max_attempts) [
        | true ↦ (none, fail payload detail false c, w)
        | false ↦
            let (delay, w') = backoff c attempt detail w in
            elim (is_spent (budget given w')) [
              | true ↦ (none, fail payload "deadline exceeded before retry" false c, w')
              | false ↦
                  next (record c { stats = record c.stats { retries = c.stats.retries + 1 } })
                    (pause given (cap (budget given w') (pos delay)) w')
            ]
      ]

  -- the loop of `_send`: `left` more rounds, from round `attempt`; what it raised, if it raised
  unfoldable pub attempts :
      ℕ → ℕ → List Value → String → Bool → Client → W → Option String × Client × W
  unfolding fail
  attempts zero attempt payload body given c w = (none, c, w)
  attempts (suc left) attempt payload body given c w = elim (is_spent (budget given w)) [
    | true ↦ (none, fail payload "deadline exceeded before attempt" false c, w)
    | false ↦
        let (r, c', w') = attempt_once body (budget given w) c w in
        after_attempt r payload attempt given (attempts left (attempt + 1) payload body given) c' w'
  ]

  -- `_send`
  unfoldable pub try_send : List Value → Bool → Client → W → Option String × Client × W
  unfolding enabled drop_events set_error
  try_send [] given c w = (none, c, w)
  try_send (v ∷ vs) given c w =
      if not (enabled c) then (none, drop_events (v ∷ vs) c, w) else elim (net.encode (v ∷ vs)) [
        | unencodable e ↦ (none, drop_events (v ∷ vs) (set_error ("encode failed: " ⧺ e) c), w)
        | encoded b ↦ attempts c.max_attempts 0 (v ∷ vs) b given c w
      ]

  -- `send`: whatever is raised is counted and swallowed
  unfoldable pub send : List Value → Bool → Client → W → Client × W
  unfolding set_error drop_events
  send payload given c w =
      let (failure, c', w') = try_send payload given c w in
      elim failure [ none ↦ (c', w') | some e ↦ (set_error e (drop_events payload c'), w') ]
