-- ===== src/Transport.antt =====
-- llm_metrics/integrations/_transport.py: what the response hook on a provider's HTTP client writes
-- into the metadata of the active observation, and how the hook is installed. The synchronous and
-- the asynchronous hook are one: their bodies are the same call. `Numbers` is Python's reading of
-- numbers from a text.
pub mod Attempts
pub mod Install
use llm_metrics.Prelude.{
  ℕ, String, Bool, true, false, Option, none, some, List, [], ◌∷◌, is_blank, first_some,
  if◌then◌else◌,
}
use llm_metrics.Prelude.Int.{ℤ, pos, ◌+ℤ◌}
use llm_metrics.Value.{Value, int, text, mapping, Fields, end, field, put_field}
use llm_metrics.Models.{Observation}
use llm_metrics.Models.Wire.{get_field}
use llm_metrics.Sdk.{Sdk, modify_observation}
use llm_metrics.Duck.{as_int}

pub record HeaderSpec : Type 0 where
  pub request_id : List String
  pub processing_ms : List String
  -- the key in `metadata["rate_limit"]`, and the header
  pub rate_limit : List (String × String)

-- `headers.get(name)` of a response is `header name`.
pub record Reply : Type 0 where
  pub status_code : ℕ
  pub header : String → Option String

-- `int(raw)` and `float(raw)` of a text, and `int(value)` of a value that is no int; nothing if
-- they raise. The float is a value, as it may be an infinity or no number.
pub record Numbers : Type 0 where
  pub parse_int : String → Option ℤ
  pub parse_float : String → Option Value
  pub convert : Value → Option ℤ

-- `value = headers.get(name)`, kept if it is not empty
abbrev non_blank : Option String → Option String
non_blank none = none
non_blank (some value) = if is_blank value then none else some value

-- the loop over `spec.request_id`
unfoldable first_header : List String → (String → Option String) → Option String
first_header [] header = none
first_header (name ∷ names) header =
    first_some (non_blank (header name)) (first_header names header)

-- `metadata[key] = value`, where there is a value
unfoldable pub put_some : String → Option Value → Fields → Fields
put_some key none metadata = metadata
put_some key (some value) metadata = put_field key value metadata

abbrev as_text : Option String → Option Value
as_text none = none
as_text (some t) = some (text t)

-- `if limits: metadata["rate_limit"] = limits`
unfoldable pub put_limits : Fields → Fields → Fields
put_limits end metadata = metadata
put_limits (field k v limits) metadata =
    put_field "rate_limit" (mapping (field k v limits)) metadata

module _ (n : Numbers) where
  abbrev parsed : String → Option ℤ → Option Value
  parsed raw (some i) = some (int i)
  parsed raw none = n.parse_float raw

  -- `_number`
  unfoldable pub number : Option String → Option Value
  number none = none
  number (some raw) = parsed raw (n.parse_int raw)

  -- the loop over `spec.processing_ms`
  unfoldable first_number : List String → (String → Option String) → Option Value
  unfolding number
  first_number [] header = none
  first_number (name ∷ names) header = first_some (number (header name)) (first_number names header)

  -- `limits[key] = number if number is not None else raw`
  abbrev put_limit : String → Option String → Fields → Fields
  put_limit key none limits = limits
  put_limit key (some raw) limits = elim (number (some raw)) [
    | none ↦ put_field key (text raw) limits
    | some v ↦ put_field key v limits
  ]

  -- the loop over `spec.rate_limit`
  unfoldable limits_of : List (String × String) → (String → Option String) → Fields → Fields
  unfolding number
  limits_of [] header limits = limits
  limits_of ((key, name) ∷ rest) header limits =
      limits_of rest header (put_limit key (header name) limits)

  -- `int(metadata.get("http_attempts", 0))`
  abbrev pub attempts_read : Option Value → Option ℤ
  attempts_read none = some (pos 0)
  attempts_read (some v) = first_some (as_int v) (n.convert v)

  -- the rest of `_record`, by the attempts so far; nothing was written if reading them raised
  unfoldable pub record_reply : HeaderSpec → Reply → Option ℤ → Fields → Fields
  unfolding first_header put_some put_limits first_number limits_of
  record_reply spec response none metadata = metadata
  record_reply spec response (some before) metadata =
      put_limits (limits_of spec.rate_limit response.header end) (
        put_some "upstream_processing_ms" (first_number spec.processing_ms response.header) (
          put_some "request_id" (as_text (first_header spec.request_id response.header)) (
            put_field "http_status" (int (pos response.status_code))
              (put_field "http_attempts" (int (before +ℤ pos 1)) metadata))))

  -- `_record` on the metadata of the active observation
  unfoldable pub record_into : HeaderSpec → Reply → Fields → Fields
  unfolding record_reply as_int
  record_into spec response metadata =
      record_reply spec response (attempts_read (get_field "http_attempts" metadata)) metadata

  -- `_record`, by what `_ACTIVE` holds
  unfoldable pub hook : {W : Type 0} → HeaderSpec → Reply → Option ℕ → Sdk W → Sdk W
  unfolding record_into modify_observation
  hook spec response none s = s
  hook spec response (some o) s =
      modify_observation o (λ v. record v { metadata = record_into spec response v.metadata }) s

-- `with active(observation)`: the block runs with the observation in `_ACTIVE`, and the token puts
-- back what was there before, which is the argument outside
unfoldable pub active : {A : Type 0} → ℕ → (Option ℕ → A) → A
active o block = block (some o)
