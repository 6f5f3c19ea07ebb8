-- ===== src/Patch.antt =====
-- How `wrap_openai` of llm_metrics/integrations/openai.py and `wrap_anthropic` of anthropic.py
-- replace the methods of a provider's client. A client is read by the dotted paths of its methods.
pub mod Twice
use llm_metrics.Prelude.{
  ℕ, String, Bool, true, false, Option, none, some, List, [], ◌∷◌, str_eq, if◌then◌else◌,
}
use llm_metrics.Transport.{HeaderSpec}
use llm_metrics.Transport.Install.{HttpClient, install}

-- what stands in for a method: a traced call, plain or a coroutine function, or a function that
-- gives a traced stream manager
pub data Wrapper : Type 0 where
  sync_call async_call stream_manager : Wrapper

-- A method of the provider's, with what `is_async_callable` says of it, or a wrapper around one,
-- which carries the marker.
pub data Method : Type 0 where
  original : (is_async : Bool) → ℕ → Method
  wrapped : Wrapper → (name : String) → (inner : ℕ) → Method

-- `method path` is nothing where a step of the path is missing; `frozen path` is whether setting
-- the attribute raises.
pub record ProviderClient : Type 0 where
  pub method : String → Option Method
  pub frozen : String → Bool
  pub http : Option HttpClient

abbrev set_method : String → Method → ProviderClient → ProviderClient
set_method path m c = record c { method = λ p. if str_eq path p then some m else c.method p }

abbrev call_wrapper : Bool → Wrapper
call_wrapper true = async_call
call_wrapper false = sync_call

-- the choice of a wrapper for one path: the method found there, and the wrapper that it gets
unfoldable pub patch_found :
    (Bool → Wrapper) → String → String → Option Method → ProviderClient → ProviderClient
patch_found choose path name none c = c
patch_found choose path name (some (wrapped w n inner)) c = c
patch_found choose path name (some (original is_async inner)) c =
    if c.frozen path then c else set_method path (wrapped (choose is_async) name inner) c

-- `_patch` of openai.py, and whatever it raises is swallowed by its caller
unfoldable pub patch : (path name : String) → ProviderClient → ProviderClient
unfolding patch_found
patch path name c = patch_found call_wrapper path name (c.method path) c

-- `_TARGETS`
abbrev pub targets : List (String × String)
targets =
    ("chat.completions.create", "openai.chat.completions")
    ∷ ("responses.create", "openai.responses")
    ∷ ("embeddings.create", "openai.embeddings")
    ∷ []

-- the loop of `wrap_openai`
unfoldable pub patch_all : List (String × String) → ProviderClient → ProviderClient
unfolding patch
patch_all [] c = c
patch_all ((path, name) ∷ rest) c = patch_all rest (patch path name c)

-- `_transport.install(client, spec)`
unfoldable pub install_hook : HeaderSpec → ProviderClient → ProviderClient
install_hook spec c = record c { http = (install spec c.http).1 }

-- `_HEADERS` of openai.py
abbrev pub openai_headers : HeaderSpec
openai_headers = record {
  request_id = "x-request-id" ∷ [];
  processing_ms = "openai-processing-ms" ∷ [];
  rate_limit =
      ("limit_requests", "x-ratelimit-limit-requests")
      ∷ ("limit_tokens", "x-ratelimit-limit-tokens")
      ∷ ("remaining_requests", "x-ratelimit-remaining-requests")
      ∷ ("remaining_tokens", "x-ratelimit-remaining-tokens")
      ∷ ("reset_requests", "x-ratelimit-reset-requests")
      ∷ ("reset_tokens", "x-ratelimit-reset-tokens")
      ∷ [];
}

unfoldable pub wrap_openai : ProviderClient → ProviderClient
unfolding patch_all install_hook
wrap_openai c = install_hook openai_headers (patch_all targets c)

-- `_patch_create` and `_patch_stream` of anthropic.py
unfoldable pub patch_create : ProviderClient → ProviderClient
unfolding patch_found
patch_create c =
    patch_found call_wrapper "messages.create" "anthropic.messages" (c.method "messages.create") c

unfoldable pub patch_stream : ProviderClient → ProviderClient
unfolding patch_found
patch_stream c =
    patch_found (λ is_async. stream_manager) "messages.stream" "anthropic.messages"
      (c.method "messages.stream") c

-- `_HEADERS` of anthropic.py
abbrev pub anthropic_headers : HeaderSpec
anthropic_headers = record {
  request_id = "request-id" ∷ "x-request-id" ∷ [];
  processing_ms = [];
  rate_limit =
      ("limit_requests", "anthropic-ratelimit-requests-limit")
      ∷ ("remaining_requests", "anthropic-ratelimit-requests-remaining")
      ∷ ("reset_requests", "anthropic-ratelimit-requests-reset")
      ∷ ("limit_tokens", "anthropic-ratelimit-tokens-limit")
      ∷ ("remaining_tokens", "anthropic-ratelimit-tokens-remaining")
      ∷ ("reset_tokens", "anthropic-ratelimit-tokens-reset")
      ∷ ("limit_input_tokens", "anthropic-ratelimit-input-tokens-limit")
      ∷ ("remaining_input_tokens", "anthropic-ratelimit-input-tokens-remaining")
      ∷ ("limit_output_tokens", "anthropic-ratelimit-output-tokens-limit")
      ∷ ("remaining_output_tokens", "anthropic-ratelimit-output-tokens-remaining")
      ∷ [];
}

unfoldable pub wrap_anthropic : ProviderClient → ProviderClient
unfolding patch_create patch_stream install_hook
wrap_anthropic c = install_hook anthropic_headers (patch_stream (patch_create c))
