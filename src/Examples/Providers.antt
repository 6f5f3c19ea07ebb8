-- ===== src/Examples/Providers.antt =====
-- The client of a provider: its methods, its HTTP hooks, and the arguments of a decorated function.
use llm_metrics.Prelude.{is_some, ℕ, String, ◌≡◌, refl, false, none, some, List, [], ◌∷◌}
use llm_metrics.Prelude.Int.{pos}
use llm_metrics.Value.{Value, null, int, mapping, fields_of, end, Fields}
use llm_metrics.Models.{Observation}
use llm_metrics.Models.Wire.{get_field}
use llm_metrics.Sdk.{Sdk}
use llm_metrics.Examples.Sending.{objects, observation}
use llm_metrics.Examples.Tracing.{start}
use llm_metrics.Decorator.Observe.{capture_arguments, capture_arguments-bound}
use llm_metrics.Transport.{Numbers, Reply}
use llm_metrics.Transport.Attempts.{record_all, hook_all, hook_all-Counted}
use llm_metrics.Patch.{
  ProviderClient, original, wrap_openai, wrap_anthropic, targets, openai_headers,
}
use llm_metrics.Patch.Twice.{AllSettled, message_targets, wrap-twice}

-- a text read as a number never is one
abbrev numbers : Numbers
numbers = record { parse_int = λ s. none; parse_float = λ s. none; convert = λ v. none }

abbrev limited : Reply
limited = record { status_code = 429; header = λ name. none }

abbrev accepted : Reply
accepted = record { status_code = 200; header = λ name. some "req_1" }

abbrev bare : Observation
bare = record observation { metadata = end }

abbrev open_one : Sdk ℕ
open_one = record start { observations = λ o. some bare; next = 1 }

hook_all-Counted_example :
    let out = record_all numbers openai_headers (limited ∷ accepted ∷ []) end in
    ((hook_all numbers openai_headers (limited ∷ accepted ∷ []) (some 0) open_one).observations 0
      ≡ some (record bare { metadata = out }))
    × (get_field "http_attempts" out ≡ some (int (pos 2)))
    × (get_field "http_status" out ≡ some (int (pos 200)))
    × (get_field "model" out ≡ get_field "model" end)
    × (hook_all numbers openai_headers (limited ∷ accepted ∷ []) none open_one ≡ open_one)
unfolding get_field
hook_all-Counted_example =
    hook_all-Counted numbers openai_headers (limited ∷ []) accepted 0 open_one bare "model" refl
      refl refl

-- a client with every method and an HTTP client without hooks
abbrev provider_client : ProviderClient
provider_client = record {
  method = λ path. some (original false 0);
  frozen = λ path. false;
  http = some (record { event_hooks = some []; is_async = false; frozen = false });
}

wrap-twice_example :
    AllSettled targets (wrap_openai provider_client)
    × (wrap_openai (wrap_openai provider_client) ≡ wrap_openai provider_client)
    × AllSettled message_targets (wrap_anthropic provider_client)
    × (wrap_anthropic (wrap_anthropic provider_client) ≡ wrap_anthropic provider_client)
wrap-twice_example = wrap-twice provider_client

-- a method with one argument
abbrev bound : List (String × Value)
bound = ("self", null) ∷ ("q", int (pos 1)) ∷ []

capture_arguments-bound_example :
    (fs : Fields) × (mapping (fields_of (("q", int (pos 1)) ∷ [])) ≡ mapping fs)
    × (is_some (get_field "self" fs) ≡ false)
capture_arguments-bound_example =
    capture_arguments-bound objects (λ args kwargs. some bound) (null ∷ int (pos 1) ∷ []) [] 100
      "self" bound (mapping (fields_of (("q", int (pos 1)) ∷ []))) refl
      (unfold capture_arguments in refl)
