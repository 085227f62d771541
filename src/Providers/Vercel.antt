-- ===== src/Providers/Vercel.antt =====
-- providers/vercel.py: `VercelGatewayProvider`, the adapter that asks the gateway over HTTP, and the
-- settings of providers/gateway_config.py. The HTTP client is a parameter.
pub mod Completion
pub mod Reply
pub mod Diagnostics
use route_llm.Prelude.{
  ℕ, ◌-◌, ◌*◌, Bool, true, false, not, ◌&&◌, ◌||◌, Option, none, some, List, [], ◌∷◌, ◌++◌, map,
  any, leb, ltb, ◌==◌, length, is_empty, if◌then◌else◌,
}
use Prim.Native.Nat.{min, ◌+◌}
use route_llm.Prelude.Int.{ℤ, pos, negsuc}
use route_llm.Prelude.Text.{Text, codes, text_eq, strip, member}
use route_llm.Errors.{
  GatewayErrorCategory, gateway, completion_rejected, model_disabled, other, ok, err, ◌>>=◌,
  not_configured, authentication, invalid_model, invalid_request, context_limit, rate_limit,
  timeout, upstream, malformed_response, missing_usage, empty_response, output_budget_exhaustion,
}
use route_llm.Models.{
  ModelConfig, InferenceRequest, InferenceResponse, TerminationReason, ReasoningEffort, Result,
  Error, complete, length_limit, tool_call, content_filter, unknown, is_native, blank,
}
use route_llm.Pricing.{calculate_cost}
use route_llm.Registry.{Dict, find}
use route_llm.Providers.Body.{
  Value, Fields, object, string, integer, get, item, or, subscript, first, safe_value, is_safe,
}

-- `GatewaySettings`, the timeout in units of the clock.
pub record GatewaySettings : Type 0 where
  pub api_key : Option Text
  pub timeout_seconds : ℕ

-- What `json()` does: it returns a value, raises a `ValueError`, or raises an exception that is none of
-- KeyError, IndexError, TypeError and ValueError, such as the RecursionError of a deeply nested text.
pub data Decoded : Type 0 where
  json : Value → Decoded
  not_json : Decoded
  crashed : Error → Decoded

-- The reply of the client.
pub record HttpResponse : Type 0 where
  pub status_code : ℕ
  pub header : Text → Option Text
  pub body : Decoded

pub data Exchange : Type 0 where
  answered : HttpResponse → Exchange
  timed_out request_error : Exchange
  -- any other exception
  broken : Error → Exchange

-- The request that is posted; the rest of it is constant.
pub record Payload : Type 0 where
  pub model : Text
  pub messages : List (Text × Text)
  pub max_tokens : ℕ
  pub only : Text
  pub temperature : Option ℕ
  pub thinking_level : Option ReasoningEffort
  pub reasoning_effort : Option ReasoningEffort
  pub authorization : Text

pub record Client : Type 1 where
  pub State : Type 0
  pub post : Payload → ℕ → State → State × Exchange
  pub perf_counter : State → State × ℕ

-- The single upstream of each model, `UPSTREAM_PROVIDERS`.
abbrev pub upstream_providers : Dict Text
upstream_providers =
    (codes "openai/gpt-4.1-nano", codes "openai")
    ∷ (codes "openai/gpt-4.1-mini", codes "openai")
    ∷ (codes "anthropic/claude-sonnet-4.6", codes "anthropic")
    ∷ (codes "nvidia/nemotron-3.5-lightning", codes "runinfra")
    ∷ (codes "openai/gpt-6-luna", codes "openai")
    ∷ (codes "google/gemini-3-flash", codes "google")
    ∷ (codes "anthropic/claude-sonnet-5", codes "anthropic")
    ∷ (codes "anthropic/claude-opus-5.5", codes "anthropic")
    ∷ (codes "openai/gpt-6-astra", codes "openai")
    ∷ (codes "anthropic/claude-fable-5.1", codes "anthropic")
    ∷ []

pub record VercelGatewayProvider : Type 0 where
  pub model : ModelConfig
  pub settings : GatewaySettings

abbrev pub accepted_for : ModelConfig → GatewaySettings → Option Text → Result VercelGatewayProvider
accepted_for m settings none = err (gateway invalid_model)
accepted_for m settings (some p) = ok (record { model = m; settings = settings })

-- The constructor.
unfoldable pub new_provider : ModelConfig → GatewaySettings → Result VercelGatewayProvider
new_provider m settings =
    if not (text_eq m.provider (codes "vercel"))
    then err (gateway invalid_model)
    else accepted_for m settings (find m.provider_model_name upstream_providers)

abbrev messages_of : InferenceRequest → Option Text → List (Text × Text)
messages_of r none = (codes "user", r.prompt) ∷ []
messages_of r (some system) = (codes "system", system) ∷ (codes "user", r.prompt) ∷ []

-- The payload, from the key and the upstream of the model.
abbrev payload_of : ModelConfig → InferenceRequest → Text → Text → Payload
payload_of m r key only = record {
  model = m.provider_model_name;
  messages = messages_of r r.system_prompt;
  max_tokens = r.max_output_tokens;
  only = only;
  temperature = if m.capabilities.supports_temperature then some r.temperature else none;
  thinking_level = if is_native m.reasoning_control then m.reasoning_effort else none;
  reasoning_effort = if is_native m.reasoning_control then none else m.reasoning_effort;
  authorization = codes "Bearer " ++ key;
}

abbrev pub has_effort : Option ReasoningEffort → Bool
has_effort none = false
has_effort (some e) = true

-- `UPSTREAM_PROVIDERS[name]`, and `.value` of a missing effort under the native control.
abbrev pub addressed : ModelConfig → InferenceRequest → Text → Option Text → Result Payload
addressed m r key none = err other
addressed m r key (some only) =
    if is_native m.reasoning_control && not (has_effort m.reasoning_effort)
    then err other
    else ok (payload_of m r key only)

abbrev pub keyed : ModelConfig → InferenceRequest → Option Text → Result Payload
keyed m r none = err (gateway not_configured)
keyed m r (some key) =
    if is_empty (strip key)
    then err (gateway not_configured)
    else addressed m r key (find m.provider_model_name upstream_providers)

-- The checks and the payload before the request is posted.
unfoldable pub prepare : VercelGatewayProvider → InferenceRequest → Result Payload
prepare p r = if not p.model.enabled then err model_disabled else keyed p.model r p.settings.api_key
