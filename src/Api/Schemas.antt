-- ===== src/Api/Schemas.antt =====
-- api/schemas.py: the payloads that a client sends, and what it is shown.
use route_llm.Prelude.{
  ℕ, Bool, true, false, not, ◌&&◌, ◌||◌, Option, none, some, leb, length, if◌then◌else◌,
}
use route_llm.Prelude.Text.{Text}
use route_llm.Decimal.{Decimal}
use route_llm.Errors.{value_error, ok, err, ◌>>=◌}
use route_llm.Models.{InferenceRequest, InferenceResponse, Result, valid_request}
use route_llm.Routing.Features.{RoutingCategory}
use route_llm.Routing.Policy.{RoutingDecision, RoutingDecisionReason}
use route_llm.Validation.Contract.{ValidationContract}
use route_llm.Application.Activity.{ChatExecutionMode}
use route_llm.Application.Adaptive.{AdaptiveExecution, AdaptiveInferenceResult}
use route_llm.Application.Chat.{ChatRoutingMode, auto, manual, ChatOrchestrationResult}

-- The payloads.
pub record InferencePayload : Type 0 where
  pub request : InferenceRequest
  pub model_id : Text

-- A threshold is a number of the units of routing/policy.py.
pub record AdaptiveInferencePayload : Type 0 where
  pub request : InferenceRequest
  pub validation : Option ValidationContract
  pub category : RoutingCategory
  pub quality_threshold : Option ℕ

pub record ChatPayload : Type 0 where
  pub request : InferenceRequest
  pub routing_mode : ChatRoutingMode
  pub category : Option RoutingCategory
  pub validation : Option ValidationContract

abbrev is_given {ℓ} : {A : Type ℓ} → Option A → Bool
is_given none = false
is_given (some a) = true

abbrev mode_fits : ChatRoutingMode → Bool → Bool → Bool
mode_fits auto has_category has_validation = not (has_category || has_validation)
mode_fits manual has_category has_validation = has_category

-- `ChatPayload`: the validators of the request, and `validate_mode_specific_fields`.
unfoldable pub valid_chat_payload : ChatPayload → Bool
valid_chat_payload p =
    valid_request p.request
    && mode_fits p.routing_mode (is_given p.category) (is_given p.validation)

-- What is public of a response: not why it ended.
pub record PublicResponse : Type 0 where
  pub text : Text
  pub model_id : Text
  pub provider : Text
  pub input_tokens : ℕ
  pub output_tokens : ℕ
  pub latency_ms : ℕ
  pub estimated_cost_usd : Decimal
  pub request_id : Text

abbrev pub public_response : Text → InferenceResponse → PublicResponse
public_response id r = record {
  text = r.text;
  model_id = r.model_id;
  provider = r.provider;
  input_tokens = r.input_tokens;
  output_tokens = r.output_tokens;
  latency_ms = r.latency_ms;
  estimated_cost_usd = r.estimated_cost_usd;
  request_id = id;
}

pub record PublicRoutingMetadata : Type 0 where
  pub selected_model_id : Text
  pub threshold_satisfied : Bool
  pub fallback_used : Bool
  pub reason : RoutingDecisionReason

-- The outcome of the validation is the constant "passed".
pub record PublicExecutionMetadata : Type 0 where
  pub attempts : ℕ
  pub escalated : Bool
  pub total_estimated_cost_usd : Option Decimal
  pub total_latency_ms : ℕ

pub record PublicResult : Type 0 where
  pub response : PublicResponse
  pub execution_mode : Option ChatExecutionMode
  pub category : Option RoutingCategory
  pub is_manual_category : Bool
  pub routing : Option PublicRoutingMetadata
  pub execution : Option PublicExecutionMetadata

abbrev public_routing : RoutingDecision → PublicRoutingMetadata
public_routing d = record {
  selected_model_id = d.selected_model_id;
  threshold_satisfied = d.threshold_satisfied;
  fallback_used = d.fallback_used;
  reason = d.reason;
}

-- The bounds on the number of attempts are declared; the constructor raises where they do not hold.
abbrev pub public_execution : Option AdaptiveExecution → Result (Option PublicExecutionMetadata)
public_execution none = ok none
public_execution (some e) =
    if leb 1 (length e.attempts) && leb (length e.attempts) 3
    then ok (
        some (record {
          attempts = length e.attempts;
          escalated = e.escalated;
          total_estimated_cost_usd = e.total_estimated_cost_usd;
          total_latency_ms = e.total_latency_ms;
        }))
    else err value_error

abbrev public_decision : Option RoutingDecision → Option PublicRoutingMetadata
public_decision none = none
public_decision (some d) = some (public_routing d)

-- `AdaptiveInferenceResult` of api/schemas.py.
abbrev pub public_adaptive : Text → AdaptiveInferenceResult → Result PublicResult
public_adaptive id r = public_execution r.execution >>= λ e. ok (record {
  response = public_response id r.response;
  execution_mode = none;
  category = none;
  is_manual_category = false;
  routing = some (public_routing r.routing_decision);
  execution = e;
})

-- `ChatResult`
abbrev pub public_chat : Text → ChatOrchestrationResult → Result PublicResult
public_chat id r = public_execution r.execution >>= λ e. ok (record {
  response = public_response id r.response;
  execution_mode = some r.execution_mode;
  category = r.category;
  is_manual_category = r.is_manual_category;
  routing = public_decision r.routing_decision;
  execution = e;
})
