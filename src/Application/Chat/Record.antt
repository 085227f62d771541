-- ===== src/Application/Chat/Record.antt =====
-- The activity records that application/chat.py constructs.
use route_llm.Prelude.{ℕ, Bool, true, false, ◌||◌, Option, none, some, length, if◌then◌else◌}
use route_llm.Prelude.Text.{Text}
use route_llm.Decimal.{Decimal}
use route_llm.Errors.{
  is_deadline, is_provider_failure, is_provider_unavailable, is_response_validation,
}
use route_llm.Models.{InferenceResponse, Error}
use route_llm.Routing.Features.{RoutingCategory, Hint, category, no_hint, value}
use route_llm.Application.Activity.{
  ChatActivityRecord, ChatActivityOutcome, direct, adaptive, outcome_value, status_value,
  validation_failed, deadline_passed, provider_failed, returned,
}
use route_llm.Application.Adaptive.{AdaptiveExecution, AdaptiveInferenceResult}

-- `_failure_outcome`
abbrev pub failure_outcome : Error → ChatActivityOutcome
failure_outcome e =
    if is_response_validation e
    then validation_failed
    else if is_deadline e
    then deadline_passed
    else provider_failed

-- The classes of the handler of the direct path, and those of the adaptive one.
abbrev pub is_direct_failure : Error → Bool
is_direct_failure e = is_provider_failure e || is_provider_unavailable e || is_deadline e

abbrev pub is_adaptive_failure : Error → Bool
is_adaptive_failure e = is_direct_failure e || is_response_validation e

abbrev pub hint_of : Option RoutingCategory → Hint
hint_of none = no_hint
hint_of (some c) = category c

abbrev category_value : Option RoutingCategory → Option Text
category_value none = none
category_value (some c) = some (value c)

-- The four records.
abbrev pub direct_failure : Text → Text → Text → Error → ChatActivityRecord
direct_failure id model_id provider e = record {
  request_id = id;
  execution_mode = direct;
  category = none;
  is_manual_category = false;
  initial_model_id = some model_id;
  final_model_id = none;
  provider = some provider;
  routing_threshold_satisfied = none;
  routing_fallback_used = none;
  attempt_count = none;
  escalated = none;
  validation_outcome = none;
  outcome = failure_outcome e;
  error_category = some (outcome_value (failure_outcome e));
  input_tokens = none;
  output_tokens = none;
  latency_ms = none;
  estimated_cost_usd = none;
  cost_complete = false;
}

abbrev pub direct_success : Text → InferenceResponse → ChatActivityRecord
direct_success id response = record {
  request_id = id;
  execution_mode = direct;
  category = none;
  is_manual_category = false;
  initial_model_id = none;
  final_model_id = some response.model_id;
  provider = some response.provider;
  routing_threshold_satisfied = none;
  routing_fallback_used = none;
  attempt_count = some 1;
  escalated = some false;
  validation_outcome = none;
  outcome = returned;
  error_category = none;
  input_tokens = some response.input_tokens;
  output_tokens = some response.output_tokens;
  latency_ms = some response.latency_ms;
  estimated_cost_usd = some response.estimated_cost_usd;
  cost_complete = true;
}

abbrev pub adaptive_failure : Text → Option RoutingCategory → Error → ChatActivityRecord
adaptive_failure id c e = record {
  request_id = id;
  execution_mode = adaptive;
  category = category_value c;
  is_manual_category = true;
  initial_model_id = none;
  final_model_id = none;
  provider = none;
  routing_threshold_satisfied = none;
  routing_fallback_used = none;
  attempt_count = none;
  escalated = none;
  validation_outcome = none;
  outcome = failure_outcome e;
  error_category = some (outcome_value (failure_outcome e));
  input_tokens = none;
  output_tokens = none;
  latency_ms = none;
  estimated_cost_usd = none;
  cost_complete = false;
}

-- What the record reads of an execution, which is absent without a contract.
abbrev total_cost : InferenceResponse → Option AdaptiveExecution → Option Decimal
total_cost response none = some response.estimated_cost_usd
total_cost response (some e) = e.total_estimated_cost_usd

abbrev total_latency : InferenceResponse → Option AdaptiveExecution → ℕ
total_latency response none = response.latency_ms
total_latency response (some e) = e.total_latency_ms

abbrev attempt_count : Option AdaptiveExecution → ℕ
attempt_count none = 1
attempt_count (some e) = length e.attempts

abbrev escalated : Option AdaptiveExecution → Bool
escalated none = false
escalated (some e) = e.escalated

abbrev validation_outcome : Option AdaptiveExecution → Option Text
validation_outcome none = none
validation_outcome (some e) = some (status_value e.validation_outcome)

abbrev is_known : Option Decimal → Bool
is_known none = false
is_known (some c) = true

abbrev pub adaptive_success :
    Text → Option RoutingCategory → AdaptiveInferenceResult → ChatActivityRecord
adaptive_success id c r = record {
  request_id = id;
  execution_mode = adaptive;
  category = category_value c;
  is_manual_category = true;
  initial_model_id = some r.routing_decision.selected_model_id;
  final_model_id = some r.response.model_id;
  provider = some r.response.provider;
  routing_threshold_satisfied = some r.routing_decision.threshold_satisfied;
  routing_fallback_used = some r.routing_decision.fallback_used;
  attempt_count = some (attempt_count r.execution);
  escalated = some (escalated r.execution);
  validation_outcome = validation_outcome r.execution;
  outcome = returned;
  error_category = none;
  input_tokens = some r.response.input_tokens;
  output_tokens = some r.response.output_tokens;
  latency_ms = some (total_latency r.response r.execution);
  estimated_cost_usd = total_cost r.response r.execution;
  cost_complete = is_known (total_cost r.response r.execution);
}
