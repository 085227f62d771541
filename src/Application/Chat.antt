-- ===== src/Application/Chat.antt =====
-- application/chat.py: `ChatOrchestrationService`, which answers a request of the chat by the default
-- model or by the adaptive service, and keeps an activity record of it.
pub mod Answered
pub mod Record
pub mod Validated
use route_llm.Prelude.{
  ℕ, ◌-◌, ◌*◌, Bool, true, false, not, ◌||◌, Option, none, some, List, length, if◌then◌else◌,
}
use route_llm.Prelude.Text.{Text, codes}
use route_llm.Decimal.{Decimal}
use route_llm.Errors.{
  adaptive_routing_unavailable, value_error, model_not_found, ok, err, is_deadline,
  is_provider_failure, is_provider_unavailable, is_response_validation,
}
use route_llm.Models.{ModelConfig, InferenceRequest, InferenceResponse, Result, Error}
use route_llm.Deadline.{RequestDeadline, constrain_timeout}
use route_llm.Registry
use route_llm.Routing.Threshold.{Value}
use route_llm.Routing.Features.{RoutingCategory, Hint, category, no_hint, value}
use route_llm.Routing.Policy.{RoutingDecision}
use route_llm.Validation.Contract.{ValidationContract}
use route_llm.Application.World.{
  Environment, Act, ◌>>=◌, return, raise, attempt, lift, ask, observe, written, failure,
  activity_write, activity_write_failed,
}
use route_llm.Application.Activity.{
  ChatActivityRecord, ChatActivityOutcome, ChatExecutionMode, direct, adaptive, outcome_value,
  status_value, valid_activity, validation_failed, deadline_passed, provider_failed, returned,
}
use route_llm.Application.Inference.{InferenceService, is_cancelled, now, counter}
use route_llm.Application.Inference.Service.{generate}
use route_llm.Application.Adaptive.{AdaptiveExecution, AdaptiveInferenceResult}
use route_llm.Application.Adaptive.Record.{AdaptiveInferenceService}
use route_llm.Application.Adaptive.Run.{generate_adaptive}
use route_llm.Application.Chat.Record.{
  failure_outcome, is_direct_failure, is_adaptive_failure, hint_of, direct_failure, direct_success,
  adaptive_failure, adaptive_success,
}

pub data ChatRoutingMode : Type 0 where
  auto manual : ChatRoutingMode

pub record ChatOrchestrationResult : Type 0 where
  pub response : InferenceResponse
  pub execution_mode : ChatExecutionMode
  pub category : Option RoutingCategory
  pub is_manual_category : Bool
  pub routing_decision : Option RoutingDecision
  pub execution : Option AdaptiveExecution

-- adaptive_config.py
pub record AdaptiveRuntime (env : Environment) : Type 0 where
  pub service : AdaptiveInferenceService env
  pub candidate_model_ids : List Text
  pub approved_quality_threshold : Value

-- `has_activity_telemetry` is whether the repository has `record_chat_activity`.
pub record ChatOrchestrationService (env : Environment) : Type 0 where
  pub inference_service : InferenceService env
  pub has_activity_telemetry : Bool
  pub default_model_id : Text
  pub adaptive_runtime : Option (AdaptiveRuntime env)

abbrev pub direct_result : InferenceResponse → ChatOrchestrationResult
direct_result response = record {
  response = response;
  execution_mode = direct;
  category = none;
  is_manual_category = false;
  routing_decision = none;
  execution = none;
}

abbrev pub adaptive_result :
    Option RoutingCategory → AdaptiveInferenceResult → ChatOrchestrationResult
adaptive_result c r = record {
  response = r.response;
  execution_mode = adaptive;
  category = c;
  is_manual_category = true;
  routing_decision = some r.routing_decision;
  execution = r.execution;
}

module _ {env : Environment} (s : ChatOrchestrationService env) where
  -- What follows the attempt to store a record.
  abbrev pub stored : ℕ → ChatActivityRecord → Result (Unit {0}) → Act env (Unit {0})
  stored started event (ok u) = do
    later ← counter
    observe (activity_write written (some (later - started)))
  stored started event (err e) = if is_cancelled e then raise e else do
    later ← counter
    _ ← observe (activity_write failure (some (later - started)))
    observe (activity_write_failed event.request_id ((later - started) * 1000))

  abbrev pub timed_record : ChatActivityRecord → Option ℕ → Act env (Unit {0})
  timed_record event none = return tt
  timed_record event (some timeout) = do
    started ← counter
    result ← ask (env.store_activity event)
    stored started event result

  -- The construction of the record, and `_record_activity`.
  unfoldable pub record_activity : Bool → ChatActivityRecord → RequestDeadline → Act env (Unit {0})
  record_activity has event d =
      if not (valid_activity event) then raise value_error else if not has then return tt else do
        t ← now
        timed_record event (constrain_timeout d t s.inference_service.telemetry_timeout)

  -- The direct path, from the result of the inference.
  abbrev pub answered :
      Text → RequestDeadline → Result InferenceResponse → Act env ChatOrchestrationResult
  answered id d (ok response) = do
    _ ← record_activity s.has_activity_telemetry (direct_success id response) d
    return (direct_result response)
  answered id d (err e) = if not (is_direct_failure e) then raise e else do
    m ← lift (Registry.get s.default_model_id s.inference_service.registry)
    _ ←
        record_activity s.has_activity_telemetry (direct_failure id s.default_model_id m.provider e)
          d
    raise e

  -- The adaptive path, from the result of its service.
  abbrev pub concluded :
      Text
      → Option RoutingCategory
      → RequestDeadline
      → Result AdaptiveInferenceResult
      → Act env ChatOrchestrationResult
  concluded id c d (ok r) = do
    _ ← record_activity s.has_activity_telemetry (adaptive_success id c r) d
    return (adaptive_result c r)
  concluded id c d (err e) =
      if not (is_adaptive_failure e)
      then raise e
      else do _ ← record_activity s.has_activity_telemetry (adaptive_failure id c e) d; raise e

  abbrev pub by_runtime :
      InferenceRequest
      → Option RoutingCategory
      → Option ValidationContract
      → Text
      → RequestDeadline
      → Option (AdaptiveRuntime env)
      → Act env ChatOrchestrationResult
  by_runtime r c validation id d none = raise adaptive_routing_unavailable
  by_runtime r c validation id d (some runtime) = do
    result ← attempt (
        generate_adaptive runtime.service r (hint_of c) runtime.approved_quality_threshold
          runtime.candidate_model_ids validation false (some id) (some d))
    concluded id c d result

  -- `generate`
  unfoldable pub chat :
      InferenceRequest
      → ChatRoutingMode
      → Option RoutingCategory
      → Option ValidationContract
      → Text
      → RequestDeadline
      → Act env ChatOrchestrationResult
  chat r auto c validation id d = do
    result ←
        attempt
          (generate s.inference_service s.default_model_id r (some id) (some d) (codes "explicit"))
    answered id d result
  chat r manual c validation id d = by_runtime r c validation id d s.adaptive_runtime

-- `build_chat_orchestration_service`, from the default model of `ChatConfiguration`.
abbrev with_default :
    {env : Environment}
    → InferenceService env
    → Bool
    → Option (AdaptiveRuntime env)
    → Result ModelConfig
    → Result (ChatOrchestrationService env)
with_default s has runtime (err model_not_found) = err value_error
with_default s has runtime (err e) = err e
with_default s has runtime (ok m) =
    if not m.enabled
    then err value_error
    else ok (record {
      inference_service = s;
      has_activity_telemetry = has;
      default_model_id = m.model_id;
      adaptive_runtime = runtime;
    })

unfoldable pub build_chat :
    {env : Environment}
    → InferenceService env
    → Bool
    → Text
    → Option (AdaptiveRuntime env)
    → Result (ChatOrchestrationService env)
build_chat s has default_model_id runtime =
    with_default s has runtime (Registry.get default_model_id s.registry)
