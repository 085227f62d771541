-- ===== src/Tests/Api.antt =====
-- The HTTP interface over the services of the other tests, with a limiter that admits everyone.
use route_llm.Prelude.{◌≡◌, refl, sym, ◌⊎◌, true, false, none, some, [], ◌++◌}
use mathlib.Core.List.{append-nil}
use route_llm.Prelude.Text.{Text, codes, text_eq}
use route_llm.Errors.{ok, rate_limit_exceeded, client}
use route_llm.Deadline.{new_deadline, expired, remaining_seconds, constrain_timeout}
use route_llm.Limits.{validate_request}
use route_llm.Registry
use route_llm.Models.{starts_with}
use route_llm.Routing.Features.{extraction}
use route_llm.Application.World.{valid_execution}
use route_llm.Application.Inference.{generate_once}
use route_llm.Application.Inference.Service.{generate, generate_within, generate_with, record_event}
use route_llm.Application.Adaptive.{execution_of, candidate_order, resolve_candidates}
use route_llm.Application.Adaptive.Record.{conclude_with, record_execution}
use route_llm.Application.Adaptive.Run.{generate_adaptive, generate_validated, try_models}
use route_llm.Api.Responses.{IsAnswered, application_error, application_error-IsAnswered}
use route_llm.Api.Schemas.{
  InferencePayload, AdaptiveInferencePayload, PublicResult, public_response,
}
use route_llm.Api.Routes.{Application, inference, adaptive_inference}
use route_llm.Api.Routes.Served.{IsInference, inference-IsInference}
use route_llm.Api.Routes.Validated.{IsAdaptiveInference, adaptive_inference-IsAdaptiveInference}
use route_llm.Api.Correlation.{is_request_id, correlation_id}
use route_llm.Api.Correlation.Finished.{IsCorrelated, correlation_id-IsCorrelated}
use route_llm.Api.Operations.{
  ObservabilitySettings, IsReady, ready, ready_lem, valid_observability, prometheus_metrics,
  prometheus_metrics_lem,
}
use route_llm.Tests.Sample.{request, reply, half}
use route_llm.Tests.Application.{world, inference as service, start, contract, execution, decision}
use route_llm.Tests.Chat.{runtime, chat_service}

abbrev application : Application world
application = record {
  inference_service = service;
  adaptive_runtime = some runtime;
  adaptive_required = true;
  chat_service = some chat_service;
  admit = λ peer kind d y. (ok tt, y);
  limiter_ready = λ y. (ok true, y);
  request_limits = record { max_prompt_characters = 1000; max_output_tokens = 200 };
  initialized = true;
}

abbrev peer : Text
peer = codes "10.0.0.1"

abbrev payload : InferencePayload
payload = record { request = request; model_id = codes "small" }

shown :
    (inference application peer (codes "id") payload start).0
    ≡ ok (public_response (codes "id") (reply (codes "hello")))
unfolding inference validate_request new_deadline generate generate_within generate_with
    generate_once record_event expired remaining_seconds constrain_timeout Registry.get
    Registry.resolve text_eq
shown = refl

inference-IsInference_example :
    IsInference application peer
      (codes "id")
      payload
      (public_response (codes "id") (reply (codes "hello")))
      start
      (inference application peer (codes "id") payload start).1.log
inference-IsInference_example =
    inference-IsInference application peer (codes "id") payload
      (public_response (codes "id") (reply (codes "hello"))) start shown

abbrev adaptive_payload : AdaptiveInferencePayload
adaptive_payload = record {
  request = request;
  validation = some contract;
  category = extraction;
  quality_threshold = some half;
}

abbrev public_result : PublicResult
public_result = record {
  response = public_response (codes "id") (reply (codes "hello"));
  execution_mode = none;
  category = none;
  is_manual_category = false;
  routing = some (record {
    selected_model_id = decision.selected_model_id;
    threshold_satisfied = decision.threshold_satisfied;
    fallback_used = decision.fallback_used;
    reason = decision.reason;
  });
  execution = some (record {
    attempts = 1;
    escalated = false;
    total_estimated_cost_usd = execution.total_estimated_cost_usd;
    total_latency_ms = 10;
  });
}

adaptively_shown :
    (adaptive_inference application peer (codes "id") adaptive_payload start).0 ≡ ok public_result
unfolding adaptive_inference validate_request new_deadline generate_adaptive generate_validated
    try_models generate generate_within generate_with generate_once record_event record_execution
    conclude_with valid_execution expired remaining_seconds constrain_timeout Registry.get
    Registry.resolve Registry.supports resolve_candidates candidate_order text_eq execution_of
adaptively_shown = refl

adaptive_inference-IsAdaptiveInference_example :
    IsAdaptiveInference application peer (codes "id") adaptive_payload contract refl public_result
adaptive_inference-IsAdaptiveInference_example =
    adaptive_inference-IsAdaptiveInference application peer (codes "id") adaptive_payload contract
      refl public_result start adaptively_shown

application_error-IsAnswered_example :
    IsAnswered (rate_limit_exceeded 7 client) (application_error (rate_limit_exceeded 7 client))
application_error-IsAnswered_example = application_error-IsAnswered (rate_limit_exceeded 7 client)

correlation_id-IsCorrelated_example :
    IsCorrelated {env = world}
      (codes "/health")
      (codes "GET")
      start
      (correlation_id {env = world}
        (codes "/health")
        (codes "GET")
        []
        (λ id y. (ok 200, y))
        start).0
      (correlation_id {env = world}
        (codes "/health")
        (codes "GET")
        []
        (λ id y. (ok 200, y))
        start).1
unfolding is_request_id
correlation_id-IsCorrelated_example =
    correlation_id-IsCorrelated {env = world} (codes "/health") (codes "GET") (λ id y. (ok 200, y))
      (λ id y. ([], tt, sym (append-nil y.log))) (λ w. refl) [] start

ready_lem_example :
    (((ready application start).0 ≡ ok 200) × IsReady application (ok true))
    ⊎ ((ready application start).0 ≡ ok 503)
ready_lem_example = ready_lem application start (λ h. cc)

abbrev token : Text
token = codes "0123456789abcdef0123456789abcdef"

abbrev metrics : ObservabilitySettings
metrics = record { metrics_enabled = true; metrics_bearer_token = some token }

authorised : prometheus_metrics metrics (codes "Bearer " ++ token) ≡ ok 200
unfolding prometheus_metrics starts_with text_eq
authorised = refl

prometheus_metrics_lem_example :
    (true ≡ true)
    × (t : Text) × (some token ≡ some t)
    × (codes "Bearer " ++ token ≡ codes "Bearer " ++ t)
unfolding valid_observability
prometheus_metrics_lem_example =
    prometheus_metrics_lem metrics (codes "Bearer " ++ token) refl authorised
