-- ===== src/Tests/Chat.antt =====
-- The inference service and the chat over it, in the world of the application tests.
use route_llm.Prelude.{◌==◌, if◌then◌else◌, ◌≡◌, refl, true, none, some, [], ◌∷◌, arith}
use route_llm.Prelude.Text.{Text, is_space, codes, text_eq}
use route_llm.Errors.{ok}
use route_llm.Deadline.{new_deadline, expired, remaining_seconds, constrain_timeout}
use route_llm.Registry
use route_llm.Routing.Features.{extraction}
use route_llm.Application.World.{valid_execution}
use route_llm.Application.Activity.{valid_activity, adaptive}
use route_llm.Application.Inference.{generate_once}
use route_llm.Application.Inference.Service.{generate, generate_within, generate_with, record_event}
use route_llm.Application.Inference.Service.Served.{IsServed, generate-IsServed}
use route_llm.Application.Adaptive.{execution_of, candidate_order, resolve_candidates}
use route_llm.Application.Adaptive.Record.{
  AdaptiveInferenceService, conclude_with, record_execution,
}
use route_llm.Application.Adaptive.Run.{generate_adaptive, generate_validated, try_models}
use route_llm.Application.Chat.{
  AdaptiveRuntime, ChatOrchestrationService, auto, manual, chat, record_activity, adaptive_result,
}
use route_llm.Application.Chat.Answered.{Answers, as_direct, chat-Answers}
use route_llm.Application.Chat.Validated.{IsValidated, chat-IsValidated}
use route_llm.Application.Configured.{from_environment, from_environment-join_with}
use route_llm.Tests.Sample.{small, request, reply, half_value}
use route_llm.Tests.Application.{
  world, inference, start, deadline, routing, contract, verdict, result,
}

served :
    (generate inference (codes "small") request (some (codes "id")) none (codes "explicit") start).0
    ≡ ok (reply (codes "hello"))
unfolding generate generate_within generate_with generate_once record_event expired
    remaining_seconds constrain_timeout Registry.get Registry.resolve text_eq new_deadline
served = refl

generate-IsServed_example :
    IsServed inference
      (codes "small")
      (some (codes "id"))
      (codes "explicit")
      []
      (reply (codes "hello"))
      (generate inference
        (codes "small")
        request
        (some (codes "id"))
        none
        (codes "explicit")
        start).1.log
generate-IsServed_example =
    generate-IsServed inference (codes "small") request (some (codes "id")) (codes "explicit")
      (reply (codes "hello")) none start served

-- The same service with a router that has an answer.
abbrev routed : AdaptiveInferenceService world
routed = record {
  inference = inference;
  has_execution_telemetry = true;
  route = λ r ms v h b. ok routing;
  validate = λ response contract y. (ok verdict, y);
  max_validation_attempts = 3;
}

abbrev pub runtime : AdaptiveRuntime world
runtime = record {
  service = routed;
  candidate_model_ids = codes "small" ∷ codes "large" ∷ [];
  approved_quality_threshold = half_value;
}

abbrev pub chat_service : ChatOrchestrationService world
chat_service = record {
  inference_service = inference;
  has_activity_telemetry = true;
  default_model_id = codes "small";
  adaptive_runtime = some runtime;
}

small_registered : Registry.get (codes "small") inference.registry ≡ ok small
unfolding Registry.get text_eq
small_registered = refl

chat-Answers_example :
    Answers {env = world}
      (generate inference
        (codes "small")
        request
        (some (codes "id"))
        (some deadline)
        (codes "explicit")
        start).1
      (as_direct
        (generate inference
          (codes "small")
          request
          (some (codes "id"))
          (some deadline)
          (codes "explicit")
          start).0)
      (chat chat_service request auto none none (codes "id") deadline start)
chat-Answers_example =
    chat-Answers chat_service (λ event w h. cc) (codes "id") (omega arith) (omega arith) deadline
      small small_registered (omega arith) (omega arith) request none none start (omega arith)

chatted :
    (chat chat_service request manual
      (some extraction)
      (some contract)
      (codes "id")
      deadline
      start).0
    ≡ ok (adaptive_result (some extraction) result)
unfolding chat generate_adaptive generate_validated try_models generate generate_within
    generate_with generate_once record_event record_execution record_activity conclude_with
    valid_execution valid_activity expired remaining_seconds constrain_timeout Registry.get
    Registry.resolve Registry.supports resolve_candidates candidate_order text_eq execution_of
chatted = refl

chat-IsValidated_example :
    (r : AdaptiveRuntime world) × (chat_service.adaptive_runtime ≡ some r)
    × IsValidated r.service contract (reply (codes "hello")) result.execution
    × (adaptive ≡ adaptive)
    × (some extraction ≡ some extraction)
chat-IsValidated_example =
    chat-IsValidated chat_service (codes "id") (some extraction) deadline
      (adaptive_result (some extraction) result) request contract start chatted

-- `Path`, as far as a slash at the end goes.
abbrev no_trailing_slash : Text → Text
no_trailing_slash [] = []
no_trailing_slash (c ∷ []) = if c == 47 then [] else c ∷ []
no_trailing_slash (c ∷ d ∷ cs) = c ∷ no_trailing_slash (d ∷ cs)

from_environment-join_with_example :
    from_environment no_trailing_slash (some (codes "/artifact/")) (some (codes "small,large"))
    ≡ ok (record {
      artifact_path = some (codes "/artifact");
      candidate_model_ids = codes "small" ∷ codes "large" ∷ [];
    })
unfolding text_eq is_space
from_environment-join_with_example =
    from_environment-join_with no_trailing_slash (codes "/artifact/") (codes "small")
      (codes "large" ∷ []) refl refl refl refl
