-- ===== src/Tests/Application.antt =====
-- The application services in a world whose clocks stand still and whose adapter always answers.
use route_llm.Prelude.{ℕ, ◌≡◌, ◌⊎◌, refl, true, false, none, some, List, [], ◌∷◌, arith, length}
use route_llm.Prelude.Text.{Text, codes, text_eq, all_distinct}
use route_llm.Errors.{ok, err, no_eligible_candidates}
use route_llm.Deadline.{RequestDeadline, expired, remaining_seconds, constrain_timeout}
use route_llm.Registry
use route_llm.Registry.{ModelRegistry, ProviderResolver}
use route_llm.Routing.Policy.{RoutingDecision, quality_threshold_met}
use route_llm.Routing.Service.{RoutingResult}
use route_llm.Validation.Contract.{ValidationContract, ValidationResult, passed, text}
use route_llm.Application.World.{Environment, System, replied, valid_execution}
use route_llm.Application.Inference.{InferenceService, resolved, generate_once}
use route_llm.Application.Inference.Service.{generate, generate_within, generate_with, record_event}
use route_llm.Application.Inference.Outcome.{IsUnreached, IsObserved, generate_once-IsObserved}
use route_llm.Application.Adaptive.{AdaptiveExecution, AdaptiveInferenceResult, execution_of}
use route_llm.Application.Adaptive.Candidates.{ids, IsPlan, candidate_order-IsPlan}
use route_llm.Application.Adaptive.Record.{
  AdaptiveInferenceService, Run, conclude_with, record_execution,
}
use route_llm.Application.Adaptive.Run.{try_models}
use route_llm.Application.Adaptive.Run.Returned.{IsReturned, try_models-IsReturned}
use route_llm.Tests.Sample.{small, large, request, reply, strong, cheap, price_of, half}

abbrev pub world : Environment
world = record {
  State = ℕ;
  Provider = ℕ;
  monotonic = λ s. (s, 0);
  perf_counter = λ s. (s, 0);
  uuid = λ s. (s, codes "id");
  call = λ p r timeout s. (s, replied (reply (codes "hello")));
  store = λ event s. (s, ok tt);
  store_execution = λ event s. (s, ok tt);
  store_activity = λ event s. (s, ok tt);
}

abbrev pub inference : InferenceService world
inference = record {
  registry = record { models = (codes "small", small) ∷ (codes "large", large) ∷ [] };
  resolver = record { factories = (codes "vercel", λ m. ok 0) ∷ [] };
  has_telemetry = true;
  telemetry_timeout = 2;
  inference_deadline = 60;
}

abbrev pub start : System world
start = record { world = 0; log = [] }

abbrev pub deadline : RequestDeadline
deadline = record { expires_at = 60 }

generate_once-IsObserved_example :
    IsUnreached small.enabled
      (resolved (Registry.resolve small inference.resolver))
      start
      (generate_once inference small request deadline (codes "id") (codes "explicit") start).0
      (generate_once inference small request deadline (codes "id") (codes "explicit") start).1
    ⊎ ((small.enabled ≡ true)
        × IsObserved small
            (codes "id")
            (codes "explicit")
            start
            (generate_once inference small request deadline (codes "id") (codes "explicit") start).0
            (generate_once inference small request deadline
              (codes "id")
              (codes "explicit")
              start).1)
generate_once-IsObserved_example =
    generate_once-IsObserved small request deadline (codes "id") (codes "explicit") start inference

abbrev pub decision : RoutingDecision
decision = record {
  selected_model_id = codes "small";
  selected_predicted_acceptability = cheap.predicted_acceptability;
  selected_projected_cost_usd = price_of 10;
  quality_threshold = half;
  threshold_satisfied = true;
  fallback_used = false;
  eligible_candidate_count = 2;
  qualifying_candidate_count = 2;
  reason = quality_threshold_met;
}

abbrev pub routing : RoutingResult
routing = record {
  decision = decision;
  candidates =
      record { prediction = strong; qualifies = true }
      ∷ record { prediction = cheap; qualifies = true }
      ∷ [];
}

routing_distinct : all_distinct (ids routing.candidates) ≡ true
unfolding text_eq
routing_distinct = refl

candidate_order-IsPlan_example : (rest : List Text) × IsPlan 3 routing rest
candidate_order-IsPlan_example = candidate_order-IsPlan routing 3 (omega arith) routing_distinct

abbrev pub verdict : ValidationResult
verdict = record { status = passed; failures = []; duration_ms = 1 }

abbrev pub adaptive : AdaptiveInferenceService world
adaptive = record {
  inference = inference;
  has_execution_telemetry = true;
  route = λ r ms v h b. err no_eligible_candidates;
  validate = λ response contract y. (ok verdict, y);
  max_validation_attempts = 3;
}

abbrev pub contract : ValidationContract
contract = record {
  format = text;
  min_characters = none;
  root_type = none;
  required_fields = [];
  field_types = [];
  allowed_labels = [];
}

abbrev run : Run
run = record {
  request = request;
  contract = contract;
  routing = routing;
  execution_id = codes "id";
  request_id = codes "id";
  deadline = deadline;
  count = 2;
}

abbrev models : List Text
models = codes "small" ∷ codes "large" ∷ []

abbrev pub execution : AdaptiveExecution
execution =
    execution_of
      (record {
        attempt_number = 1;
        model_id = codes "small";
        validation = record { status = passed; failure_codes = []; duration_ms = 1 };
        latency_ms = some 10;
        estimated_cost_usd = some (price_of 10);
      }
        ∷ [])
      passed

abbrev pub result : AdaptiveInferenceResult
result = record {
  response = reply (codes "hello");
  routing_decision = decision;
  execution = some execution;
}

returned : (try_models adaptive run 1 [] models start).0 ≡ ok result
unfolding try_models generate generate_within generate_with generate_once record_event
    record_execution conclude_with valid_execution expired remaining_seconds constrain_timeout
    Registry.get Registry.resolve text_eq
returned = refl

try_models-IsReturned_example : IsReturned adaptive run (length {A = Text} models) result
try_models-IsReturned_example = try_models-IsReturned adaptive run models 1 [] start result returned
