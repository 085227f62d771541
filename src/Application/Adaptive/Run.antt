-- ===== src/Application/Adaptive/Run.antt =====
-- The effectful part of application/adaptive.py: `generate` and its loop over the candidates.
pub mod Returned
use route_llm.Prelude.{
  ℕ, ◌+◌, ◌-◌, ◌*◌, Bool, true, false, not, ◌&&◌, ◌||◌, Option, none, some, List, [], ◌∷◌, ◌++◌,
  map, any, ltb, ◌==◌, length, is_empty, if◌then◌else◌,
}
use route_llm.Prelude.Text.{Text, codes}
use route_llm.Decimal.{Decimal}
use route_llm.Errors.{
  completion_rejected, deadline_exceeded, assertion_error, model_disabled, provider_unavailable,
  response_validation, value_error, ok, err, is_deadline,
}
use route_llm.Models.{ModelConfig, InferenceRequest, InferenceResponse, Result, Error}
use route_llm.Deadline.{RequestDeadline, expired, constrain_timeout}
use route_llm.Registry
use route_llm.Registry.{supports, ModelRegistry, ProviderResolver}
use route_llm.Routing.Threshold.{Value}
use route_llm.Routing.Features.{Hint}
use route_llm.Routing.Service.{RoutingResult}
use route_llm.Validation.Contract.{
  ValidationContract, ValidationStatus, ValidationResult, ValidationFailure, ValidationFailureCode,
  is_passed, is_failed, not_run,
}
use route_llm.Application.World.{
  Environment, System, Act, Observation, return, raise, attempt, lift, ask, observe,
  AdaptiveExecutionTelemetry, valid_execution, AdaptiveTerminalOutcome, ◌>>=◌, returned,
  validation_failed, provider_failed, deadline_passed, written, failure, skipped_unconfigured,
  skipped_deadline, execution_write, execution_write_failed, routing_decision, validation_failure,
  adaptive_request,
}
use route_llm.Application.World
use route_llm.Application.Inference.{InferenceService, completion_of, is_cancelled, now}
use route_llm.Application.Inference.Service.{generate, deadline_or_new}
use route_llm.Application.Adaptive.{
  AdaptiveAttempt, AdaptiveExecution, AdaptiveInferenceResult, from_result, known_cost,
  total_latency, execution_of, candidate_order, recoverable, resolve_candidates,
}
use route_llm.Application.Adaptive.Record.{
  AdaptiveInferenceService, Run, terminal_of, last_status, recovered_in, has_cost, execution_event,
  attempt_of, conclude_with, given_or_new, record_execution,
}

module _ {env : Environment} (s : AdaptiveInferenceService env) where
  -- An exception of the inference that is no rejected completion.
  abbrev pub failed : Run → ℕ → List AdaptiveAttempt → Error → Act env AdaptiveInferenceResult
  failed run number attempts e =
      conclude_with
        (record_execution s
          (execution_event run number attempts (last_status attempts) (terminal_of e) none false [])
          run.deadline)
        (adaptive_request (terminal_of e) (ltb 1 number) false number run.request_id
          (last_status attempts))
        (err e)

  abbrev pub observe_failures : Text → ℕ → List ValidationFailure → Act env (Unit {0})
  observe_failures model_id number [] = return tt
  observe_failures model_id number (f ∷ fs) = do
    _ ← observe (validation_failure model_id f.code number)
    observe_failures model_id number fs

  abbrev pub returns :
      Run
      → List AdaptiveAttempt
      → InferenceResponse
      → ValidationResult
      → Act env AdaptiveInferenceResult
  returns run attempts response result =
      conclude_with
        (record_execution s
          (execution_event run (length attempts) attempts result.status returned
            (some response.model_id) (has_cost (execution_of attempts result.status)) [])
          run.deadline)
        (adaptive_request returned (ltb 1 (length attempts)) (recovered_in attempts)
          (length attempts) run.request_id result.status)
        (ok (record {
          response = response;
          routing_decision = run.routing.decision;
          execution = some (execution_of attempts result.status);
        }))

  abbrev pub gives_up :
      Run → List AdaptiveAttempt → ValidationResult → Act env AdaptiveInferenceResult
  gives_up run attempts result =
      conclude_with
        (record_execution s
          (execution_event run (length attempts) attempts result.status validation_failed none
            (has_cost (execution_of attempts result.status)) (map (λ f. f.code) result.failures))
          run.deadline)
        (adaptive_request validation_failed (ltb 1 (length attempts)) false (length attempts)
          run.request_id result.status)
        (err response_validation)

  -- What a validated response leads to; `next` is the rest of the loop.
  abbrev pub judged :
      Run
      → ℕ
      → List AdaptiveAttempt
      → InferenceResponse
      → ValidationResult
      → (List AdaptiveAttempt → Act env AdaptiveInferenceResult)
      → Act env AdaptiveInferenceResult
  judged run number attempts response result next =
      if is_passed result.status
      then returns run attempts response result
      else if not (recoverable result) || number == run.count
      then gives_up run attempts result
      else next attempts

  -- What follows the verdict of the validator.
  abbrev pub weighed :
      Run
      → ℕ
      → Text
      → List AdaptiveAttempt
      → InferenceResponse
      → (List AdaptiveAttempt → Act env AdaptiveInferenceResult)
      → ValidationResult
      → Act env AdaptiveInferenceResult
  weighed run number model_id attempts response next result = do
    t ← now
    if expired run.deadline t then raise deadline_exceeded else do
      _ ← observe_failures model_id number result.failures
      judged run number (attempts ++ attempt_of number model_id response result ∷ []) response
          result next

  abbrev pub checked :
      Run
      → ℕ
      → Text
      → List AdaptiveAttempt
      → InferenceResponse
      → (List AdaptiveAttempt → Act env AdaptiveInferenceResult)
      → Act env AdaptiveInferenceResult
  checked run number model_id attempts response next = do
    t ← now
    if expired run.deadline t
        then raise deadline_exceeded
        else (s.validate response (some run.contract)
            >>= weighed run number model_id attempts response next)

  abbrev pub handled :
      Run
      → ℕ
      → Text
      → List AdaptiveAttempt
      → Result InferenceResponse
      → (List AdaptiveAttempt → Act env AdaptiveInferenceResult)
      → Act env AdaptiveInferenceResult
  handled run number model_id attempts (ok response) next =
      checked run number model_id attempts response next
  handled run number model_id attempts (err (completion_rejected c response)) next =
      checked run number model_id attempts response next
  handled run number model_id attempts (err e) next =
      if is_cancelled e then raise e else failed run number attempts e

  -- The loop, from the number of the next attempt and the attempts before.
  unfoldable pub try_models :
      Run → ℕ → List AdaptiveAttempt → List Text → Act env AdaptiveInferenceResult
  try_models run number attempts [] = raise assertion_error
  try_models run number attempts (model_id ∷ model_ids) =
      (now {env = env} >>= λ t.
      if expired run.deadline t
      then raise deadline_exceeded
      else (attempt (
            generate s.inference model_id run.request (some run.request_id) (some run.deadline)
              (codes "adaptive"))
          >>= λ result.
              handled run number model_id attempts result
                (λ more. try_models run (number + 1) more model_ids)))

  -- `_generate_validated`
  unfoldable pub generate_validated :
      InferenceRequest
      → ValidationContract
      → RoutingResult
      → Option Text
      → RequestDeadline
      → Act env AdaptiveInferenceResult
  unfolding try_models
  generate_validated r contract routing request_id d = do
    execution_id ← ask env.uuid
    id ← given_or_new request_id
    try_models
        (record {
          request = r;
          contract = contract;
          routing = routing;
          execution_id = execution_id;
          request_id = id;
          deadline = d;
          count = length (candidate_order s.max_validation_attempts routing);
        })
        1 [] (candidate_order s.max_validation_attempts routing)

  -- The single attempt without a contract, from what became of the inference.
  abbrev unvalidated :
      Text → RoutingResult → Result InferenceResponse → Act env AdaptiveInferenceResult
  unvalidated id routing (ok response) = do
    _ ← observe (adaptive_request returned false false 1 id not_run)
    return (record { response = response; routing_decision = routing.decision; execution = none })
  unvalidated id routing (err e) =
      if is_cancelled e
      then raise e
      else do _ ← observe (adaptive_request (terminal_of e) false false 1 id not_run); raise e

  abbrev routed :
      InferenceRequest
      → Option ValidationContract
      → RoutingResult
      → Option Text
      → RequestDeadline
      → Act env AdaptiveInferenceResult
  routed r none routing request_id d = do
    id ← given_or_new request_id
    result ← attempt (
        generate s.inference routing.decision.selected_model_id r (some id) (some d)
          (codes "adaptive"))
    unvalidated id routing result
  routed r (some contract) routing request_id d = generate_validated r contract routing request_id d

  -- `generate`
  unfoldable pub generate_adaptive :
      InferenceRequest
      → Hint
      → Value
      → List Text
      → Option ValidationContract
      → Bool
      → Option Text
      → Option RequestDeadline
      → Act env AdaptiveInferenceResult
  generate_adaptive r hint quality_threshold ids validation structured request_id deadline = do
    d ← deadline_or_new s.inference deadline
    t ← now
    if expired d t then raise deadline_exceeded else do
      candidates ← lift (resolve_candidates s.inference.registry s.inference.resolver ids)
      routing ← lift (s.route r candidates quality_threshold hint structured)
      _ ← observe (routing_decision routing.decision.selected_model_id routing.decision.reason)
      routed r validation routing request_id d
