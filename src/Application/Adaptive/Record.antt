-- ===== src/Application/Adaptive/Record.antt =====
-- What application/adaptive.py keeps of an execution, and `_record_execution`.
use route_llm.Prelude.{
  ℕ, ◌+◌, ◌-◌, ◌*◌, Bool, true, false, not, ◌&&◌, Option, none, some, List, [], ◌∷◌, any, ltb,
  length, is_empty, if◌then◌else◌,
}
use route_llm.Prelude.Text.{Text, codes}
use route_llm.Errors.{value_error, ok, err, is_deadline}
use route_llm.Models.{ModelConfig, InferenceRequest, InferenceResponse, Result, Error}
use route_llm.Deadline.{RequestDeadline, constrain_timeout}
use route_llm.Routing.Threshold.{Value}
use route_llm.Routing.Features.{Hint}
use route_llm.Routing.Service.{RoutingResult}
use route_llm.Validation.Contract.{
  ValidationContract, ValidationStatus, ValidationResult, ValidationFailureCode, is_failed, not_run,
}
use route_llm.Application.World.{
  Environment, Act, Observation, return, raise, lift, ask, observe, AdaptiveExecutionTelemetry,
  valid_execution, AdaptiveTerminalOutcome, ◌>>=◌, provider_failed, deadline_passed, written,
  failure, skipped_unconfigured, skipped_deadline, execution_write, execution_write_failed,
}
use route_llm.Application.Inference.{InferenceService, is_cancelled, now}
use route_llm.Application.Adaptive.{
  AdaptiveAttempt, AdaptiveExecution, from_result, known_cost, total_latency,
}

-- The service: an inference service, the routing of a request among candidates, and a validator.
pub record AdaptiveInferenceService (env : Environment) : Type 0 where
  pub inference : InferenceService env
  pub has_execution_telemetry : Bool
  pub route : InferenceRequest → List ModelConfig → Value → Hint → Bool → Result RoutingResult
  pub validate : InferenceResponse → Option ValidationContract → Act env ValidationResult
  pub max_validation_attempts : ℕ

abbrev pub terminal_of : Error → AdaptiveTerminalOutcome
terminal_of e = if is_deadline e then deadline_passed else provider_failed

-- `attempts[-1].validation.status if attempts else NOT_RUN`
abbrev pub last_status : List AdaptiveAttempt → ValidationStatus
last_status [] = not_run
last_status (a ∷ []) = a.validation.status
last_status (a ∷ b ∷ more) = last_status (b ∷ more)

abbrev pub validation_time : List AdaptiveAttempt → ℕ
validation_time [] = 0
validation_time (a ∷ more) = a.validation.duration_ms + validation_time more

abbrev pub but_last : List AdaptiveAttempt → List AdaptiveAttempt
but_last [] = []
but_last (a ∷ []) = []
but_last (a ∷ b ∷ more) = a ∷ but_last (b ∷ more)

abbrev pub recovered_in : List AdaptiveAttempt → Bool
recovered_in attempts =
    ltb 1 (length attempts) && any (λ a. is_failed a.validation.status) (but_last attempts)

abbrev pub has_cost : AdaptiveExecution → Bool
has_cost e = elim e.total_estimated_cost_usd [ none ↦ false | some c ↦ true ]

-- What the loop keeps unchanged.
pub record Run : Type 0 where
  pub request : InferenceRequest
  pub contract : ValidationContract
  pub routing : RoutingResult
  pub execution_id : Text
  pub request_id : Text
  pub deadline : RequestDeadline
  pub count : ℕ

abbrev pub execution_event :
    Run
    → ℕ
    → List AdaptiveAttempt
    → ValidationStatus
    → AdaptiveTerminalOutcome
    → Option Text
    → Bool
    → List ValidationFailureCode
    → AdaptiveExecutionTelemetry
execution_event run number attempts status terminal model complete codes = record {
  id = run.execution_id;
  request_id = run.request_id;
  initial_routed_model_id = run.routing.decision.selected_model_id;
  returned_model_id = model;
  attempt_count = number;
  escalated = ltb 1 number;
  validation_outcome = status;
  terminal_outcome = terminal;
  cumulative_known_cost_usd = known_cost attempts;
  cost_complete = complete;
  cumulative_latency_ms = total_latency attempts;
  validation_duration_ms = validation_time attempts;
  failure_codes = codes;
}

abbrev pub attempt_of : ℕ → Text → InferenceResponse → ValidationResult → AdaptiveAttempt
attempt_of number model_id response result = record {
  attempt_number = number;
  model_id = model_id;
  validation = from_result result;
  latency_ms = some response.latency_ms;
  estimated_cost_usd = some response.estimated_cost_usd;
}

-- The record of an execution, the observation of the request, and then the result.
unfoldable pub conclude_with :
    {env : Environment} {A : Type 0} → Act env (Unit {0}) → Observation → Result A → Act env A
conclude_with m o r = do _ ← m; _ ← observe o; lift r

-- `request_id or str(uuid4())`
abbrev pub given_or_new : {env : Environment} → Option Text → Act env Text
given_or_new {env} none = ask env.uuid
given_or_new {env} (some id) = if is_empty id then ask env.uuid else return id

module _ {env : Environment} (s : AdaptiveInferenceService env) where
  abbrev pub stored : ℕ → AdaptiveExecutionTelemetry → Result (Unit {0}) → Act env (Unit {0})
  stored started event (ok u) = do
    later ← now
    observe (execution_write written (some (later - started)))
  stored started event (err e) = if is_cancelled e then raise e else do
    later ← now
    _ ← observe (execution_write failure (some (later - started)))
    observe (execution_write_failed event.request_id ((later - started) * 1000))

  abbrev pub timed_record : AdaptiveExecutionTelemetry → Option ℕ → Act env (Unit {0})
  timed_record event none = observe (execution_write skipped_deadline none)
  timed_record event (some timeout) = do
    started ← now
    result ← ask (env.store_execution event)
    stored started event result

  -- The construction of the event, and `_record_execution`.
  unfoldable pub record_execution :
      AdaptiveExecutionTelemetry → RequestDeadline → Act env (Unit {0})
  record_execution event d =
      if not (valid_execution event)
      then raise value_error
      else if not s.has_execution_telemetry
      then observe (execution_write skipped_unconfigured none)
      else do t ← now; timed_record event (constrain_timeout d t s.inference.telemetry_timeout)
