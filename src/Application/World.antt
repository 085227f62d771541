-- ===== src/Application/World.antt =====
-- What the services of application/ work on: the world outside (clocks, adapters, the telemetry
-- repository), which is a parameter, and the observations that they emit, in order. An action may
-- raise; what it did to both before remains.
use route_llm.Prelude.{ℕ, Bool, true, ◌&&◌, Option, List, [], ◌∷◌, ◌++◌, leb, length}
use route_llm.Prelude.Text.{Text}
use route_llm.Decimal.{Decimal}
use route_llm.Errors.{GatewayErrorCategory, ok, err}
use route_llm.Validation.Contract.{ValidationStatus, ValidationFailureCode, max_failures}
use route_llm.Routing.Policy.{RoutingDecisionReason}
use route_llm.Models.{InferenceRequest, InferenceResponse, Result, Error}
use route_llm.Application.Activity.{ChatActivityRecord}

-- The categories of an error: those of a `GatewayError`, and the literals of the services.
pub data Category : Type 0 where
  of_gateway : GatewayErrorCategory → Category
  context_limit_exceeded model_disabled provider_unavailable provider_failure : Category
  inference_deadline_exceeded cancelled none : Category

-- telemetry/contracts.py; the identifier and the time of the event are left out. A latency is in
-- the units of `InferenceResponse.latency_ms`.
pub record TelemetryEvent : Type 0 where
  pub request_id : Text
  pub model_id : Text
  pub provider : Text
  pub success : Bool
  pub latency_ms : ℕ
  pub max_output_tokens : ℕ
  pub temperature : ℕ
  pub prompt_characters : ℕ
  pub system_prompt_characters : ℕ
  pub input_tokens : Option ℕ
  pub output_tokens : Option ℕ
  pub estimated_cost_usd : Option Decimal
  pub error_category : Option Category

pub data AdaptiveTerminalOutcome : Type 0 where
  returned validation_failed provider_failed deadline_passed : AdaptiveTerminalOutcome

-- The time of the event and the constant version of the validator are left out.
pub record AdaptiveExecutionTelemetry : Type 0 where
  pub id : Text
  pub request_id : Text
  pub initial_routed_model_id : Text
  pub returned_model_id : Option Text
  pub attempt_count : ℕ
  pub escalated : Bool
  pub validation_outcome : ValidationStatus
  pub terminal_outcome : AdaptiveTerminalOutcome
  pub cumulative_known_cost_usd : Decimal
  pub cost_complete : Bool
  pub cumulative_latency_ms : ℕ
  pub validation_duration_ms : ℕ
  pub failure_codes : List ValidationFailureCode

abbrev present : Option Text → Bool
present Option.none = true
present (Option.some t) = leb 1 (length t)

-- The bounds that the fields declare; the constructor raises where they do not hold.
unfoldable pub valid_execution : AdaptiveExecutionTelemetry → Bool
valid_execution t =
    leb 1 (length t.request_id)
    && leb (length t.request_id) 128
    && leb 1 (length t.initial_routed_model_id)
    && present t.returned_model_id
    && leb 1 t.attempt_count
    && leb t.attempt_count 3
    && leb (length t.failure_codes) max_failures

pub data AttemptOutcome : Type 0 where
  success rejected error cancelled : AttemptOutcome

pub data WriteOutcome : Type 0 where
  written failure skipped_unconfigured skipped_deadline : WriteOutcome

-- The calls of observability.py.
pub data Observation : Type 0 where
  provider_attempt :
      (provider model : Text) (outcome : AttemptOutcome) (category : Category) (duration : ℕ)
      (request_mode : Text) (cost : Option Decimal) (request_id : Text)
      → Observation
  telemetry_write : (outcome : WriteOutcome) (duration : Option ℕ) → Observation
  telemetry_write_failed : (request_id : Text) (latency : ℕ) → Observation
  -- the same for the record of an adaptive execution
  execution_write : (outcome : WriteOutcome) (duration : Option ℕ) → Observation
  execution_write_failed : (request_id : Text) (latency : ℕ) → Observation
  -- the same for the activity of a chat
  activity_write : (outcome : WriteOutcome) (duration : Option ℕ) → Observation
  activity_write_failed : (request_id : Text) (latency : ℕ) → Observation
  routing_decision : (selected : Text) (reason : RoutingDecisionReason) → Observation
  validation_failure : (model : Text) (code : ValidationFailureCode) (number : ℕ) → Observation
  adaptive_request :
      (outcome : AdaptiveTerminalOutcome) (escalated recovered : Bool) (attempts : ℕ)
      (request_id : Text) (status : ValidationStatus)
      → Observation
  http_started : (route : Text) → Observation
  http_finished : (route method status_class outcome : Text) (duration : ℕ) → Observation
  http_event :
      (is_cancelled : Bool) (request_id route method : Text) (status : ℕ) (outcome : Text)
      (latency : ℕ)
      → Observation
  dependency_degraded : (dependency : Text) → Observation

-- What an adapter does with a request: a response, some other object, or an exception.
pub data Reply : Type 0 where
  replied : InferenceResponse → Reply
  not_a_response : Reply
  raised : Error → Reply

-- The world: the two clocks, `uuid4`, the adapters and the telemetry repository. A call of an adapter
-- goes to the one of its two methods that it has.
pub record Environment : Type 1 where
  pub State : Type 0
  pub Provider : Type 0
  pub monotonic : State → State × ℕ
  pub perf_counter : State → State × ℕ
  pub uuid : State → State × Text
  pub call : Provider → InferenceRequest → ℕ → State → State × Reply
  pub store : TelemetryEvent → State → State × Result (Unit {0})
  pub store_execution : AdaptiveExecutionTelemetry → State → State × Result (Unit {0})
  pub store_activity : ChatActivityRecord → State → State × Result (Unit {0})

module _ (env : Environment) where
  pub record System : Type 0 where
    pub world : env.State
    pub log : List Observation

  -- An action of a service.
  abbrev pub Act : Type 0 → Type 0
  Act A = System → Result A × System

module _ {env : Environment} where
  abbrev pub after :
      {A B : Type 0} → (A → Act env B) → Result A × System env → Result B × System env
  after f (ok a, s) = f a s
  after f (err e, s) = (err e, s)

  infixl 5 ◌>>=◌
  abbrev pub ◌>>=◌ : {A B : Type 0} → Act env A → (A → Act env B) → Act env B
  (m >>= f) s = after f (m s)

  abbrev pub return : {A : Type 0} → A → Act env A
  return a s = (ok a, s)

  abbrev pub raise : {A : Type 0} → Error → Act env A
  raise e s = (err e, s)

  -- The result of an action as a value, for its handler.
  abbrev pub attempt : {A : Type 0} → Act env A → Act env (Result A)
  attempt m s = (ok (m s).0, (m s).1)

  abbrev pub observe : Observation → Act env (Unit {0})
  observe o s = (ok tt, record { world = s.world; log = s.log ++ o ∷ [] })

  -- A question to the world.
  abbrev pub ask : {A : Type 0} → (env.State → env.State × A) → Act env A
  ask f s = (ok (f s.world).1, record { world = (f s.world).0; log = s.log })

  abbrev pub lift : {A : Type 0} → Result A → Act env A
  lift r s = (r, s)
