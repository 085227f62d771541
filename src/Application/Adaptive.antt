-- ===== src/Application/Adaptive.antt =====
-- application/adaptive.py: `AdaptiveInferenceService`, which routes once and tries up to three models
-- until a response passes its output contract.
pub mod Candidates
pub mod Record
pub mod Run
use route_llm.Prelude.{
  ℕ, ◌+◌, ◌-◌, Bool, true, false, not, ◌&&◌, ◌||◌, Option, none, some, List, [], ◌∷◌, ◌++◌, map,
  select, any, all, take, ltb, leb, ◌==◌, length, is_empty, if◌then◌else◌,
}
use route_llm.Prelude.Int.{pos}
use route_llm.Prelude.Text.{Text, codes, text_eq}
use route_llm.Decimal.{Decimal}
use route_llm.Decimal.Context
use route_llm.Errors.{
  completion_rejected, deadline_exceeded, assertion_error, model_disabled, provider_unavailable,
  response_validation, ok, err, ◌>>=◌,
}
use route_llm.Models.{ModelConfig, InferenceRequest, InferenceResponse, Result, Error}
use route_llm.Deadline.{RequestDeadline, expired}
use route_llm.Registry
use route_llm.Registry.{supports, ModelRegistry, ProviderResolver}
use route_llm.Routing.Policy.{CandidatePrediction, RoutingDecision, by_cost}
use route_llm.Routing.Service.{RoutingCandidateSnapshot, RoutingResult}
use route_llm.Validation.Contract.{
  ValidationContract, ValidationStatus, ValidationResult, ValidationFailureCode, ValidationFailure,
  is_passed, is_failed, not_run,
}

-- telemetry/contracts.py: the validation of one attempt, without its constant version.
pub record ValidationTelemetry : Type 0 where
  pub status : ValidationStatus
  pub failure_codes : List ValidationFailureCode
  pub duration_ms : ℕ

pub record AdaptiveAttempt : Type 0 where
  pub attempt_number : ℕ
  pub model_id : Text
  pub validation : ValidationTelemetry
  pub latency_ms : Option ℕ
  pub estimated_cost_usd : Option Decimal

pub record AdaptiveExecution : Type 0 where
  pub attempts : List AdaptiveAttempt
  pub escalated : Bool
  pub validation_outcome : ValidationStatus
  pub total_estimated_cost_usd : Option Decimal
  pub total_latency_ms : ℕ

pub record AdaptiveInferenceResult : Type 0 where
  pub response : InferenceResponse
  pub routing_decision : RoutingDecision
  pub execution : Option AdaptiveExecution

-- `ValidationTelemetry.from_result`
abbrev pub from_result : ValidationResult → ValidationTelemetry
from_result r = record {
  status = r.status;
  failure_codes = map (λ f. f.code) r.failures;
  duration_ms = r.duration_ms;
}

abbrev decimal_zero : Decimal
decimal_zero = record { coefficient = 0; exponent = pos 0 }

-- `sum` of decimals, from the left and under the default context of 28 digits.
sum_from : Decimal → List Decimal → Decimal
sum_from total [] = total
sum_from total (c ∷ cs) = sum_from (Context.plus 28 total c) cs

abbrev known : List AdaptiveAttempt → List Decimal
known [] = []
known (a ∷ more) = elim a.estimated_cost_usd [ none ↦ known more | some c ↦ c ∷ known more ]

abbrev no_cost : AdaptiveAttempt → Bool
no_cost a = elim a.estimated_cost_usd [ none ↦ true | some c ↦ false ]

-- `_known_cost`
unfoldable pub known_cost : List AdaptiveAttempt → Decimal
unfolding sum_from
known_cost attempts = sum_from decimal_zero (known attempts)

-- `_total_cost`
unfoldable pub total_cost : List AdaptiveAttempt → Option Decimal
unfolding known_cost
total_cost attempts = if any no_cost attempts then none else some (known_cost attempts)

abbrev or_zero : Option ℕ → ℕ
or_zero none = 0
or_zero (some n) = n

abbrev pub total_latency : List AdaptiveAttempt → ℕ
total_latency [] = 0
total_latency (a ∷ more) = or_zero a.latency_ms + total_latency more

-- `_execution`
unfoldable pub execution_of : List AdaptiveAttempt → ValidationStatus → AdaptiveExecution
unfolding total_cost
execution_of attempts outcome = record {
  attempts = attempts;
  escalated = ltb 1 (length attempts);
  validation_outcome = outcome;
  total_estimated_cost_usd = total_cost attempts;
  total_latency_ms = total_latency attempts;
}

-- `sorted`, by the key `(projected_cost_usd, model_id)`; equal keys keep their order.
pub insert_sorted :
    RoutingCandidateSnapshot → List RoutingCandidateSnapshot → List RoutingCandidateSnapshot
insert_sorted c [] = c ∷ []
insert_sorted c (d ∷ ds) =
    let rest = insert_sorted c ds in
    if by_cost c.prediction d.prediction then c ∷ d ∷ ds else d ∷ rest

pub sort_candidates : List RoutingCandidateSnapshot → List RoutingCandidateSnapshot
unfolding insert_sorted
sort_candidates [] = []
sort_candidates (c ∷ cs) = insert_sorted c (sort_candidates cs)

abbrev pub is_alternative : RoutingDecision → RoutingCandidateSnapshot → Bool
is_alternative d c = c.qualifies && not (text_eq c.model_id d.selected_model_id)

-- The models that are tried, in this order.
unfoldable pub candidate_order : ℕ → RoutingResult → List Text
unfolding sort_candidates
candidate_order max_attempts routing =
    let eligible = sort_candidates (select (is_alternative routing.decision) routing.candidates) in
    take max_attempts (
      routing.decision.selected_model_id
      ∷ (if not routing.decision.fallback_used then map (λ c. c.model_id) eligible else []))

-- The failures of a result that another model may not have.
unfoldable pub recoverable : ValidationResult → Bool
recoverable r =
    is_failed r.status
    && not (is_empty r.failures)
    && all (λ f. f.recoverable_by_escalation) r.failures

-- `_resolve_candidates`
unfoldable pub resolve_candidates :
    {P : Type 0} → ModelRegistry → ProviderResolver P → List Text → Result (List ModelConfig)
resolve_candidates registry resolver [] = ok []
resolve_candidates registry resolver (id ∷ ids) = Registry.get id registry >>= λ m.
    if not m.enabled
    then err model_disabled
    else if not (supports m.provider resolver)
    then err provider_unavailable
    else (resolve_candidates registry resolver ids >>= λ ms. ok (m ∷ ms))
