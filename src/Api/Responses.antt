-- ===== src/Api/Responses.antt =====
-- api/app.py: the response that an exception becomes.
use route_llm.Prelude.{ℕ, ◌≤◌, ◌≡◌, ◌↔◌, refl, ◌⊎◌, inl, inr, true, Option, none, some, arith}
use route_llm.Prelude.Text.{Text, codes}
use route_llm.Errors.{
  gateway, completion_rejected, deadline_exceeded, rate_limit_exceeded, rate_limit_unavailable,
  response_validation, adaptive_routing_unavailable, predictor_artifact, unsupported_candidate,
  no_eligible_candidates, invalid_quality_threshold, request_limit_exceeded,
  invalid_activity_cursor, missing_routing_category, evaluation_not_found, evaluation_artifact,
  telemetry_unavailable, model_not_found, model_disabled, context_limit_exceeded,
  provider_unavailable, provider_failure, cancelled, GatewayErrorCategory, not_configured,
  authentication, invalid_model, invalid_request, context_limit, rate_limit, timeout, upstream,
  malformed_response, missing_usage, empty_response, output_budget_exhaustion, is_classified, Scope,
}
use route_llm.Models.{Error}

-- The message of a response is a constant of its code.
pub record ErrorResponse : Type 0 where
  pub status : ℕ
  pub code : Text
  pub retry_after : Option ℕ

abbrev plain : ℕ → Text → Option ErrorResponse
plain status code = some (record { status = status; code = code; retry_after = none })

-- `GatewayErrorCategory.value`
abbrev pub category_value : GatewayErrorCategory → Text
category_value not_configured = codes "gateway_not_configured"
category_value authentication = codes "gateway_authentication"
category_value invalid_model = codes "gateway_invalid_model"
category_value invalid_request = codes "gateway_invalid_request"
category_value context_limit = codes "context_limit_exceeded"
category_value rate_limit = codes "gateway_rate_limit"
category_value timeout = codes "gateway_timeout"
category_value upstream = codes "gateway_upstream"
category_value malformed_response = codes "gateway_malformed_response"
category_value missing_usage = codes "gateway_missing_usage"
category_value empty_response = codes "gateway_empty_response"
category_value output_budget_exhaustion = codes "output_budget_exhaustion"

abbrev gateway_status : GatewayErrorCategory → ℕ
gateway_status not_configured = 503
gateway_status rate_limit = 429
gateway_status timeout = 504
gateway_status context_limit = 422
gateway_status invalid_request = 422
gateway_status c = 502

-- `application_error` for the classes of `_ERRORS`, and `unexpected_error` for the others. A
-- cancellation is no `Exception`: nothing answers it.
unfoldable pub application_error : Error → Option ErrorResponse
application_error (gateway c) = plain (gateway_status c) (category_value c)
application_error (completion_rejected c x) = plain (gateway_status c) (category_value c)
application_error deadline_exceeded = plain 504 (codes "inference_deadline_exceeded")
application_error (rate_limit_exceeded seconds scope) =
    some (record { status = 429; code = codes "rate_limit_exceeded"; retry_after = some seconds })
application_error rate_limit_unavailable = plain 503 (codes "rate_limit_unavailable")
application_error response_validation = plain 502 (codes "response_validation_failed")
application_error adaptive_routing_unavailable = plain 503 (codes "adaptive_routing_unavailable")
application_error predictor_artifact = plain 503 (codes "adaptive_routing_unavailable")
application_error unsupported_candidate = plain 503 (codes "adaptive_routing_unavailable")
application_error no_eligible_candidates = plain 503 (codes "adaptive_routing_unavailable")
application_error invalid_quality_threshold = plain 422 (codes "invalid_adaptive_request")
application_error request_limit_exceeded = plain 422 (codes "invalid_request")
application_error invalid_activity_cursor = plain 422 (codes "invalid_activity_cursor")
application_error missing_routing_category = plain 422 (codes "invalid_adaptive_request")
application_error evaluation_not_found = plain 404 (codes "evaluation_not_found")
application_error evaluation_artifact = plain 422 (codes "evaluation_artifact_invalid")
application_error telemetry_unavailable = plain 503 (codes "telemetry_unavailable")
application_error model_not_found = plain 404 (codes "model_not_found")
application_error model_disabled = plain 403 (codes "model_disabled")
application_error context_limit_exceeded = plain 422 (codes "context_limit_exceeded")
application_error provider_unavailable = plain 503 (codes "provider_unavailable")
application_error provider_failure = plain 502 (codes "provider_failure")
application_error cancelled = none
application_error e = plain 500 (codes "internal_error")

-- A response fits its exception: its status is of the client's or of the server's side and not that
-- of an internal error if the inference service reports the class of the exception, and it says when
-- to try again exactly for a refusal of the rate limit.
pub record Fits (e : Error) (r : ErrorResponse) : Type 0 where
  pub lower : 400 ≤ r.status
  pub upper : r.status ≤ 504
  pub reported : is_classified e ≡ true → ¬ (r.status ≡ 500)
  pub delayed :
      (seconds : ℕ)
      → (r.retry_after ≡ some seconds) ↔ ((scope : Scope) × (e ≡ rate_limit_exceeded seconds scope))

-- The exception is a cancellation, or a response answers it.
abbrev pub IsAnswered : Error → Option ErrorResponse → Type 0
IsAnswered e o = ((e ≡ cancelled) × (o ≡ none)) ⊎ ((r : ErrorResponse) × (o ≡ some r) × Fits e r)

plain-IsAnswered :
    (e : Error) (status : ℕ) (code : Text)
    → 400 ≤ status
    → status ≤ 504
    → (is_classified e ≡ true → ¬ (status ≡ 500))
    → ((seconds : ℕ) (scope : Scope) → ¬ (e ≡ rate_limit_exceeded seconds scope))
    → IsAnswered e (plain status code)
plain-IsAnswered e status code a b c d = inr (
  _,
  refl,
  record {
    lower = a;
    upper = b;
    reported = c;
    delayed = λ seconds. (λ h. cc, λ (scope, h). absurd (d seconds scope h));
  },
)

gateway_status-bounds :
    (c : GatewayErrorCategory)
    → (400 ≤ gateway_status c) × (gateway_status c ≤ 504) × ¬ (gateway_status c ≡ 500)
gateway_status-bounds not_configured = (omega arith, omega arith, omega arith)
gateway_status-bounds rate_limit = (omega arith, omega arith, omega arith)
gateway_status-bounds timeout = (omega arith, omega arith, omega arith)
gateway_status-bounds context_limit = (omega arith, omega arith, omega arith)
gateway_status-bounds invalid_request = (omega arith, omega arith, omega arith)
gateway_status-bounds c = (omega arith, omega arith, omega arith)

gateway-IsAnswered :
    (e : Error) (c : GatewayErrorCategory)
    → ((seconds : ℕ) (scope : Scope) → ¬ (e ≡ rate_limit_exceeded seconds scope))
    → IsAnswered e (plain (gateway_status c) (category_value c))
gateway-IsAnswered e c d =
    let (a, b, n) = gateway_status-bounds c in
    plain-IsAnswered e (gateway_status c) (category_value c) a b (λ h. n) d

-- Every exception but a cancellation is answered, with a status from 400 to 504 and a delay exactly
-- for a refusal by the rate limit, which is the delay it carries. An exception of a class that the
-- inference service reports is never answered as an internal error.
pub application_error-IsAnswered : (e : Error) → IsAnswered e (application_error e)
unfolding application_error
application_error-IsAnswered (gateway c) = gateway-IsAnswered _ c (λ seconds scope h. cc)
application_error-IsAnswered (completion_rejected c x) =
    gateway-IsAnswered _ c (λ seconds scope h. cc)
application_error-IsAnswered (rate_limit_exceeded seconds scope) = inr (
  _,
  refl,
  record {
    lower = omega arith;
    upper = omega arith;
    reported = λ h. cc;
    delayed = λ n. (λ h. (scope, cc), λ (other, h). cc);
  },
)
application_error-IsAnswered cancelled = inl (refl, refl)
application_error-IsAnswered e =
    plain-IsAnswered _ _ _ (omega arith) (omega arith) (λ h. ground arith) (λ seconds scope h. cc)
