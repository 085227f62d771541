-- ===== src/Api/Routes.antt =====
-- api/routes.py, api/schemas.py and api/dependencies.py: the three handlers that run inference, as
-- actions of a payload that its schema accepted, of the peer and of the request's identifier.
pub mod Served
pub mod Validated
use route_llm.Prelude.{
  ℕ, Bool, true, false, not, ◌&&◌, ◌||◌, Option, none, some, List, [], ◌∷◌, map, leb, ◌==◌, length,
  if◌then◌else◌,
}
use route_llm.Prelude.Int.{pos}
use route_llm.Prelude.Text.{Text, codes}
use route_llm.Decimal.{Decimal}
use route_llm.Errors.{adaptive_routing_unavailable, invalid_quality_threshold, ok, err}
use route_llm.Models.{ModelConfig, InferenceRequest, InferenceResponse, Result, valid_request}
use route_llm.Deadline.{RequestDeadline}
use route_llm.Limits.{RequestLimitSettings, validate_request}
use route_llm.Routing.Threshold.{Value, number, finite}
use route_llm.Routing.Features.{RoutingCategory, category}
use route_llm.Routing.Policy.{RoutingDecision, RoutingDecisionReason}
use route_llm.Validation.Contract.{ValidationContract}
use route_llm.Application.World.{Environment, Act, ◌>>=◌, return, raise, lift}
use route_llm.Application.Activity.{ChatExecutionMode}
use route_llm.Application.Inference.{InferenceService}
use route_llm.Application.Inference.Service.{generate, deadline_or_new}
use route_llm.Application.Adaptive.{AdaptiveExecution, AdaptiveInferenceResult}
use route_llm.Application.Adaptive.Run.{generate_adaptive}
use route_llm.Application.Chat.{
  ChatRoutingMode, auto, manual, ChatOrchestrationResult, ChatOrchestrationService, AdaptiveRuntime,
  chat,
}
use route_llm.RateLimit.Settings.{InferenceKind, explicit, adaptive}
use route_llm.Api.Schemas.{
  InferencePayload, AdaptiveInferencePayload, ChatPayload, PublicResponse, PublicResult,
  public_response, public_adaptive, public_chat,
}

-- `app.state`; the rate limiter is the interface of rate_limit.py.
pub record Application (env : Environment) : Type 0 where
  pub inference_service : InferenceService env
  pub adaptive_runtime : Option (AdaptiveRuntime env)
  pub adaptive_required : Bool
  pub chat_service : Option (ChatOrchestrationService env)
  pub admit : Text → InferenceKind → RequestDeadline → Act env (Unit {0})
  pub limiter_ready : Act env Bool
  pub request_limits : RequestLimitSettings
  pub initialized : Bool

-- `payload.quality_threshold != approved_threshold`
abbrev pub unapproved : Option ℕ → Value → Bool
unapproved none approved = false
unapproved (some q) (number (finite (pos n))) = not (q == n)
unapproved (some q) approved = true

abbrev pub or_unavailable : {A : Type 0} → Option A → Result A
or_unavailable none = err adaptive_routing_unavailable
or_unavailable (some a) = ok a

abbrev pub kind_of : ChatRoutingMode → InferenceKind
kind_of auto = explicit
kind_of manual = adaptive

module _ {env : Environment} (a : Application env) (peer id : Text) where
  -- The deadline and the admission, which every handler asks for before it runs `body`.
  abbrev pub guarded : {A : Type 0} → InferenceKind → (RequestDeadline → Act env A) → Act env A
  guarded kind body = do
    d ← deadline_or_new a.inference_service none
    _ ← a.admit peer kind d
    body d

  -- `inference`
  unfoldable pub inference : InferencePayload → Act env PublicResponse
  inference p = do
    _ ← lift (validate_request a.request_limits p.request)
    guarded explicit (λ d. do
      result ←
          generate a.inference_service p.model_id p.request (some id) (some d) (codes "explicit")
      return (public_response id result))

  -- `adaptive_inference`, behind its dependency on a runtime.
  unfoldable pub adaptive_inference : AdaptiveInferencePayload → Act env PublicResult
  adaptive_inference p = do
    runtime ← lift (or_unavailable a.adaptive_runtime)
    _ ← lift (validate_request a.request_limits p.request)
    if unapproved p.quality_threshold runtime.approved_quality_threshold
        then raise invalid_quality_threshold
        else (guarded adaptive (λ d. do
          result ←
              generate_adaptive runtime.service p.request (category p.category)
                runtime.approved_quality_threshold runtime.candidate_model_ids p.validation false
                (some id) (some d)
          lift (public_adaptive id result)))

  -- `chat_inference`, behind its dependency on the chat.
  unfoldable pub chat_inference : ChatPayload → Act env PublicResult
  chat_inference p = do
    service ← lift (or_unavailable a.chat_service)
    _ ← lift (validate_request a.request_limits p.request)
    guarded (kind_of p.routing_mode) (λ d. do
      result ← chat service p.request p.routing_mode p.category p.validation id d
      lift (public_chat id result))
