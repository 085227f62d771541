-- ===== src/Application/Inference.antt =====
-- application/service.py: `InferenceService`, one inference by one model.
pub mod Outcome
pub mod Service
use route_llm.Prelude.{
  ℕ, ◌-◌, ◌*◌, Bool, true, false, not, ◌&&◌, ◌||◌, Option, none, some, List, [], ◌∷◌, select, leb,
  length, if◌then◌else◌,
}
use route_llm.Prelude.Int.{pos}
use route_llm.Prelude.Text.{Text, codes, text_eq}
use route_llm.Decimal.{Decimal}
use route_llm.Errors.{
  GatewayErrorCategory, gateway, completion_rejected, deadline_exceeded, value_error, type_error,
  timeout_error, cancelled, ok, err, is_classified, is_gateway, is_deadline, is_context_limit,
  is_disabled, is_provider_unavailable, is_provider_failure, provider_failure, model_disabled,
}
use route_llm.Models.{ModelConfig, InferenceRequest, InferenceResponse, Result, Error}
use route_llm.Routing.Threshold.{number, finite}
use route_llm.Deadline.{
  RequestDeadline, new_deadline, remaining_seconds, expired, constrain_timeout,
}
use route_llm.Limits.{option_length}
use route_llm.Registry
use route_llm.Registry.{ModelRegistry, ProviderResolver, supports}
use route_llm.Application.World.{
  Environment, System, Act, Category, of_gateway, AttemptOutcome, success, rejected, TelemetryEvent,
  written, failure, skipped_unconfigured, skipped_deadline, provider_attempt, telemetry_write,
  telemetry_write_failed, Reply, replied, not_a_response, raised, ◌>>=◌, return, raise, attempt,
  observe, ask, lift,
}

-- The service is built over an environment; `has_telemetry` is whether a repository is configured.
-- Both times are in the units of the clocks.
pub record InferenceService (env : Environment) : Type 0 where
  pub registry : ModelRegistry
  pub resolver : ProviderResolver env.Provider
  pub has_telemetry : Bool
  pub telemetry_timeout : ℕ
  pub inference_deadline : ℕ

abbrev pub is_cancelled : Error → Bool
is_cancelled cancelled = true
is_cancelled e = false

-- `exc.completion if isinstance(exc, CompletionRejectedError) else None`
abbrev pub completion_of : Error → Option InferenceResponse
completion_of (completion_rejected c r) = some r
completion_of e = none

-- The category that both handlers give to a classified error: that of a `GatewayError` is its own.
abbrev pub category_of : Error → Category
category_of (gateway c) = of_gateway c
category_of (completion_rejected c r) = of_gateway c
category_of e =
    if is_deadline e
    then Category.inference_deadline_exceeded
    else if is_context_limit e
    then Category.context_limit_exceeded
    else if is_disabled e
    then Category.model_disabled
    else if is_provider_unavailable e
    then Category.provider_unavailable
    else Category.provider_failure

abbrev pub optional : {A B : Type 0} → (A → B) → Option A → Option B
optional f none = none
optional f (some a) = some (f a)

abbrev pub outcome_of : Option InferenceResponse → AttemptOutcome
outcome_of none = AttemptOutcome.error
outcome_of (some r) = rejected

-- The handlers of `self.resolver.resolve(model)`.
abbrev pub resolved : {A : Type 0} → Result A → Result A
resolved (ok p) = ok p
resolved (err e) =
    if is_provider_unavailable e || is_provider_failure e || is_cancelled e
    then err e
    else err provider_failure

module _ {env : Environment} where
  abbrev pub now : Act env ℕ
  now = ask env.monotonic

  abbrev pub counter : Act env ℕ
  counter = ask env.perf_counter

  abbrev check_response : ModelConfig → InferenceResponse → Act env InferenceResponse
  check_response m r =
      if not (text_eq r.model_id m.model_id && text_eq r.provider m.provider)
      then raise value_error
      else return r

  -- What the call of the adapter gave, behind `asyncio.timeout`.
  abbrev pub answered : ModelConfig → RequestDeadline → Reply → Act env InferenceResponse
  answered m d (replied r) = check_response m r
  answered m d not_a_response = raise type_error
  answered m d (raised timeout_error) = do
    t ← now
    raise (if expired d t then deadline_exceeded else timeout_error)
  answered m d (raised e) = raise e

  -- The body of the `try` around the adapter.
  abbrev pub exchange :
      ModelConfig → InferenceRequest → RequestDeadline → env.Provider → Act env InferenceResponse
  exchange m r d p = do
    t ← now
    if leb (remaining_seconds d t) 0
        then raise deadline_exceeded
        else (ask (env.call p r (remaining_seconds d t)) >>= answered m d)

  module _ (m : ModelConfig) (request_id request_mode : Text) where
    abbrev observe_attempt : ℕ → AttemptOutcome → Category → Option Decimal → Act env (Unit {0})
    observe_attempt started outcome category cost = do
      later ← counter
      observe (
          provider_attempt m.provider m.model_id outcome category (later - started) request_mode
            cost request_id)

    -- The handlers of the `try`, and what follows it.
    abbrev pub finish : ℕ → Result InferenceResponse → Act env InferenceResponse
    finish started (ok r) = do
      _ ← observe_attempt started success Category.none (some r.estimated_cost_usd)
      return r
    finish started (err e) =
        if is_cancelled e
        then (observe_attempt started AttemptOutcome.cancelled Category.cancelled none >>= λ u.
            raise e)
        else if is_classified e
        then (observe_attempt started (outcome_of (completion_of e)) (category_of e)
              (optional (λ c. c.estimated_cost_usd) (completion_of e))
            >>= λ u. raise e)
        else (observe_attempt started AttemptOutcome.error Category.provider_failure none >>= λ u.
            raise provider_failure)

  -- `_generate`, from whether the model is enabled and the adapter that the resolver has for it.
  abbrev pub attempted :
      ModelConfig
      → InferenceRequest
      → RequestDeadline
      → Text
      → Text
      → Bool
      → Result env.Provider
      → Act env InferenceResponse
  attempted m r d request_id request_mode false adapter = raise model_disabled
  attempted m r d request_id request_mode true adapter = do
    provider ← lift adapter
    started ← counter
    result ← attempt (exchange m r d provider)
    finish m request_id request_mode started result

  module _ (s : InferenceService env) where
    -- `_generate`
    unfoldable pub generate_once :
        ModelConfig → InferenceRequest → RequestDeadline → Text → Text → Act env InferenceResponse
    generate_once m r d request_id request_mode =
        attempted m r d request_id request_mode m.enabled (resolved (Registry.resolve m s.resolver))
