-- ===== src/Errors.antt =====
-- errors.py, with the other exceptions that leave the modelled functions. An exception is a value
-- of `Error`; `isinstance` against a class of the hierarchy is a test.
use route_llm.Prelude.{ℕ, ◌≡◌, refl, ◌⊎◌, inl, inr, Bool, true, false, ◌||◌}

pub data GatewayErrorCategory : Type 0 where
  not_configured authentication invalid_model invalid_request context_limit : GatewayErrorCategory
  rate_limit timeout upstream malformed_response missing_usage : GatewayErrorCategory
  empty_response output_budget_exhaustion : GatewayErrorCategory

pub data Scope : Type 0 where
  client global both : Scope

-- `A` is the completion that a `CompletionRejectedError` carries. `GatewayError` is a subclass of
-- `ProviderFailureError`, and `CompletionRejectedError` of `GatewayError`.
pub data Error {ℓ} (A : Type ℓ) : Type ℓ where
  model_disabled context_limit_exceeded provider_unavailable provider_failure : Error A
  adaptive_routing_unavailable deadline_exceeded rate_limit_unavailable : Error A
  rate_limit_exceeded : ℕ → Scope → Error A
  gateway : GatewayErrorCategory → Error A
  completion_rejected : GatewayErrorCategory → A → Error A
  response_validation no_eligible_candidates invalid_quality_threshold : Error A
  duplicate_candidate_prediction request_limit_exceeded : Error A
  predictor_input_compatibility missing_routing_category unsupported_candidate : Error A
  model_not_found duplicate_model predictor_artifact : Error A
  telemetry_unavailable invalid_activity_cursor : Error A
  evaluation_not_found evaluation_artifact : Error A
  -- exceptions of the language
  value_error type_error overflow_error assertion_error timeout_error cancelled other : Error A

pub data Result {ℓ} (E A : Type ℓ) : Type ℓ where
  ok : A → Result E A
  err : E → Result E A

infixl 5 ◌>>=◌
abbrev pub ◌>>=◌ {ℓ} : {E A B : Type ℓ} → Result E A → (A → Result E B) → Result E B
ok a >>= f = f a
err e >>= f = err e

module _ {ℓ} {A : Type ℓ} where
  abbrev pub is_gateway : Error A → Bool
  is_gateway (gateway c) = true
  is_gateway (completion_rejected c a) = true
  is_gateway _ = false

  abbrev pub is_provider_failure : Error A → Bool
  is_provider_failure provider_failure = true
  is_provider_failure e = is_gateway e

  abbrev pub is_provider_unavailable : Error A → Bool
  is_provider_unavailable provider_unavailable = true
  is_provider_unavailable e = false

  abbrev pub is_deadline : Error A → Bool
  is_deadline deadline_exceeded = true
  is_deadline e = false

  abbrev pub is_context_limit : Error A → Bool
  is_context_limit context_limit_exceeded = true
  is_context_limit e = false

  abbrev pub is_disabled : Error A → Bool
  is_disabled model_disabled = true
  is_disabled e = false

  abbrev pub is_response_validation : Error A → Bool
  is_response_validation response_validation = true
  is_response_validation e = false

  -- The classes that `InferenceService` reports by their own category.
  abbrev pub is_classified : Error A → Bool
  is_classified e =
      is_context_limit e
      || is_deadline e
      || is_disabled e
      || is_provider_unavailable e
      || is_provider_failure e

module _ {ℓ} {E A : Type ℓ} where
  pub Result-cases : (r : Result E A) → ((a : A) × (r ≡ ok a)) ⊎ ((e : E) × (r ≡ err e))
  Result-cases (ok a) = inl (a, refl)
  Result-cases (err e) = inr (e, refl)

  pub ok-injective : {a b : A} → ◌≡◌ {A = Result E A} (ok a) (ok b) → a ≡ b
  ok-injective h = cc

  pub err-injective : {a b : E} → ◌≡◌ {A = Result E A} (err a) (err b) → a ≡ b
  err-injective h = cc

-- Inversion of a chain that succeeds.
pub >>=-ok {ℓ} :
    {E A B : Type ℓ} (m : Result E A) (f : A → Result E B) {b : B}
    → (m >>= f) ≡ ok b
    → (a : A) × (m ≡ ok a) × (f a ≡ ok b)
>>=-ok (ok a) f h = (a, refl, h)
>>=-ok (err e) f h = cc
