-- ===== src/Models.antt =====
-- models/schemas.py: the immutable configuration and inference data, and their validators.
use route_llm.Prelude.{
  ℕ, ◌+◌, Bool, true, false, not, ◌&&◌, ◌||◌, Option, none, some, List, [], ◌∷◌, map, ltb, leb,
  ◌==◌, if◌then◌else◌, select, length, is_empty,
}
use route_llm.Prelude.Text.{Text, text_eq, strip, all_distinct, codes}
use route_llm.Decimal.{Decimal}
use route_llm.Errors

pub data ReasoningBehavior : Type 0 where
  unsupported provider_default adaptive : ReasoningBehavior

pub data ReasoningEffort : Type 0 where
  no_effort minimal low medium high xhigh : ReasoningEffort

pub data ReasoningControlMechanism : Type 0 where
  gateway_shared google_provider_native : ReasoningControlMechanism

pub data OutputTokenAccounting : Type 0 where
  visible_only reasoning_and_visible : OutputTokenAccounting

pub data TerminationReason : Type 0 where
  complete length_limit tool_call content_filter other unknown : TerminationReason

pub record ModelCapabilities : Type 0 where
  pub supports_temperature : Bool
  pub supports_structured_output : Bool
  pub reasoning : ReasoningBehavior
  pub output_token_accounting : OutputTokenAccounting

pub record CategoryOutputTokenAllowance : Type 0 where
  pub category : Text
  pub max_output_tokens : ℕ

pub record OutputTokenPolicy : Type 0 where
  pub category_overrides : List CategoryOutputTokenAllowance
  pub reasoning_headroom_tokens : ℕ
  pub expected_reasoning_tokens : ℕ

pub record ModelConfig : Type 0 where
  pub model_id : Text
  pub provider : Text
  pub provider_model_name : Text
  pub input_cost_per_1m_tokens : Decimal
  pub output_cost_per_1m_tokens : Decimal
  pub context_window : ℕ
  pub enabled : Bool
  pub capabilities : ModelCapabilities
  pub reasoning_effort : Option ReasoningEffort
  pub reasoning_control : ReasoningControlMechanism
  pub output_token_policy : OutputTokenPolicy

-- The temperature is a float that no modelled code computes with; it stays a number of units.
pub record InferenceRequest : Type 0 where
  pub prompt : Text
  pub system_prompt : Option Text
  pub max_output_tokens : ℕ
  pub temperature : ℕ

-- `latency_ms` counts a fixed fraction of a millisecond.
pub record InferenceResponse : Type 0 where
  pub text : Text
  pub model_id : Text
  pub provider : Text
  pub input_tokens : ℕ
  pub output_tokens : ℕ
  pub latency_ms : ℕ
  pub estimated_cost_usd : Decimal
  pub termination_reason : TerminationReason
  pub provider_termination_reason : Option Text

abbrev pub Error : Type 0
Error = Errors.Error InferenceResponse

abbrev pub Result : Type 0 → Type 0
Result = Errors.Result Error

-- `OutputTokenPolicy`: the declared bounds and `category_overrides_are_unique`.
unfoldable pub valid_output_policy : OutputTokenPolicy → Bool
valid_output_policy p =
    leb p.reasoning_headroom_tokens 1024
    && leb p.expected_reasoning_tokens 1024
    && all_distinct (map (λ item. item.category) p.category_overrides)
    && leb p.expected_reasoning_tokens p.reasoning_headroom_tokens

abbrev is_unsupported : ReasoningBehavior → Bool
is_unsupported unsupported = true
is_unsupported b = false

abbrev is_some {ℓ} : {A : Type ℓ} → Option A → Bool
is_some none = false
is_some (some a) = true

abbrev pub is_effective : Option ReasoningEffort → Bool
is_effective none = false
is_effective (some no_effort) = false
is_effective (some e) = true

abbrev pub is_native : ReasoningControlMechanism → Bool
is_native google_provider_native = true
is_native gateway_shared = false

abbrev is_visible_only : OutputTokenAccounting → Bool
is_visible_only visible_only = true
is_visible_only reasoning_and_visible = false

-- `s.startswith(p)`
unfoldable pub starts_with : Text → Text → Bool
starts_with s [] = true
starts_with [] (c ∷ p) = false
starts_with (a ∷ s) (c ∷ p) = a == c && starts_with s p

-- `ModelConfig.reject_unsupported_reasoning_effort`
unfoldable pub valid_model : ModelConfig → Bool
valid_model m =
    not (is_some m.reasoning_effort && is_unsupported m.capabilities.reasoning)
    && (not (is_native m.reasoning_control)
        || (starts_with m.provider_model_name (codes "google/") && is_effective m.reasoning_effort))
    && not (
        is_visible_only m.capabilities.output_token_accounting
        && ltb 0 m.output_token_policy.reasoning_headroom_tokens)

abbrev overrides_for : ModelConfig → Text → List CategoryOutputTokenAllowance
overrides_for m category =
    select (λ item. text_eq item.category category) m.output_token_policy.category_overrides

abbrev visible_or : ℕ → List CategoryOutputTokenAllowance → ℕ
visible_or visible [] = visible
visible_or visible (item ∷ rest) = item.max_output_tokens

-- `ModelConfig.provider_output_allowance`
unfoldable pub provider_output_allowance : ModelConfig → ℕ → Text → Result ℕ
provider_output_allowance m visible category =
    if visible == 0
    then Errors.err Errors.value_error
    else if ltb 1 (length (overrides_for m category))
    then Errors.err Errors.value_error
    else Errors.ok (
        if is_visible_only m.capabilities.output_token_accounting
        then visible_or visible (overrides_for m category)
        else visible_or visible (overrides_for m category)
          + m.output_token_policy.reasoning_headroom_tokens)

-- `InferenceRequest.reject_blank_text`, and the minimum length of the prompt
abbrev pub blank : Text → Bool
blank t = is_empty (strip t)

abbrev pub blank_option : Option Text → Bool
blank_option none = false
blank_option (some t) = blank t

unfoldable pub valid_request : InferenceRequest → Bool
valid_request r =
    not (blank r.prompt) && not (blank_option r.system_prompt) && ltb 0 r.max_output_tokens
