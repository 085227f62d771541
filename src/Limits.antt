-- ===== src/Limits.antt =====
-- api/limits.py: the bounds on a public request.
use route_llm.Prelude.{
  ℕ, ◌+◌, ◌≤◌, ◌≡◌, ◌↔◌, Bool, true, ◌&&◌, Option, none, some, ltb, leb, length, if◌then◌else◌,
  arith,
}
use route_llm.Prelude.Text.{Text}
use route_llm.Errors.{ok, err, request_limit_exceeded}
use route_llm.Models.{Result, InferenceRequest}

pub record RequestLimitSettings : Type 0 where
  pub max_prompt_characters : ℕ
  pub max_output_tokens : ℕ

-- The bounds that the fields declare.
unfoldable pub valid_limits : RequestLimitSettings → Bool
valid_limits s =
    ltb 0 s.max_prompt_characters
    && leb s.max_prompt_characters 100_000
    && ltb 0 s.max_output_tokens
    && leb s.max_output_tokens 8_192

-- `len(request.system_prompt or "")`
abbrev pub option_length : Option Text → ℕ
option_length none = 0
option_length (some t) = length t

-- `RequestLimitSettings.validate_request`
unfoldable pub validate_request : RequestLimitSettings → InferenceRequest → Result (Unit {0})
validate_request s r =
    if ltb s.max_prompt_characters (length r.prompt + option_length r.system_prompt)
    then err request_limit_exceeded
    else if ltb s.max_output_tokens r.max_output_tokens
    then err request_limit_exceeded
    else ok tt

-- With settings within their declared bounds, a request is admitted exactly when both prompts
-- together and the output are within the limits, so at most 100000 characters and 8192 tokens.
pub validate_request_lem :
    (s : RequestLimitSettings) (r : InferenceRequest)
    → valid_limits s ≡ true
    → ((validate_request s r ≡ ok tt) ↔ (
        (length r.prompt + option_length r.system_prompt ≤ s.max_prompt_characters)
        × (r.max_output_tokens ≤ s.max_output_tokens)))
      × (validate_request s r ≡ ok tt → (length r.prompt ≤ 100_000) × (r.max_output_tokens ≤ 8_192))
unfolding validate_request valid_limits
validate_request_lem s r v =
    ((λ h. (ground arith, ground arith), λ h. ground arith), λ h. (ground arith, ground arith))
