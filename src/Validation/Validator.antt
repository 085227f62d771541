-- ===== src/Validation/Validator.antt =====
-- validation/validator.py: `DeterministicResponseValidator`. The parameter is what `json.loads` makes
-- of a text before the hooks see it. Of a list of codes, `none` is an exception that leaves `_check`.
pub mod Consistent
pub mod Passed
pub mod Conditions
pub mod Accepts
use mathlib.Core.Option
use route_llm.Prelude.{
  ℕ, Bool, true, false, not, ◌&&◌, Option, none, some, List, [], ◌∷◌, ◌++◌, map, ltb, take,
  is_empty, length, if◌then◌else◌,
}
use route_llm.Prelude.Text.{Text, strip, member}
use route_llm.Models.{InferenceResponse, TerminationReason, length_limit}
use route_llm.Validation.Contract.{
  ValidationContract, JsonType, ValidationFailureCode, ValidationFailure, ValidationResult,
  ValidationStatus, passed, failed, not_run, error, is_json, is_label, is_validator_error,
  max_input_characters, max_failures, empty_response, minimum_characters, invalid_json,
  root_type_mismatch, missing_field, field_type, label_not_allowed, output_truncated,
  input_size_limit, json_depth_limit, validator_error,
}
use route_llm.Validation.Json.{
  Json, Fields, Parsed, document, rejected, crashed, accepted, matches, get_field, object,
}
use route_llm.Validation.Depth.{too_deep}

abbrev pub Codes : Type 0
Codes = List ValidationFailureCode

abbrev pub when : Bool → ValidationFailureCode → Codes
when b code = if b then code ∷ [] else []

abbrev pub is_truncated : TerminationReason → Bool
is_truncated length_limit = true
is_truncated r = false

abbrev pub too_short : Option ℕ → Text → Bool
too_short none text = false
too_short (some n) text = ltb (length text) n

-- `contract.root_type or ("object" if … else None)`
unfoldable pub effective_root : ValidationContract → Option JsonType
effective_root c = elim c.root_type [
  | some t ↦ some t
  | none ↦
      if is_empty c.required_fields
      then (if is_empty c.field_types then none else some JsonType.object)
      else some JsonType.object
]

pub root_differs : Json → Option JsonType → Bool
root_differs value none = false
root_differs value (some t) = not (matches value t)

abbrev absent : Option Json → Bool
absent none = true
absent (some v) = false

abbrev mismatched : Option Json → JsonType → Bool
mismatched none t = false
mismatched (some v) t = not (matches v t)

pub missing_fields : List Text → Fields → Codes
missing_fields [] fs = []
missing_fields (key ∷ keys) fs =
    when (absent (get_field key fs)) missing_field ++ missing_fields keys fs

pub mistyped_fields : List (Text × JsonType) → Fields → Codes
mistyped_fields [] fs = []
mistyped_fields ((key, expected) ∷ rest) fs =
    when (mismatched (get_field key fs) expected) field_type ++ mistyped_fields rest fs

-- The two loops over the constraints on fields, for an object.
unfoldable pub field_codes : ValidationContract → Json → Codes
unfolding missing_fields mistyped_fields
field_codes c (object fs) = missing_fields c.required_fields fs ++ mistyped_fields c.field_types fs
field_codes c value = []

unfoldable pub value_codes : ValidationContract → Json → Codes
unfolding root_differs effective_root
value_codes c value =
    if root_differs value (effective_root c) then root_type_mismatch ∷ [] else field_codes c value

-- `json.loads` with the hooks, and the handler of its exceptions; `none` is an exception that
-- leaves `_check`.
pub document_codes : ValidationContract → Parsed → Option Codes
document_codes c rejected = some (invalid_json ∷ [])
document_codes c crashed = none
document_codes c (document value) =
    some (if accepted value then value_codes c value else invalid_json ∷ [])

abbrev failure : ValidationFailureCode → ValidationFailure
failure code = record { code = code; recoverable_by_escalation = not (is_validator_error code) }

-- The status and the failures for what `_check` returned, or for the exception that left it.
pub result_of : ℕ → Option Codes → ValidationResult
result_of elapsed none = record {
  status = error;
  failures = map failure (take max_failures (validator_error ∷ []));
  duration_ms = elapsed;
}
result_of elapsed (some codes) = record {
  status = if is_empty codes then passed else failed;
  failures = map failure (take max_failures codes);
  duration_ms = elapsed;
}

module _ (parse : Text → Parsed) where
  pub json_codes : ValidationContract → Text → Text → Option Codes
  unfolding document_codes
  json_codes c raw text =
      if is_json c.format
      then (if too_deep text then some (json_depth_limit ∷ []) else document_codes c (parse raw))
      else some []

  -- What `_check` adds once the size of the raw text is known to be within its limit.
  pub text_codes : ValidationContract → Text → Text → Option Codes
  text_codes c raw text =
      if is_empty text
      then some (empty_response ∷ [])
      else Option.map
          (λ more.
            when (too_short c.min_characters text) minimum_characters
            ++ (when (is_label c.format && not (member text c.allowed_labels)) label_not_allowed
                ++ more))
          (json_codes c raw text)

  -- `_check`
  unfoldable pub check : InferenceResponse → ValidationContract → Option Codes
  unfolding text_codes json_codes
  check response c =
      Option.map (λ more. when (is_truncated response.termination_reason) output_truncated ++ more)
        (if ltb max_input_characters (length response.text)
          then some (input_size_limit ∷ [])
          else text_codes c response.text (strip response.text))

  -- `validate`; `elapsed` is the time that the clock measured. Without a contract nothing is run.
  unfoldable pub validate : ℕ → InferenceResponse → Option ValidationContract → ValidationResult
  unfolding result_of
  validate elapsed response none = record { status = not_run; failures = []; duration_ms = 0 }
  validate elapsed response (some c) = result_of elapsed (check response c)
