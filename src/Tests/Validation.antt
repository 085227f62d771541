-- ===== src/Tests/Validation.antt =====
-- The validator at a concrete contract and response. The parser knows one document.
use route_llm.Prelude.{◌≡◌, ◌↔◌, inl, refl, true, false, none, some, [], ◌∷◌, if◌then◌else◌}
use route_llm.Prelude.Text.{Text, codes, strip, text_eq}
use route_llm.Models.{InferenceResponse}
use route_llm.Validation.Contract.{
  ValidationContract, JsonType, passed, compatible_constraints, consistent_status, json,
}
use route_llm.Validation.Json.{
  Fields, Parsed, pairs, get_field, document, rejected, object, string, field, end, accepted,
  matches,
}
use route_llm.Validation.Depth.{too_deep}
use route_llm.Validation.Depth.Nesting.{IsShallow, too_deep-IsShallow}
use route_llm.Validation.Validator.{check, validate, value_codes, field_codes}
use route_llm.Validation.Validator.Consistent.{validate-consistent}
use route_llm.Validation.Validator.Passed.{HasFields}
use route_llm.Validation.Validator.Accepts.{IsAcceptable, validate-passed_iff, passed-HasFields}
use route_llm.Tests.Sample.{reply}

abbrev answer : Fields
answer = field (codes "a") (string (codes "x")) end

abbrev parse : Text → Parsed
parse t = if text_eq t (codes "{\"a\":\"x\"}") then document (object answer) else rejected

abbrev contract : ValidationContract
contract = record {
  format = json;
  min_characters = some 4;
  root_type = none;
  required_fields = codes "a" ∷ [];
  field_types = (codes "a", JsonType.string) ∷ [];
  allowed_labels = [];
}

abbrev response : InferenceResponse
response = reply (codes "{\"a\":\"x\"}")

validate-consistent_example : consistent_status (validate parse 7 response (some contract)) ≡ true
validate-consistent_example = validate-consistent parse 7 response (some contract)

validate-passed_iff_example :
    ((validate parse 7 response (some contract)).status ≡ passed)
    ↔ IsAcceptable parse response contract
validate-passed_iff_example = validate-passed_iff parse contract 7 response

compatible : compatible_constraints contract ≡ true
unfolding compatible_constraints text_eq
compatible = refl

passes : (validate parse 7 response (some contract)).status ≡ passed
unfolding validate check value_codes field_codes too_deep strip accepted pairs matches get_field
    text_eq
passes = refl

passed-HasFields_example :
    (fs : Fields) × (parse response.text ≡ document (object fs)) × HasFields contract fs
passed-HasFields_example =
    passed-HasFields parse contract 7 response compatible (inl (codes "a", inl refl)) passes

-- A bracket within a string does not count.
too_deep-IsShallow_example : (too_deep (codes "[\"[[\"]") ≡ false) ↔ IsShallow (codes "[\"[[\"]")
too_deep-IsShallow_example = too_deep-IsShallow (codes "[\"[[\"]")
