-- ===== src/Validation/Validator/Consistent.antt =====
-- Every result that `validate` builds meets the validators of `ValidationResult`.
use mathlib.Core.Option
use route_llm.Prelude.{
  ℕ, suc, ◌≡◌, refl, inl, inr, Bool, true, false, Option, none, some, List, [], ◌∷◌, ◌++◌, map,
  take, length, any, is_empty, ltb, subst, arith, All, All-append, All-take, length-take-le,
  Bool-cases, ap,
}
use route_llm.Prelude.Text.{Text, strip}
use route_llm.Models.{InferenceResponse}
use route_llm.Validation.Contract.{
  ValidationContract, ValidationFailureCode, JsonType, consistent_status, max_failures,
  is_validator_error, missing_field, field_type, output_truncated, minimum_characters,
  label_not_allowed, is_json, max_input_characters,
}
use route_llm.Validation.Json.{Json, Fields, Parsed, document, rejected, crashed, object, accepted}
use route_llm.Validation.Depth.{too_deep}
use route_llm.Validation.Validator.{
  Codes, when, failure, result_of, check, text_codes, json_codes, document_codes, value_codes,
  field_codes, missing_fields, mistyped_fields, validate, root_differs, effective_root,
}

-- `check` reports no internal error by itself.
abbrev IsReported : ValidationFailureCode → Type 0
IsReported code = is_validator_error code ≡ false

abbrev Reported : Codes → Type 0
Reported = All IsReported

abbrev ReportedIn : Option Codes → Type 0
ReportedIn none = Unit
ReportedIn (some codes) = Reported codes

Option-map-map :
    {A B C : Type 0} (g : B → C) (f : A → B) (o : Option A)
    → Option.map g (Option.map f o) ≡ Option.map (λ a. g (f a)) o
Option-map-map g f none = refl
Option-map-map g f (some a) = refl

when-Reported : (b : Bool) (code : ValidationFailureCode) → IsReported code → Reported (when b code)
when-Reported true code h = (h, tt)
when-Reported false code h = tt

missing_fields-Reported : (keys : List Text) (fs : Fields) → Reported (missing_fields keys fs)
unfolding missing_fields
missing_fields-Reported [] fs = tt
missing_fields-Reported (key ∷ keys) fs =
    All-append IsReported _ _ (when-Reported _ missing_field refl) (missing_fields-Reported keys fs)

mistyped_fields-Reported :
    (types : List (Text × JsonType)) (fs : Fields) → Reported (mistyped_fields types fs)
unfolding mistyped_fields
mistyped_fields-Reported [] fs = tt
mistyped_fields-Reported ((key, t) ∷ types) fs =
    All-append IsReported _ _ (when-Reported _ field_type refl) (mistyped_fields-Reported types fs)

field_codes-Reported : (c : ValidationContract) (v : Json) → Reported (field_codes c v)
unfolding field_codes
field_codes-Reported c (object fs) =
    All-append IsReported _ _ (missing_fields-Reported c.required_fields fs)
      (mistyped_fields-Reported c.field_types fs)
field_codes-Reported c _ = tt

map-ReportedIn :
    (front : Codes) (r : Option Codes)
    → Reported front
    → ReportedIn r
    → ReportedIn (Option.map (λ more. front ++ more) r)
map-ReportedIn front none h k = tt
map-ReportedIn front (some codes) h k = All-append IsReported front codes h k

value_codes-Reported : (c : ValidationContract) (v : Json) → Reported (value_codes c v)
unfolding value_codes
value_codes-Reported c v = elim (Bool-cases (root_differs v (effective_root c))) [
  | inl e ↦ rw e (refl, tt)
  | inr e ↦ rw e (field_codes-Reported c v)
]

document_codes-Reported : (c : ValidationContract) (p : Parsed) → ReportedIn (document_codes c p)
unfolding document_codes
document_codes-Reported c rejected = (refl, tt)
document_codes-Reported c crashed = tt
document_codes-Reported c (document v) = elim (Bool-cases (accepted v)) [
  | inl e ↦ rw e (value_codes-Reported c v)
  | inr e ↦ rw e (refl, tt)
]

module _ (parse : Text → Parsed) (c : ValidationContract) where
  json_codes-Reported : (raw text : Text) → ReportedIn (json_codes parse c raw text)
  unfolding json_codes
  json_codes-Reported raw text = elim (Bool-cases (is_json c.format)) [
    | inl e ↦ elim (Bool-cases (too_deep text)) [
      | inl k ↦ rw (e, k) (refl, tt)
      | inr k ↦ rw (e, k) (document_codes-Reported c (parse raw))
    ]
    | inr e ↦ rw e tt
  ]

  text_codes-Reported : (raw text : Text) → ReportedIn (text_codes parse c raw text)
  unfolding text_codes
  text_codes-Reported raw text = elim (Bool-cases (is_empty text)) [
    | inl e ↦ rw e (refl, tt)
    | inr e ↦ rw e (
        subst (λ (o : Option Codes). ReportedIn o)
          (Option-map-map _ _ (json_codes parse c raw text))
          (map-ReportedIn _ _ (when-Reported _ minimum_characters refl) (
            map-ReportedIn _ _ (when-Reported _ label_not_allowed refl)
              (json_codes-Reported raw text))))
  ]

  check-Reported : (r : InferenceResponse) → ReportedIn (check parse r c)
  unfolding check
  check-Reported r =
      map-ReportedIn _ _ (when-Reported _ output_truncated refl)
        (elim (Bool-cases (ltb max_input_characters (length r.text))) [
          | inl e ↦ rw e (refl, tt)
          | inr e ↦ rw e (text_codes-Reported r.text (strip r.text))
        ])

length-map : {A B : Type 0} (f : A → B) (xs : List A) → length (map f xs) ≡ length xs
length-map f [] = refl
length-map f (x ∷ xs) = ap suc (length-map f xs)

none_internal :
    (codes : Codes)
    → Reported codes
    → any (λ f. is_validator_error f.code) (map failure codes) ≡ false
none_internal [] h = refl
none_internal (code ∷ codes) (h, hs) = rw (h, none_internal codes hs)

result_of-consistent :
    (elapsed : ℕ) (o : Option Codes) → ReportedIn o → consistent_status (result_of elapsed o) ≡ true
unfolding result_of consistent_status
result_of-consistent elapsed none h = refl
result_of-consistent elapsed (some []) h = refl
result_of-consistent elapsed (some (code ∷ codes)) h =
    let short = take max_failures (code ∷ codes) in
    ground (
      arith,
      length-map failure short,
      length-take-le max_failures (code ∷ codes),
      none_internal short (All-take IsReported max_failures (code ∷ codes) h),
    )

-- Whatever the response, the contract and the parser, `validate` builds a result that
-- `ValidationResult` accepts: at most 16 failures, failures exactly with the statuses FAILED and
-- ERROR, and the internal error exactly with ERROR.
pub validate-consistent :
    (parse : Text → Parsed) (elapsed : ℕ) (r : InferenceResponse) (c : Option ValidationContract)
    → consistent_status (validate parse elapsed r c) ≡ true
unfolding validate
validate-consistent parse elapsed r none = unfold consistent_status in refl
validate-consistent parse elapsed r (some c) =
    result_of-consistent elapsed (check parse r c) (check-Reported parse c r)
