-- ===== src/Validation/Validator/Accepts.antt =====
-- A response passes exactly when it has every property that its contract asks for.
use mathlib.Core.Option
use mathlib.Core.Option.{some-injective}
use route_llm.Prelude.{
  ℕ, ◌≤◌, ◌≡◌, ◌≢◌, ◌↔◌, ◌⊎◌, refl, inl, inr, Bool, true, false, not, ◌&&◌, Option, none, some,
  List, [], ◌∷◌, ◌++◌, ltb, is_empty, length, In, arith, Bool-cases,
}
use route_llm.Prelude.Text.{Text, strip, member}
use route_llm.Models.{InferenceResponse, length_limit}
use route_llm.Validation.Contract.{
  ValidationContract, ValidationFailureCode, JsonType, label, json, passed, is_json, is_label,
  max_input_characters, compatible_constraints,
}
use route_llm.Validation.Json.{Json, Fields, Parsed, document, object}
use route_llm.Validation.Json.Standard.{HasType, is_object}
use route_llm.Validation.Depth.{too_deep}
use route_llm.Validation.Depth.Nesting.{IsShallow, too_deep-IsShallow}
use route_llm.Validation.Validator.{
  Codes, when, is_truncated, too_short, check, text_codes, json_codes, validate, result_of,
  effective_root,
}
use route_llm.Validation.Validator.Conditions.{
  truncated_iff, too_short_iff, is_label_iff, is_json_iff, label_member, member_iff,
}
use route_llm.Validation.Validator.Passed.{
  HasShape, HasShape-root, HasFields, when-nil, document_codes-nil, nil-document_codes,
}

pub record IsAcceptable (parse : Text → Parsed) (r : InferenceResponse) (c : ValidationContract)
    : Type 0 where
  pub complete : r.termination_reason ≢ length_limit
  pub sized : length r.text ≤ 262_144
  pub present : is_empty (strip r.text) ≡ false
  pub long : (n : ℕ) → c.min_characters ≡ some n → n ≤ length (strip r.text)
  pub labelled : c.format ≡ label → In (strip r.text) c.allowed_labels
  pub shallow : c.format ≡ json → IsShallow (strip r.text)
  pub shaped : c.format ≡ json → (v : Json) × (parse r.text ≡ document v) × HasShape c v

In-nonempty : {A : Type 0} (xs : List A) (a : A) → In a xs → is_empty xs ≡ false
In-nonempty [] a m = absurd m
In-nonempty (x ∷ xs) a m = refl

map-nil :
    (f : Codes → Codes) (o : Option Codes)
    → Option.map f o ≡ some []
    → (codes : Codes) × (o ≡ some codes) × (f codes ≡ [])
map-nil f none h = cc
map-nil f (some codes) h = (codes, refl, some-injective _ _ h)

map-when-nil :
    (b : Bool) (code : ValidationFailureCode) (o : Option Codes)
    → Option.map (λ more. when b code ++ more) o ≡ some []
    → (b ≡ false) × (o ≡ some [])
map-when-nil b code o h =
    let (codes, body, all_empty) = map-nil _ o h in
    let (off, none_left) = when-nil _ _ _ all_empty in (off, cc)

module _ (parse : Text → Parsed) (c : ValidationContract) where
  json_codes-nil :
      (raw text : Text)
      → json_codes parse c raw text ≡ some []
      → is_json c.format ≡ true
      → (too_deep text ≡ false) × ((v : Json) × (parse raw ≡ document v) × HasShape c v)
  unfolding json_codes
  json_codes-nil raw text h e = elim (Bool-cases (too_deep text)) [
    | inl k ↦ cc (rw (e, k) at h)
    | inr k ↦ (k, document_codes-nil c (parse raw) (rw (e, k) at h))
  ]

  abbrev unlisted : Text → Bool
  unlisted text = is_label c.format && not (member text c.allowed_labels)

  text_codes-nil :
      (raw text : Text)
      → text_codes parse c raw text ≡ some []
      → (is_empty text ≡ false)
        × (too_short c.min_characters text ≡ false)
        × (unlisted text ≡ false)
        × (json_codes parse c raw text ≡ some [])
  unfolding text_codes
  text_codes-nil raw text h = elim (Bool-cases (is_empty text)) [
    | inl e ↦ cc (rw e at h)
    | inr e ↦
        let (codes, body, all_empty) = map-nil _ _ (rw e at h) in
        let (long, rest) = when-nil _ _ _ all_empty in
        let (listed, none_left) = when-nil _ _ _ rest in (e, long, listed, cc)
  ]

  check-nil : (r : InferenceResponse) → check parse r c ≡ some [] → IsAcceptable parse r c
  unfolding check
  check-nil r h =
      let (complete, body) = map-when-nil _ _ _ h in
      elim (Bool-cases (ltb max_input_characters (length r.text))) [
        | inl e ↦ cc (rw e at body)
        | inr e ↦
            let (present, long, listed, rest) =
              text_codes-nil r.text (strip r.text) (rw e at body) in
            record {
              complete = (truncated_iff r.termination_reason).0 complete;
              sized = ground arith;
              present = present;
              long = (too_short_iff c.min_characters (strip r.text)).0 long;
              labelled = λ l.
                  (member_iff (strip r.text) c.allowed_labels).0
                    (label_member c.format (member (strip r.text) c.allowed_labels) l listed);
              shallow = λ j.
                  (too_deep-IsShallow (strip r.text)).0
                    (json_codes-nil r.text (strip r.text) rest ((is_json_iff c.format).1 j)).0;
              shaped =
                  λ j. (json_codes-nil r.text (strip r.text) rest ((is_json_iff c.format).1 j)).1;
            }
      ]

  nil-json_codes :
      (r : InferenceResponse)
      → IsAcceptable parse r c
      → json_codes parse c r.text (strip r.text) ≡ some []
  unfolding json_codes
  nil-json_codes r a = elim (Bool-cases (is_json c.format)) [
    | inl e ↦
        let j = (is_json_iff c.format).0 e in
        let (v, parsed, shape) = a.shaped j in
        rw (e, (too_deep-IsShallow (strip r.text)).1 (a.shallow j))
          (nil-document_codes c (parse r.text) v parsed shape)
    | inr e ↦ rw e
  ]

  nil-check : (r : InferenceResponse) → IsAcceptable parse r c → check parse r c ≡ some []
  unfolding check text_codes
  nil-check r a = elim (Bool-cases (is_label c.format)) [
    | inl e ↦ rw (
      whole,
      within,
      a.present,
      long,
      nil-json_codes r a,
      e,
      (member_iff (strip r.text) c.allowed_labels).1 (a.labelled ((is_label_iff c.format).0 e)),
    )
    | inr e ↦ rw (whole, within, a.present, long, nil-json_codes r a, e)
  ]
    where
      whole : is_truncated r.termination_reason ≡ false
      whole = (truncated_iff r.termination_reason).1 a.complete

      long : too_short c.min_characters (strip r.text) ≡ false
      long = (too_short_iff c.min_characters (strip r.text)).1 a.long

      within : ltb max_input_characters (length r.text) ≡ false
      within = let s = a.sized in ground arith

  result_of-passed :
      (elapsed : ℕ) (o : Option Codes) → ((result_of elapsed o).status ≡ passed) ↔ (o ≡ some [])
  unfolding result_of
  result_of-passed elapsed none = (λ h. cc, λ h. cc)
  result_of-passed elapsed (some []) = (λ h. refl, λ h. refl)
  result_of-passed elapsed (some (x ∷ xs)) = (λ h. cc, λ h. cc)

  -- Under a contract, a response passes exactly when it ended by itself, is within the size limit,
  -- is not blank, is as long as asked, is one of the labels in the label format, and in the JSON
  -- format is a document of which no part at the start has more than 32 brackets open outside its
  -- strings and of the shape that the contract asks for.
  pub validate-passed_iff :
      (elapsed : ℕ) (r : InferenceResponse)
      → ((validate parse elapsed r (some c)).status ≡ passed) ↔ IsAcceptable parse r c
  unfolding validate
  validate-passed_iff elapsed r = (
    λ h. check-nil r ((result_of-passed elapsed (check parse r c)).0 h),
    λ a. (result_of-passed elapsed (check parse r c)).1 (nil-check r a),
  )

constrained :
    (c : ValidationContract)
    → ((key : Text) × In key c.required_fields) ⊎ ((f : Text × JsonType) × In f c.field_types)
    → (is_empty c.required_fields && is_empty c.field_types) ≡ false
constrained c (inl (key, m)) = rw (In-nonempty c.required_fields key m)
constrained c (inr (f, m)) = rw (In-nonempty c.field_types f m) (ground arith)

effective_root-object :
    (c : ValidationContract)
    → compatible_constraints c ≡ true
    → (is_empty c.required_fields && is_empty c.field_types) ≡ false
    → (effective_root c ≡ some JsonType.object) × (is_json c.format ≡ true)
unfolding compatible_constraints effective_root
effective_root-object c ok e = ground arith

HasType-object : (v : Json) → HasType v JsonType.object → (fs : Fields) × (v ≡ object fs)
HasType-object _ (is_object fs) = (fs, refl)

-- A contract that `ValidationContract` accepts and that requires a field or types one has an object
-- at the root: a response that passes it is an object with the required fields, of the given types.
pub passed-HasFields :
    (parse : Text → Parsed) (c : ValidationContract) (elapsed : ℕ) (r : InferenceResponse)
    → compatible_constraints c ≡ true
    → ((key : Text) × In key c.required_fields) ⊎ ((f : Text × JsonType) × In f c.field_types)
    → (validate parse elapsed r (some c)).status ≡ passed
    → (fs : Fields) × (parse r.text ≡ document (object fs)) × HasFields c fs
passed-HasFields parse c elapsed r ok some_field h =
    let (root, is_document) = effective_root-object c ok (constrained c some_field) in
    let (v, parsed, shape) =
      ((validate-passed_iff parse c elapsed r).0 h).shaped ((is_json_iff c.format).0 is_document) in
    let (fs, e) = HasType-object v (HasShape-root c v shape JsonType.object root) in
    (fs, cc, shape.fielded fs e)
