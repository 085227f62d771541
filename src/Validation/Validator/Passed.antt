-- ===== src/Validation/Validator/Passed.antt =====
-- The checks of a document find nothing exactly when it has the shape that the contract asks for.
use mathlib.Core.Option.{some-injective}
use route_llm.Prelude.{
  ◌⊎◌, Option-cases, is_empty, if◌then◌else◌, ◌≡◌, ◌≢◌, ◌↔◌, refl, inl, inr, Bool, true, false,
  Option, none, some, List, [], ◌∷◌, ◌++◌, In, arith, Bool-cases, ap, subst, sym,
}
use route_llm.Prelude.Text.{Text}
use route_llm.Validation.Contract.{ValidationContract, ValidationFailureCode, JsonType}
use route_llm.Validation.Json.{
  Json, Fields, Parsed, document, rejected, crashed, accepted, matches, object, get_field,
}
use route_llm.Validation.Json.Standard.{HasType, IsStandard, matches_iff, accepted_iff}
use route_llm.Validation.Validator.{
  Codes, when, document_codes, value_codes, field_codes, root_differs, effective_root,
  missing_fields, mistyped_fields, absent, mismatched,
}

-- An object has every required field, and every typed field that is there has its type.
pub record HasFields (c : ValidationContract) (fs : Fields) : Type 0 where
  pub required : (key : Text) → In key c.required_fields → get_field key fs ≢ none
  pub typed :
      (key : Text) (t : JsonType) (v : Json)
      → In (key, t) c.field_types
      → get_field key fs ≡ some v
      → HasType v t

-- A document of the right shape: no duplicate key, no nonstandard constant, the type of the root, which
-- is an object where fields are constrained and none is given, and, if it is an object, the fields.
pub record HasShape (c : ValidationContract) (v : Json) : Type 0 where
  pub standard : IsStandard v
  pub rooted : (t : JsonType) → c.root_type ≡ some t → HasType v t
  pub implied :
      c.root_type ≡ none
      → (c.required_fields ≢ []) ⊎ (c.field_types ≢ [])
      → HasType v JsonType.object
  pub fielded : (fs : Fields) → v ≡ object fs → HasFields c fs

pub when-nil :
    (b : Bool) (code : ValidationFailureCode) (codes : Codes)
    → when b code ++ codes ≡ []
    → (b ≡ false) × (codes ≡ [])
when-nil true code codes h = cc
when-nil false code codes h = (refl, h)

nil-when :
    (b : Bool) (code : ValidationFailureCode) (codes : Codes)
    → b ≡ false
    → codes ≡ []
    → when b code ++ codes ≡ []
nil-when b code codes h k = rw (h, k)

absent_iff : (o : Option Json) → (absent o ≡ false) ↔ (o ≢ none)
absent_iff none = (λ h. cc, λ h. absurd (h refl))
absent_iff (some v) = (λ h k. cc, λ h. refl)

mismatched_iff :
    (o : Option Json) (t : JsonType)
    → (mismatched o t ≡ false) ↔ ((v : Json) → o ≡ some v → matches v t ≡ true)
mismatched_iff none t = (λ h v k. cc, λ h. refl)
mismatched_iff (some w) t = (
  λ h v k. ground (arith, ap (λ (o : Option Json). mismatched o t) k),
  λ h. ground (arith, h w refl),
)

module _ (fs : Fields) where
  missing_fields-nil :
      (keys : List Text) (key : Text)
      → missing_fields keys fs ≡ []
      → In key keys
      → get_field key fs ≢ none
  unfolding missing_fields
  missing_fields-nil [] key h m = absurd m
  missing_fields-nil (k ∷ keys) key h (inl e) = rw e ((absent_iff _).0 (when-nil _ _ _ h).0)
  missing_fields-nil (k ∷ keys) key h (inr m) = missing_fields-nil keys key (when-nil _ _ _ h).1 m

  nil-missing_fields :
      (keys : List Text)
      → ((key : Text) → In key keys → get_field key fs ≢ none)
      → missing_fields keys fs ≡ []
  unfolding missing_fields
  nil-missing_fields [] h = refl
  nil-missing_fields (k ∷ keys) h =
      nil-when _ _ _ ((absent_iff _).1 (h k (inl refl)))
        (nil-missing_fields keys (λ key m. h key (inr m)))

  mistyped_fields-nil :
      (types : List (Text × JsonType)) (key : Text) (t : JsonType) (v : Json)
      → mistyped_fields types fs ≡ []
      → In (key, t) types
      → get_field key fs ≡ some v
      → matches v t ≡ true
  unfolding mistyped_fields
  mistyped_fields-nil [] key t v h m e = absurd m
  mistyped_fields-nil ((k, s) ∷ types) key t v h (inl p) e =
      subst (λ (q : Text × JsonType). get_field q.0 fs ≡ some v → matches v q.1 ≡ true) (sym p)
        ((mismatched_iff _ s).0 (when-nil _ _ _ h).0 v) e
  mistyped_fields-nil ((k, s) ∷ types) key t v h (inr m) e =
      mistyped_fields-nil types key t v (when-nil _ _ _ h).1 m e

  nil-mistyped_fields :
      (types : List (Text × JsonType))
      → ((key : Text) (t : JsonType) (v : Json)
          → In (key, t) types
          → get_field key fs ≡ some v
          → matches v t ≡ true)
      → mistyped_fields types fs ≡ []
  unfolding mistyped_fields
  nil-mistyped_fields [] h = refl
  nil-mistyped_fields ((k, s) ∷ types) h =
      nil-when _ _ _ ((mismatched_iff _ s).1 (λ v. h k s v (inl refl)))
        (nil-mistyped_fields types (λ key t v m. h key t v (inr m)))

append-nil-parts : (xs ys : Codes) → xs ++ ys ≡ [] → (xs ≡ []) × (ys ≡ [])
append-nil-parts [] ys h = (refl, h)
append-nil-parts (x ∷ xs) ys h = cc

abbrev implied_by : List Text → List (Text × JsonType) → Option JsonType
implied_by required typed =
    if is_empty required
    then (if is_empty typed then none else some JsonType.object)
    else some JsonType.object

implied_root :
    (required : List Text) (typed : List (Text × JsonType))
    → (required ≢ []) ⊎ (typed ≢ [])
    → implied_by required typed ≡ some JsonType.object
implied_root [] [] (inl n) = absurd (n refl)
implied_root [] [] (inr n) = absurd (n refl)
implied_root [] (t ∷ ts) n = refl
implied_root (r ∷ rs) ts n = refl

root_implied :
    (required : List Text) (typed : List (Text × JsonType)) (t : JsonType)
    → implied_by required typed ≡ some t
    → ((required ≢ []) ⊎ (typed ≢ [])) × (JsonType.object ≡ t)
root_implied [] [] t h = cc
root_implied [] (x ∷ ts) t h = (inr (λ k. cc), some-injective _ _ h)
root_implied (r ∷ rs) ts t h = (inl (λ k. cc), some-injective _ _ h)

module _ (c : ValidationContract) where
  field_codes-nil :
      (v : Json) → field_codes c v ≡ [] → (fs : Fields) → v ≡ object fs → HasFields c fs
  unfolding field_codes
  field_codes-nil v h fs e =
      let (m, n) = append-nil-parts _ _ (rw e at h) in
      record {
        required = λ key. missing_fields-nil fs c.required_fields key m;
        typed =
            λ key t v i e. (matches_iff v t).0 (mistyped_fields-nil fs c.field_types key t v n i e);
      }

  nil-field_codes :
      (v : Json) → ((fs : Fields) → v ≡ object fs → HasFields c fs) → field_codes c v ≡ []
  unfolding field_codes
  nil-field_codes (object fs) h =
      rw (nil-missing_fields fs c.required_fields (h fs refl).required) (
        nil-mistyped_fields fs c.field_types
          (λ key t v i e. (matches_iff v t).1 ((h fs refl).typed key t v i e)))
  nil-field_codes _ h = refl

  root_differs_iff :
      (v : Json) (o : Option JsonType)
      → (root_differs v o ≡ false) ↔ ((t : JsonType) → o ≡ some t → matches v t ≡ true)
  unfolding root_differs
  root_differs_iff v none = (λ h t k. cc, λ h. refl)
  root_differs_iff v (some s) = (
    λ h t k. ground (arith, ap (λ (o : Option JsonType). root_differs v o) k),
    λ h. ground (arith, h s refl),
  )

  rooted_iff :
      (v : Json)
      → ((t : JsonType) → effective_root c ≡ some t → matches v t ≡ true) ↔ (
          ((t : JsonType) → c.root_type ≡ some t → HasType v t)
          × (c.root_type ≡ none
              → (c.required_fields ≢ []) ⊎ (c.field_types ≢ [])
              → HasType v JsonType.object))
  unfolding effective_root
  rooted_iff v = elim (Option-cases c.root_type) [
    | inr (s, e) ↦ rw e (
      λ h. (λ t k. (matches_iff v t).0 (h t k), λ k. cc),
      λ (a, b) t k. (matches_iff v t).1 (a t k),
    )
    | inl e ↦ rw e (
      λ h. (
        λ t k. cc,
        λ k n.
            (matches_iff v JsonType.object).0
              (h JsonType.object (implied_root c.required_fields c.field_types n)),
      ),
      λ (a, b) t k.
          let (n, o) = root_implied c.required_fields c.field_types t k in
          subst (λ u. matches v u ≡ true) o ((matches_iff v JsonType.object).1 (b refl n)),
    )
  ]

  -- A root of the contract, asked for or implied, is the type of the value.
  pub HasShape-root :
      (v : Json) → HasShape c v → (t : JsonType) → effective_root c ≡ some t → HasType v t
  HasShape-root v s t e = (matches_iff v t).0 ((rooted_iff v).1 (s.rooted, s.implied) t e)

  value_codes-nil : (v : Json) → accepted v ≡ true → value_codes c v ≡ [] → HasShape c v
  unfolding value_codes
  value_codes-nil v a h = elim (Bool-cases (root_differs v (effective_root c))) [
    | inl e ↦ cc (rw e at h)
    | inr e ↦ record {
      standard = (accepted_iff v).0 a;
      rooted = ((rooted_iff v).0 ((root_differs_iff v (effective_root c)).0 e)).0;
      implied = ((rooted_iff v).0 ((root_differs_iff v (effective_root c)).0 e)).1;
      fielded = field_codes-nil v (rw e at h);
    }
  ]

  nil-value_codes : (v : Json) → HasShape c v → value_codes c v ≡ []
  unfolding value_codes
  nil-value_codes v s =
      rw ((root_differs_iff v (effective_root c)).1 ((rooted_iff v).1 (s.rooted, s.implied)))
        (nil-field_codes v s.fielded)

  -- The document of a text passes exactly when it is there and has the right shape.
  pub document_codes-nil :
      (p : Parsed) → document_codes c p ≡ some [] → (v : Json) × (p ≡ document v) × HasShape c v
  unfolding document_codes
  document_codes-nil rejected h = cc
  document_codes-nil crashed h = cc
  document_codes-nil (document v) h = elim (Bool-cases (accepted v)) [
    | inl e ↦ (v, refl, value_codes-nil v e (some-injective _ _ (rw e at h)))
    | inr e ↦ cc (rw e at h)
  ]

  pub nil-document_codes :
      (p : Parsed) (v : Json) → p ≡ document v → HasShape c v → document_codes c p ≡ some []
  unfolding document_codes
  nil-document_codes p v e s = rw (e, (accepted_iff v).1 s.standard, nil-value_codes v s)
