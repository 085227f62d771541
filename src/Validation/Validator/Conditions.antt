-- ===== src/Validation/Validator/Conditions.antt =====
-- The tests of `_check` in validation/validator.py that look at one property of a response.
use mathlib.Core.Option.{some-injective}
use route_llm.Prelude.{
  ℕ, ◌≤◌, ◌≡◌, ◌≢◌, ◌↔◌, refl, inl, inr, Bool, true, false, not, ◌&&◌, Option, none, some, List, [],
  ◌∷◌, length, In, arith, Bool-cases,
}
use route_llm.Prelude.Text.{Text, text_eq, text_eq_iff, member}
use route_llm.Models.{TerminationReason, length_limit}
use route_llm.Validation.Contract.{Format, label, json, is_json, is_label}
use route_llm.Validation.Validator.{is_truncated, too_short}

pub truncated_iff : (t : TerminationReason) → (is_truncated t ≡ false) ↔ (t ≢ length_limit)
truncated_iff length_limit = (λ h. cc, λ h. absurd (h refl))
truncated_iff t = (λ h k. cc, λ h. refl)

pub too_short_iff :
    (o : Option ℕ) (t : Text) → (too_short o t ≡ false) ↔ ((n : ℕ) → o ≡ some n → n ≤ length t)
too_short_iff none t = (λ h n k. cc, λ h. refl)
too_short_iff (some m) t = (
  λ h n k. let e : m ≡ n = some-injective _ _ k in ground (arith, e),
  λ h. let b = h m refl in ground (arith, b),
)

pub is_label_iff : (f : Format) → (is_label f ≡ true) ↔ (f ≡ label)
is_label_iff label = (λ h. refl, λ h. refl)
is_label_iff f = (λ h. cc, λ h. cc)

pub is_json_iff : (f : Format) → (is_json f ≡ true) ↔ (f ≡ json)
is_json_iff json = (λ h. refl, λ h. refl)
is_json_iff f = (λ h. cc, λ h. cc)

pub label_member : (f : Format) (b : Bool) → f ≡ label → (is_label f && not b) ≡ false → b ≡ true
label_member f true e h = refl
label_member f false e h = cc ((is_label_iff f).1 e, rw ((is_label_iff f).1 e) at h)

pub member_iff : (x : Text) (ys : List Text) → (member x ys ≡ true) ↔ In x ys
member_iff x [] = (λ h. cc, λ i. absurd i)
member_iff x (y ∷ ys) = elim (Bool-cases (text_eq x y)) [
  | inl e ↦ (λ h. inl ((text_eq_iff x y).0 e), λ i. rw e refl)
  | inr e ↦ (
    λ h. inr ((member_iff x ys).0 (rw e at h)),
    λ i. elim i [ inl k ↦ cc ((text_eq_iff x y).1 k, e) | inr j ↦ rw e ((member_iff x ys).1 j) ],
  )
]
