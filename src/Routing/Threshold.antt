-- ===== src/Routing/Threshold.antt =====
-- routing/policy.py, the contract of probabilities and thresholds at the input boundary.
-- A finite double is a whole multiple of 2 ** -1074, so comparing doubles is comparing integers.
use route_llm.Prelude.{ℕ, ◌^◌, ◌≤◌, ◌≡◌, ◌⊎◌, inl, inr, refl, Bool, arith, leb, if◌then◌else◌}
use route_llm.Prelude.Int.{ℤ, pos, negsuc}
use route_llm.Errors.{ok, err, value_error, overflow_error, invalid_quality_threshold}
use route_llm.Models.{Result, Error}

pub data Float : Type 0 where
  nan : Float
  infinite : Bool → Float
  -- in units of 2 ** -1074
  finite : ℤ → Float

-- 1.0 in these units.
unfoldable pub one : ℕ
one = 2 ^ 1074

-- An argument of type `object`, by what the function can see of it: `number` has what `float`
-- returns, and `too_large` is an integer for which `float` raises `OverflowError`.
pub data Value : Type 0 where
  boolean : Bool → Value
  number : Float → Value
  too_large : Value
  not_numeric : Value

-- `_validated_probability`
unfoldable pub validated_probability : Value → Result ℕ
validated_probability (boolean b) = err value_error
validated_probability not_numeric = err value_error
validated_probability too_large = err overflow_error
validated_probability (number nan) = err value_error
validated_probability (number (infinite sign)) = err value_error
validated_probability (number (finite (negsuc n))) = err value_error
validated_probability (number (finite (pos n))) = if leb n one then ok n else err value_error

-- The handler `except ValueError`.
abbrev reraise_threshold : Result ℕ → Result ℕ
reraise_threshold (err value_error) = err invalid_quality_threshold
reraise_threshold r = r

-- `validate_quality_threshold`
unfoldable pub validate_quality_threshold : Value → Result ℕ
unfolding validated_probability
validate_quality_threshold value = reraise_threshold (validated_probability value)

-- The values that the contract allows.
abbrev pub IsProbability : Value → ℕ → Type 0
IsProbability value n = (value ≡ number (finite (pos n))) × (n ≤ one)

-- A threshold is accepted exactly when it is a finite number from 0 to 1, unchanged.
pub validate_quality_threshold_accepts :
    (value : Value) (n : ℕ)
    → (validate_quality_threshold value ≡ ok n → IsProbability value n)
      × (IsProbability value n → validate_quality_threshold value ≡ ok n)
unfolding validate_quality_threshold
validate_quality_threshold_accepts value n = (λ h. ground arith, λ h. ground arith)

-- Every refused value is reported as an invalid threshold, except an integer that no double can
-- hold, for which the error of the conversion escapes.
pub validate_quality_threshold_refuses :
    (value : Value) (e : Error)
    → validate_quality_threshold value ≡ err e
    → ((e ≡ invalid_quality_threshold) × ¬ (value ≡ too_large))
      ⊎ ((e ≡ overflow_error) × (value ≡ too_large))
unfolding validate_quality_threshold
validate_quality_threshold_refuses (boolean b) e h = inl (cc, λ k. cc)
validate_quality_threshold_refuses not_numeric e h = inl (cc, λ k. cc)
validate_quality_threshold_refuses too_large e h = inr (cc, refl)
validate_quality_threshold_refuses (number nan) e h = inl (cc, λ k. cc)
validate_quality_threshold_refuses (number (infinite sign)) e h = inl (cc, λ k. cc)
validate_quality_threshold_refuses (number (finite (negsuc n))) e h = inl (cc, λ k. cc)
validate_quality_threshold_refuses (number (finite (pos n))) e h = inl (ground arith, λ k. cc)
