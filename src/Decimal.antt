-- ===== src/Decimal.antt =====
-- Python's `decimal.Decimal` as the gateway uses it: finite values that are not negative (the type
-- `Money` of models/schemas.py refuses all others). A value is `coefficient * 10 ** exponent`; the
-- coefficient is never normalised, so two values may be equal in size and differ as data.
pub mod Context
use native.Mathlib.Nat.{one-le-pow, le_of_mul-le-mul_right, mul-le-mul_right}
use route_llm.Prelude.{ℕ, ◌*◌, ◌^◌, ◌≤◌, ◌<◌, ◌≡◌, Bool, true, false, arith, leb, leb→le}
use route_llm.Prelude.Int.{ℤ, pos_part, neg_part}
use route_llm.Prelude.Order.{IsOrder}

pub record Decimal : Type 0 where
  pub coefficient : ℕ
  pub exponent : ℤ

-- The value is `numerator / denominator`.
abbrev pub numerator : Decimal → ℕ
numerator d = d.coefficient * 10 ^ pos_part d.exponent

abbrev pub denominator : Decimal → ℕ
denominator d = 10 ^ neg_part d.exponent

-- `a <= b`
unfoldable pub decimal_le : Decimal → Decimal → Bool
decimal_le a b = leb (numerator a * denominator b) (numerator b * denominator a)

pub denominator_pos : (d : Decimal) → 0 < denominator d
denominator_pos d = one-le-pow (neg_part d.exponent) 10 (omega arith)

cross_trans : (a b c u v w : ℕ) → 0 < v → a * v ≤ b * u → b * w ≤ c * v → a * w ≤ c * u
cross_trans a b c u v w h p q =
    le_of_mul-le-mul_right {k = v} (omega (arith, mul-le-mul_right w p, mul-le-mul_right u q)) h

decimal_le_trans :
    (a b c : Decimal) → decimal_le a b ≡ true → decimal_le b c ≡ true → decimal_le a c ≡ true
unfolding decimal_le
decimal_le_trans a b c p q =
    let h =
      cross_trans (numerator a) (numerator b) (numerator c) (denominator a) (denominator b)
        (denominator c) (denominator_pos b) (leb→le _ _ p) (leb→le _ _ q) in
    ground arith

decimal_le_total : (a b : Decimal) → decimal_le a b ≡ false → decimal_le b a ≡ true
unfolding decimal_le
decimal_le_total a b h = ground arith

-- The comparison of amounts is a total preorder.
pub decimal_le-IsOrder : IsOrder decimal_le
decimal_le-IsOrder = record { total = decimal_le_total; trans = decimal_le_trans }
