-- ===== src/Decimal/Context.antt =====
-- Arithmetic of `Decimal` under a context of a given precision, as the decimal module documents it:
-- the exact result, rounded half to even where it has more digits than the precision. The limits of
-- the exponent (999999 either way) are not modelled.
use route_llm.Prelude.{
  ℕ, zero, suc, ◌+◌, ◌-◌, ◌*◌, ◌/◌, ◌%◌, ◌^◌, true, false, ◌&&◌, ◌||◌, ltb, leb, ◌==◌,
  if◌then◌else◌, ◌≡◌, refl,
}
use route_llm.Prelude.Int.{ℤ, pos, negsuc, ◌+ℤ◌, ◌-ℤ◌, leb_ℤ, pos_part}
use route_llm.Decimal.{Decimal}

abbrev decimal : ℕ → ℤ → Decimal
decimal c e = record { coefficient = c; exponent = e }

count_digits : ℕ → ℕ → ℕ
count_digits zero n = 1
count_digits (suc fuel) n = elim (ltb n 10) [ true ↦ 1 | false ↦ suc (count_digits fuel (n / 10)) ]

-- `len(str(n))`; a number has at most as many digits as its size, and one more for zero.
unfoldable pub len_digits : ℕ → ℕ
unfolding count_digits
len_digits n = count_digits n n

-- The quotient by `10 ** k`, rounded half to even.
round_half_even : ℕ → ℕ → ℕ
round_half_even c k =
    let q = c / 10 ^ k in
    let r = c % 10 ^ k in
    if ltb (10 ^ k) (2 * r) || (2 * r == 10 ^ k && q % 2 == 1) then q + 1 else q

-- Rounding to the precision; a carry may give one digit more, which is then a zero.
unfoldable pub fix : ℕ → Decimal → Decimal
unfolding len_digits round_half_even
fix prec d =
    let k = len_digits d.coefficient - prec in
    let q = round_half_even d.coefficient k in
    if leb (len_digits d.coefficient) prec
    then d
    else if leb (len_digits q) prec
    then decimal q (d.exponent +ℤ pos k)
    else decimal (q / 10) (d.exponent +ℤ pos (k + 1))

-- `d * n` for an integer `n`.
unfoldable pub times : ℕ → Decimal → ℕ → Decimal
unfolding fix
times prec d n = fix prec (decimal (d.coefficient * n) d.exponent)

abbrev min_ℤ : ℤ → ℤ → ℤ
min_ℤ a b = if leb_ℤ a b then a else b

-- The coefficient of `d` at an exponent that is not above its own.
abbrev coefficient_at : ℤ → Decimal → ℕ
coefficient_at e d = d.coefficient * 10 ^ pos_part (d.exponent -ℤ e)

-- `a + b`
unfoldable pub plus : ℕ → Decimal → Decimal → Decimal
unfolding fix ◌-ℤ◌
plus prec a b =
    let e = min_ℤ a.exponent b.exponent in
    fix prec (decimal (coefficient_at e a + coefficient_at e b) e)

-- Trailing zeros are dropped as long as the exponent is below the ideal one; the fuel is the
-- difference.
strip_zeros : ℕ → ℕ → ℤ → Decimal
strip_zeros zero c e = decimal c e
strip_zeros (suc fuel) c e =
    let rest = strip_zeros fuel (c / 10) (e +ℤ pos 1) in if c % 10 == 0 then rest else decimal c e

-- The quotient to `prec + 1` digits or more, exactly or with a last digit that is neither 0 nor 5.
divide_at : ℕ → Decimal → ℕ → ℕ → ℕ → Decimal
unfolding strip_zeros
divide_at prec a n up down =
    let q = (a.coefficient * 10 ^ up) / (n * 10 ^ down) in
    let e = a.exponent -ℤ pos up +ℤ pos down in
    if (a.coefficient * 10 ^ up) % (n * 10 ^ down) == 0
    then strip_zeros (up - down) q e
    else decimal (if q % 5 == 0 then q + 1 else q) e

-- `a / Decimal(n)` for a positive integer `n`.
unfoldable pub over : ℕ → Decimal → ℕ → Decimal
unfolding divide_at fix
over prec a n =
    let gained = len_digits n + prec + 1 in
    let spent = len_digits a.coefficient in
    if a.coefficient == 0
    then a
    else fix prec (divide_at prec a n (gained - spent) (spent - gained))

sums : plus 28 (decimal 5 (negsuc 1)) (decimal 1 (pos 1)) ≡ decimal 1005 (negsuc 1)
unfolding plus ◌-ℤ◌
sums = refl

quotients : over 28 (decimal 250000 (negsuc 1)) 1000000 ≡ decimal 25 (negsuc 3)
unfolding over ◌-ℤ◌ ◌+ℤ◌
quotients = refl
