-- ===== src/Pricing.antt =====
-- pricing/calculator.py: the cost of a request from the prices of its model.
use route_llm.Prelude.{ℕ, ◌+◌}
use Prim.Native.Nat.{max}
use route_llm.Prelude.Int.{ℤ, pos, negsuc, nat_abs}
use route_llm.Decimal.{Decimal}
use route_llm.Decimal.Context.{len_digits, times, plus, over}
use route_llm.Errors.{ok, err, value_error}
use route_llm.Models.{ModelConfig, Result}

abbrev rate_digits : Decimal → ℕ
rate_digits rate = len_digits rate.coefficient + nat_abs rate.exponent

unfoldable pub required_digits : ℕ → ℕ → ModelConfig → ℕ
required_digits input output m =
    rate_digits m.input_cost_per_1m_tokens
    + rate_digits m.output_cost_per_1m_tokens
    + max (len_digits input) (len_digits output)
    + 10

-- The cost under the local context.
unfoldable pub cost_of : ℕ → ℕ → ModelConfig → Decimal
unfolding required_digits
cost_of input output m =
    let prec = max 28 (required_digits input output m) in
    over prec
      (plus prec (times prec m.input_cost_per_1m_tokens input)
        (times prec m.output_cost_per_1m_tokens output))
      1_000_000

-- `calculate_cost`; the type of the counts is checked by the annotation here.
unfoldable pub calculate_cost : ℤ → ℤ → ModelConfig → Result Decimal
calculate_cost (negsuc n) output m = err value_error
calculate_cost (pos input) (negsuc n) m = err value_error
calculate_cost (pos input) (pos output) m = ok (cost_of input output m)

-- `calculate_projected_cost`
abbrev pub calculate_projected_cost : ℕ → ℕ → ModelConfig → Result Decimal
calculate_projected_cost approximate_input effective_output m =
    calculate_cost (pos approximate_input) (pos effective_output) m
