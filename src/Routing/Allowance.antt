-- ===== src/Routing/Allowance.antt =====
-- routing/quality_features.py: canonical categories and the output allowance that is priced.
use route_llm.Prelude.{ℕ, Option, none, some, List, [], ◌∷◌, if◌then◌else◌}
use route_llm.Prelude.Text.{Text, codes, strip, text_eq}
use route_llm.Errors.{ok, err, value_error, missing_routing_category, ◌>>=◌}
use route_llm.Models.{ModelConfig, CategoryOutputTokenAllowance, ReasoningEffort, no_effort, Result}
use route_llm.Routing.Features.{
  RoutingCategory, RoutingRequestFeatures, value, parse_category, structured_json,
}

-- `canonicalize_category` of a text.
unfoldable pub canonicalize_category : Text → Result RoutingCategory
canonicalize_category t =
    parse_category (if text_eq (strip t) (codes "json") then value structured_json else strip t)

-- `canonicalize_category` of an enum value.
unfoldable pub canonicalize_value : RoutingCategory → Result RoutingCategory
canonicalize_value c =
    parse_category (if text_eq (value c) (codes "json") then value structured_json else value c)

-- `canonicalize_reasoning_effort` of the effort of a model.
unfoldable pub canonicalize_reasoning_effort : Option ReasoningEffort → ReasoningEffort
canonicalize_reasoning_effort none = no_effort
canonicalize_reasoning_effort (some e) = e

-- The overrides of one canonical category; a name outside the taxonomy raises.
matching : RoutingCategory → List CategoryOutputTokenAllowance → Result (List ℕ)
matching category [] = ok []
matching category (item ∷ items) = canonicalize_category item.category >>= λ c.
    matching category items >>= λ rest.
    ok (if text_eq (value c) (value category) then item.max_output_tokens ∷ rest else rest)

abbrev chosen : ℕ → List ℕ → Result ℕ
chosen requested [] = ok requested
chosen requested (n ∷ []) = ok n
chosen requested (n ∷ m ∷ rest) = err value_error

-- `resolve_effective_output_allowance`
unfoldable pub resolve_effective_output_allowance : RoutingRequestFeatures → ModelConfig → Result ℕ
unfolding canonicalize_value matching
resolve_effective_output_allowance f m = elim f.category [
  | none ↦ err missing_routing_category
  | some given ↦ canonicalize_value given >>= λ category.
      matching category m.output_token_policy.category_overrides >>= chosen f.max_output_tokens
]
