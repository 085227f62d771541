-- ===== src/Routing/Canonical.antt =====
-- routing/quality_features.py: the features that the predictor reads and their matrix. The conversions
-- to `float` are parameters.
use route_llm.Prelude.{
  ℕ, Bool, true, false, not, ◌||◌, Option, none, some, List, [], ◌∷◌, ◌++◌, map, leb, if◌then◌else◌,
}
use route_llm.Prelude.Int.{pos}
use route_llm.Prelude.Text.{Text, codes}
use route_llm.Decimal.{Decimal}
use route_llm.Errors.{ok, err, ◌>>=◌, value_error, overflow_error, missing_routing_category}
use route_llm.Models.{ModelConfig, Result, ReasoningEffort}
use route_llm.Routing.Threshold.{Float, finite}
use route_llm.Routing.Features.{RoutingCategory, RoutingRequestFeatures, value}
use route_llm.Routing.Allowance.{
  canonicalize_value, canonicalize_reasoning_effort, resolve_effective_output_allowance,
}

-- `float` of an integer, nothing where it raises `OverflowError`, and of a decimal.
pub record Conversions : Type 0 where
  pub of_int : ℕ → Option Float
  pub of_decimal : Decimal → Float

-- Its identifier is the one of a model, and so an `Identifier`; the version of the schema is constant.
pub record CanonicalQualityFeatures : Type 0 where
  pub category : RoutingCategory
  pub candidate_id : Text
  pub reasoning_effort : ReasoningEffort
  pub prompt_characters : Float
  pub approximate_input_tokens : Float
  pub requested_max_output_tokens : Float
  pub constraint_indicator_count : Float
  pub reasoning_indicator_count : Float
  pub configured_input_cost_per_1m_tokens : Float
  pub configured_output_cost_per_1m_tokens : Float
  pub context_window : Float
  pub effective_max_output_tokens : Float
  pub contains_code : Bool
  pub requests_structured_output : Bool
  pub supports_temperature : Bool

-- `Field(ge=0, allow_inf_nan=False)` and `Field(gt=0, allow_inf_nan=False)`
abbrev at_least_zero : Float → Bool
at_least_zero (finite (pos n)) = true
at_least_zero x = false

abbrev above_zero : Float → Bool
above_zero (finite (pos n)) = leb 1 n
above_zero x = false

-- The fields of `CanonicalQualityFeatures`, checked.
unfoldable pub checked_features : CanonicalQualityFeatures → Result CanonicalQualityFeatures
checked_features x =
    if not (at_least_zero x.prompt_characters)
      || not (at_least_zero x.approximate_input_tokens)
      || not (above_zero x.requested_max_output_tokens)
      || not (at_least_zero x.constraint_indicator_count)
      || not (at_least_zero x.reasoning_indicator_count)
      || not (at_least_zero x.configured_input_cost_per_1m_tokens)
      || not (at_least_zero x.configured_output_cost_per_1m_tokens)
      || not (above_zero x.context_window)
      || not (above_zero x.effective_max_output_tokens)
    then err value_error
    else ok x

module _ (to : Conversions) where
  abbrev float : ℕ → Result Float
  float n = elim (to.of_int n) [ none ↦ err overflow_error | some x ↦ ok x ]

  -- `canonical_from_production`, where there is a category.
  unfoldable pub canonical_of :
      RoutingRequestFeatures → RoutingCategory → ModelConfig → Result CanonicalQualityFeatures
  canonical_of f given m = do
    category ← canonicalize_value given
    prompt_characters ← float f.prompt_characters
    approximate_input_tokens ← float f.approximate_input_tokens
    requested ← float f.max_output_tokens
    constraints ← float f.constraint_indicator_count
    reasonings ← float f.reasoning_indicator_count
    context_window ← float m.context_window
    allowance ← resolve_effective_output_allowance f m
    effective ← float allowance
    checked_features (record {
      category = category;
      candidate_id = m.model_id;
      reasoning_effort = canonicalize_reasoning_effort m.reasoning_effort;
      prompt_characters = prompt_characters;
      approximate_input_tokens = approximate_input_tokens;
      requested_max_output_tokens = requested;
      constraint_indicator_count = constraints;
      reasoning_indicator_count = reasonings;
      configured_input_cost_per_1m_tokens = to.of_decimal m.input_cost_per_1m_tokens;
      configured_output_cost_per_1m_tokens = to.of_decimal m.output_cost_per_1m_tokens;
      context_window = context_window;
      effective_max_output_tokens = effective;
      contains_code = f.contains_code;
      requests_structured_output = f.requests_structured_output;
      supports_temperature = m.capabilities.supports_temperature;
    })

  -- `canonical_from_production`
  unfoldable pub canonical_from_production :
      RoutingRequestFeatures → ModelConfig → Result CanonicalQualityFeatures
  canonical_from_production f m = elim f.category [
    | none ↦ err missing_routing_category
    | some given ↦ canonical_of f given m
  ]

-- An entry of the matrix; an effort stands for its text.
pub data Cell : Type 0 where
  text : Text → Cell
  effort : ReasoningEffort → Cell
  number : Float → Cell
  boolean : Bool → Cell

-- `category_candidate`
unfoldable pub category_candidate : CanonicalQualityFeatures → Text
category_candidate x = value x.category ++ (codes "::" ++ x.candidate_id)

-- A row of `canonical_feature_matrix`, in the order of CANONICAL_PREDICTIVE_FEATURES.
unfoldable pub matrix_row : CanonicalQualityFeatures → List Cell
matrix_row x =
    text (value x.category)
    ∷ text x.candidate_id
    ∷ effort x.reasoning_effort
    ∷ text (category_candidate x)
    ∷ number x.prompt_characters
    ∷ number x.approximate_input_tokens
    ∷ number x.requested_max_output_tokens
    ∷ number x.constraint_indicator_count
    ∷ number x.reasoning_indicator_count
    ∷ number x.configured_input_cost_per_1m_tokens
    ∷ number x.configured_output_cost_per_1m_tokens
    ∷ number x.context_window
    ∷ number x.effective_max_output_tokens
    ∷ boolean x.contains_code
    ∷ boolean x.requests_structured_output
    ∷ boolean x.supports_temperature
    ∷ []

abbrev pub canonical_feature_matrix : List CanonicalQualityFeatures → List (List Cell)
canonical_feature_matrix = map matrix_row
