-- ===== src/Tests/Requests.antt =====
-- Requests, deadlines, the registry and the routing service at concrete inputs.
use route_llm.Prelude.{
  ℕ, ◌+◌, ◌≤◌, ◌≡◌, ◌↔◌, ◌⊎◌, refl, Bool, true, false, none, some, List, [], ◌∷◌, length,
}
use route_llm.Prelude.Int.{negsuc, ◌+ℤ◌, ◌-ℤ◌}
use route_llm.Prelude.Text.{Text, codes, text_eq, all_distinct}
use route_llm.Decimal.{Decimal, decimal_le}
use route_llm.Decimal.Context.{over, plus, times}
use route_llm.Errors.{ok, err, duplicate_model, model_not_found}
use route_llm.Models.{ModelConfig}
use route_llm.Deadline.{RequestDeadline, expired, constrain_timeout, constrain_timeout_lem}
use route_llm.Limits.{
  RequestLimitSettings, validate_request, option_length, validate_request_lem, valid_limits,
}
use route_llm.Registry.{ModelRegistry, register, get}
use route_llm.Registry.Laws.{IsRegistered, register_lem}
use route_llm.Pricing.{calculate_cost, cost_of}
use route_llm.Routing.Threshold.{one, validate_quality_threshold}
use route_llm.Routing.Policy.{
  route, distinct_ids, select_best, select_distinct, quality_threshold_met,
}
use route_llm.Routing.Features.{
  RoutingRequestFeatures, RoutingCategory, parse_category, client_hint, Hint, named,
}
use route_llm.Routing.Allowance.{resolve_effective_output_allowance}
use route_llm.Routing.Service.{
  Parts, RoutingResult, RoutingCandidateSnapshot, filtered, model_ids, route_features_with_snapshot,
  decide, price_all, price, find_prediction, same_ids,
}
use route_llm.Routing.Service.Routed.{IsRouted, route_features-IsRouted}
use route_llm.Tests.Sample.{small, large, half, half_value, request}

abbrev deadline : RequestDeadline
deadline = record { expires_at = 120 }

constrain_timeout_lem_example :
    ((constrain_timeout deadline 100 50 ≡ none) ↔ (expired deadline 100 ≡ true))
    × ((t : ℕ)
        → constrain_timeout deadline 100 50 ≡ some t
        → (t ≤ 50) × (100 + t ≤ 120) × ((u : ℕ) → u ≤ 50 → 100 + u ≤ 120 → u ≤ t))
constrain_timeout_lem_example = constrain_timeout_lem deadline 100 50

abbrev limits : RequestLimitSettings
limits = record { max_prompt_characters = 1000; max_output_tokens = 100 }

limits_valid : valid_limits limits ≡ true
unfolding valid_limits
limits_valid = refl

validate_request_lem_example :
    ((validate_request limits request ≡ ok tt)
      ↔ ((length request.prompt + option_length request.system_prompt ≤ 1000) × (100 ≤ 100)))
    × (validate_request limits request ≡ ok tt → (length request.prompt ≤ 100_000) × (100 ≤ 8_192))
validate_request_lem_example = validate_request_lem limits request limits_valid

abbrev registry : ModelRegistry
registry = record { models = (codes "large", large) ∷ [] }

register_lem_example :
    ((s : ModelRegistry) × (register small registry ≡ ok s)
      × (get (codes "small") registry ≡ err model_not_found)
      × IsRegistered small registry s)
    ⊎ ((n : ModelConfig) × (register small registry ≡ err duplicate_model)
        × (get (codes "small") registry ≡ ok n))
register_lem_example = register_lem small registry

abbrev no_match : Text → ℕ
no_match t = 0

abbrev no_code : Text → Bool
no_code t = false

abbrev summary : Hint
summary = named (codes " summarization ")

abbrev features : RoutingRequestFeatures
features = record {
  category = some RoutingCategory.summarization;
  category_provenance = client_hint;
  prompt_characters = 9;
  system_prompt_characters = 8;
  message_count = 2;
  system_prompt_present = true;
  approximate_input_tokens = 5;
  contains_code = false;
  requests_structured_output = false;
  max_output_tokens = 100;
  constraint_indicator_count = 0;
  reasoning_indicator_count = 0;
}

abbrev parts : Parts
parts = record {
  predict = λ f ms. ok (
      record { model_id = codes "large"; predicted_acceptability = half + 2 }
      ∷ record { model_id = codes "small"; predicted_acceptability = half + 1 }
      ∷ []);
  eligibility_filter = none;
}

abbrev models : List ModelConfig
models = small ∷ large ∷ []

abbrev snapshot_of : Text → ℕ → Decimal → RoutingCandidateSnapshot
snapshot_of id p cost = record {
  prediction = record { model_id = id; predicted_acceptability = p; projected_cost_usd = cost };
  qualifies = true;
}

abbrev small_cost : Decimal
small_cost = record { coefficient = 105; exponent = negsuc 7 }

abbrev routed : RoutingResult
routed = record {
  decision = record {
    selected_model_id = codes "small";
    selected_predicted_acceptability = half + 1;
    selected_projected_cost_usd = small_cost;
    quality_threshold = half;
    threshold_satisfied = true;
    fallback_used = false;
    eligible_candidate_count = 2;
    qualifying_candidate_count = 2;
    reason = quality_threshold_met;
  };
  candidates =
      snapshot_of (codes "small") (half + 1) small_cost
      ∷ snapshot_of (codes "large") (half + 2) (record { coefficient = 945; exponent = negsuc 6 })
      ∷ [];
}

routes : route_features_with_snapshot parts features models half_value ≡ ok routed
unfolding route_features_with_snapshot decide price_all price find_prediction same_ids
    resolve_effective_output_allowance parse_category calculate_cost cost_of over plus times ◌+ℤ◌
    ◌-ℤ◌ route validate_quality_threshold one distinct_ids select_best select_distinct text_eq
    decimal_le
routes = refl

route_features-IsRouted_example :
    (all_distinct (model_ids (filtered none features models)) ≡ true)
    × IsRouted parts features (filtered none features models) half_value routed
route_features-IsRouted_example =
    route_features-IsRouted parts features models half_value routed routes
