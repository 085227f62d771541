-- ===== src/Tests/Routing.antt =====
-- Routing at concrete candidates.
use route_llm.Prelude.Int.{pos}
use route_llm.Prelude.{ℕ, ◌^◌, ◌≡◌, ◌≢◌, ◌⊎◌, refl, true, false, List, [], ◌∷◌, arith}
use mathlib.Core.List.{Permᴰ}
use route_llm.Prelude.Text.{codes, text_eq}
use route_llm.Decimal.{decimal_le}
use route_llm.Errors.{
  ok, err, invalid_quality_threshold, overflow_error, no_eligible_candidates,
  duplicate_candidate_prediction,
}
use route_llm.Models.{Error}
use route_llm.Routing.Threshold.{
  Value, number, finite, too_large, IsProbability, validate_quality_threshold, one,
  validate_quality_threshold_refuses,
}
use route_llm.Routing.Policy.{
  RoutingDecision, CandidatePrediction, route, select_best, select_distinct, distinct_ids,
  quality_threshold_met, no_model_met_threshold_fallback,
}
use route_llm.Routing.Policy.Selection.{Chosen}
use route_llm.Routing.Policy.Outcome.{route-Chosen, route_total, route_errors}
use route_llm.Routing.Policy.Permuted.{route-Perm}
use route_llm.Tests.Sample.{strong, cheap, half, half_value, price_of}

abbrev decided : RoutingDecision
decided = record {
  selected_model_id = codes "small";
  selected_predicted_acceptability = cheap.predicted_acceptability;
  selected_projected_cost_usd = price_of 10;
  quality_threshold = half;
  threshold_satisfied = true;
  fallback_used = false;
  eligible_candidate_count = 2;
  qualifying_candidate_count = 2;
  reason = quality_threshold_met;
}

abbrev offers : List CandidatePrediction
offers = strong ∷ cheap ∷ []

decides : route offers half_value ≡ ok decided
unfolding route validate_quality_threshold one distinct_ids select_best select_distinct text_eq
    decimal_le
decides = refl

half_valid : IsProbability half_value half
unfolding one
half_valid = (refl, omega arith)

-- No offer has the probability 1: the decision falls back to the most acceptable one.
abbrev all_value : Value
all_value = number (finite (pos (2 ^ 1074)))

abbrev fallen_back : RoutingDecision
fallen_back = record {
  selected_model_id = strong.model_id;
  selected_predicted_acceptability = strong.predicted_acceptability;
  selected_projected_cost_usd = strong.projected_cost_usd;
  quality_threshold = 2 ^ 1074;
  threshold_satisfied = false;
  fallback_used = true;
  eligible_candidate_count = 2;
  qualifying_candidate_count = 0;
  reason = no_model_met_threshold_fallback;
}

falls_back : route offers all_value ≡ ok fallen_back
unfolding route validate_quality_threshold one distinct_ids select_best select_distinct text_eq
    decimal_le
falls_back = refl

route-Chosen_example :
    (t : ℕ) × IsProbability all_value t × (distinct_ids offers ≡ true) × Chosen t offers fallen_back
route-Chosen_example = route-Chosen offers all_value fallen_back falls_back

offers_distinct : distinct_ids offers ≡ true
unfolding distinct_ids text_eq
offers_distinct = refl

route_total_example : (d : RoutingDecision) × (route offers half_value ≡ ok d)
route_total_example = route_total offers half_value half (λ h. cc) half_valid offers_distinct

abbrev twice : List CandidatePrediction
twice = cheap ∷ cheap ∷ []

twice_refused : route twice half_value ≡ err duplicate_candidate_prediction
unfolding route validate_quality_threshold one distinct_ids select_distinct text_eq
twice_refused = refl

route_errors_example :
    ((twice ≡ []) × (◌≡◌ {A = Error} duplicate_candidate_prediction no_eligible_candidates))
    ⊎ (((twice ≢ []) × (validate_quality_threshold half_value ≡ err duplicate_candidate_prediction))
        ⊎ ((twice ≢ [])
            × ((t : ℕ) × IsProbability half_value t)
            × (distinct_ids twice ≡ false)
            × (◌≡◌ {A = Error} duplicate_candidate_prediction duplicate_candidate_prediction)))
route_errors_example = route_errors twice half_value duplicate_candidate_prediction twice_refused

route-Perm_example : route offers half_value ≡ route (cheap ∷ strong ∷ []) half_value
route-Perm_example = route-Perm offers (cheap ∷ strong ∷ []) half_value (∣ Permᴰ.swap refl refl ∣₁)

too_large_escapes : validate_quality_threshold too_large ≡ err overflow_error
unfolding validate_quality_threshold
too_large_escapes = refl

validate_quality_threshold_refuses_example :
    ((◌≡◌ {A = Error} overflow_error invalid_quality_threshold) × ¬ (too_large ≡ too_large))
    ⊎ ((◌≡◌ {A = Error} overflow_error overflow_error) × (too_large ≡ too_large))
validate_quality_threshold_refuses_example =
    validate_quality_threshold_refuses too_large overflow_error too_large_escapes
