-- ===== src/Routing/Policy.antt =====
-- routing/policy.py: `CostAwareRoutingPolicy` and its data. The theorems are in the children.
pub mod Selection
pub mod Outcome
pub mod Permuted
use route_llm.Prelude.{
  ℕ, ◌≤◌, ◌≡◌, Bool, true, false, not, List, [], ◌∷◌, map, leb, if◌then◌else◌, select, length,
}
use route_llm.Prelude.Order.{
  IsOrder, leb-IsOrder, descending, then_by, min_by, on-IsOrder, then_by-IsOrder,
  descending-IsOrder,
}
use route_llm.Prelude.Text.{Text, text_le, text_le-IsOrder, all_distinct}
use route_llm.Decimal.{Decimal, decimal_le, decimal_le-IsOrder}
use route_llm.Errors.{ok, err, ◌>>=◌, no_eligible_candidates, duplicate_candidate_prediction}
use route_llm.Models.{Result}
use route_llm.Routing.Threshold.{Value, validate_quality_threshold}

pub record ModelAcceptabilityPrediction : Type 0 where
  pub model_id : Text
  -- in units of `Threshold.one`
  pub predicted_acceptability : ℕ

pub record CandidatePrediction : Type 0 where
  pub model_id : Text
  pub predicted_acceptability : ℕ
  pub projected_cost_usd : Decimal

pub data RoutingDecisionReason : Type 0 where
  quality_threshold_met no_model_met_threshold_fallback : RoutingDecisionReason

pub record RoutingDecision : Type 0 where
  pub selected_model_id : Text
  pub selected_predicted_acceptability : ℕ
  pub selected_projected_cost_usd : Decimal
  pub quality_threshold : ℕ
  pub threshold_satisfied : Bool
  pub fallback_used : Bool
  pub eligible_candidate_count : ℕ
  pub qualifying_candidate_count : ℕ
  pub reason : RoutingDecisionReason

-- The key `(projected_cost_usd, model_id)`.
abbrev pub by_cost : CandidatePrediction → CandidatePrediction → Bool
by_cost =
    then_by (λ a b. decimal_le a.projected_cost_usd b.projected_cost_usd)
      (λ a b. text_le a.model_id b.model_id)

-- The key `(-predicted_acceptability, projected_cost_usd, model_id)`.
abbrev pub by_acceptability : CandidatePrediction → CandidatePrediction → Bool
by_acceptability =
    then_by (λ a b. descending leb a.predicted_acceptability b.predicted_acceptability) by_cost

pub by_cost-IsOrder : IsOrder by_cost
by_cost-IsOrder =
    then_by-IsOrder
      (on-IsOrder decimal_le-IsOrder (λ (c : CandidatePrediction). c.projected_cost_usd))
      (on-IsOrder text_le-IsOrder (λ (c : CandidatePrediction). c.model_id))

pub by_acceptability-IsOrder : IsOrder by_acceptability
by_acceptability-IsOrder =
    then_by-IsOrder
      (on-IsOrder (descending-IsOrder leb-IsOrder)
        (λ (c : CandidatePrediction). c.predicted_acceptability))
      by_cost-IsOrder

abbrev pub qualifies : ℕ → CandidatePrediction → Bool
qualifies threshold c = leb threshold c.predicted_acceptability

abbrev decision :
    ℕ
    → List CandidatePrediction
    → List CandidatePrediction
    → CandidatePrediction
    → Bool
    → RoutingDecisionReason
    → RoutingDecision
decision threshold candidates qualifying selected fallback reason = record {
  selected_model_id = selected.model_id;
  selected_predicted_acceptability = selected.predicted_acceptability;
  selected_projected_cost_usd = selected.projected_cost_usd;
  quality_threshold = threshold;
  threshold_satisfied = not fallback;
  fallback_used = fallback;
  eligible_candidate_count = length candidates;
  qualifying_candidate_count = length qualifying;
  reason = reason;
}

-- `c ∷ cs` are the candidates, the last argument those that qualify.
unfoldable pub select_best :
    ℕ → CandidatePrediction → List CandidatePrediction → List CandidatePrediction → RoutingDecision
select_best threshold c cs [] =
    decision threshold (c ∷ cs) [] (min_by by_acceptability c cs) true
      no_model_met_threshold_fallback
select_best threshold c cs (q ∷ qs) =
    decision threshold (c ∷ cs) (q ∷ qs) (min_by by_cost q qs) false quality_threshold_met

-- `len(set(candidate_ids)) == len(candidate_ids)`
unfoldable pub distinct_ids : List CandidatePrediction → Bool
distinct_ids candidates = all_distinct (map (λ c. c.model_id) candidates)

-- The part of `route` that follows the check of the threshold.
unfoldable pub select_distinct :
    ℕ → CandidatePrediction → List CandidatePrediction → Result RoutingDecision
select_distinct threshold c cs =
    if distinct_ids (c ∷ cs)
    then ok (select_best threshold c cs (select (qualifies threshold) (c ∷ cs)))
    else err duplicate_candidate_prediction

-- `CostAwareRoutingPolicy.route`
unfoldable pub route : List CandidatePrediction → Value → Result RoutingDecision
route [] quality_threshold = err no_eligible_candidates
route (c ∷ cs) quality_threshold = do
  threshold ← validate_quality_threshold quality_threshold
  select_distinct threshold c cs
