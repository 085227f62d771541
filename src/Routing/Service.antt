-- ===== src/Routing/Service.antt =====
-- routing/service.py: `RoutingDecisionService`. The predictor and the eligibility filter are the
-- application's objects behind protocols: parameters.
pub mod Selected
pub mod Routed
use route_llm.Prelude.{
  ℕ, Bool, true, false, not, ◌&&◌, ◌||◌, Option, none, some, List, [], ◌∷◌, map, all, length, leb,
  ◌==◌, if◌then◌else◌,
}
use route_llm.Prelude.Text.{Text, text_eq, member, all_distinct}
use route_llm.Decimal.{Decimal}
use route_llm.Errors.{ok, err, ◌>>=◌, duplicate_candidate_prediction, predictor_input_compatibility}
use route_llm.Models.{ModelConfig, InferenceRequest, Result}
use route_llm.Pricing.{calculate_projected_cost}
use route_llm.Routing.Threshold.{Value}
use route_llm.Routing.Policy.{
  ModelAcceptabilityPrediction, CandidatePrediction, RoutingDecision, qualifies, route,
}
use route_llm.Routing.Features.{RoutingRequestFeatures, Hint, extract}
use route_llm.Routing.Allowance.{resolve_effective_output_allowance}

pub record RoutingCandidateSnapshot : Type 0 where
  pub prediction : CandidatePrediction
  pub open prediction use *
  pub qualifies : Bool

pub record RoutingResult : Type 0 where
  pub decision : RoutingDecision
  pub candidates : List RoutingCandidateSnapshot

-- The objects that the service is built over.
pub record Parts : Type 0 where
  pub predict :
      RoutingRequestFeatures → List ModelConfig → Result (List ModelAcceptabilityPrediction)
  pub eligibility_filter : Option (RoutingRequestFeatures → List ModelConfig → List ModelConfig)

abbrev pub model_ids : List ModelConfig → List Text
model_ids = map (λ m. m.model_id)

abbrev pub prediction_ids : List ModelAcceptabilityPrediction → List Text
prediction_ids = map (λ p. p.model_id)

abbrev pub filtered :
    Option (RoutingRequestFeatures → List ModelConfig → List ModelConfig)
    → RoutingRequestFeatures
    → List ModelConfig
    → List ModelConfig
filtered none f candidates = candidates
filtered (some keep) f candidates = keep f candidates

-- `set(xs) == set(ys) and len(xs) == len(ys)`
unfoldable pub same_ids : List Text → List Text → Bool
same_ids xs ys = all (λ x. member x ys) xs && all (λ y. member y xs) ys && length xs == length ys

-- `prediction_by_id[model_id]`
unfoldable pub find_prediction :
    Text → List ModelAcceptabilityPrediction → Option ModelAcceptabilityPrediction
find_prediction id [] = none
find_prediction id (p ∷ ps) = if text_eq p.model_id id then some p else find_prediction id ps

abbrev priced_with :
    RoutingRequestFeatures
    → ModelConfig
    → Option ModelAcceptabilityPrediction
    → Result CandidatePrediction
priced_with f m none = err predictor_input_compatibility
priced_with f m (some p) = do
  allowance ← resolve_effective_output_allowance f m
  cost ← calculate_projected_cost f.approximate_input_tokens allowance m
  ok (record {
    model_id = m.model_id;
    predicted_acceptability = p.predicted_acceptability;
    projected_cost_usd = cost;
  })

-- One candidate with its prediction and its projected cost.
unfoldable pub price :
    RoutingRequestFeatures
    → List ModelAcceptabilityPrediction
    → ModelConfig
    → Result CandidatePrediction
unfolding find_prediction
price f predictions m = priced_with f m (find_prediction m.model_id predictions)

unfoldable pub price_all :
    RoutingRequestFeatures
    → List ModelAcceptabilityPrediction
    → List ModelConfig
    → Result (List CandidatePrediction)
price_all f predictions [] = ok []
price_all f predictions (m ∷ ms) =
    price f predictions m >>= λ c. price_all f predictions ms >>= λ cs. ok (c ∷ cs)

abbrev pub snapshot : ℕ → CandidatePrediction → RoutingCandidateSnapshot
snapshot threshold c = record { prediction = c; qualifies = qualifies threshold c }

-- What follows the prediction.
unfoldable pub decide :
    RoutingRequestFeatures
    → List ModelConfig
    → Value
    → List ModelAcceptabilityPrediction
    → Result RoutingResult
unfolding same_ids
decide f eligible quality_threshold predictions =
    if not (all_distinct (prediction_ids predictions))
    then err duplicate_candidate_prediction
    else if not (same_ids (prediction_ids predictions) (model_ids eligible))
    then err predictor_input_compatibility
    else do
      priced ← price_all f predictions eligible
      d ← route priced quality_threshold
      ok (record { decision = d; candidates = map (snapshot d.quality_threshold) priced })

module _ (parts : Parts) where
  -- `route_features_with_snapshot`
  unfoldable pub route_features_with_snapshot :
      RoutingRequestFeatures → List ModelConfig → Value → Result RoutingResult
  unfolding decide
  route_features_with_snapshot f candidates quality_threshold =
      let eligible = filtered parts.eligibility_filter f candidates in
      if not (all_distinct (model_ids eligible))
      then err duplicate_candidate_prediction
      else (parts.predict f eligible >>= decide f eligible quality_threshold)

  module _ (constraints reasonings : Text → ℕ) (has_code : Text → Bool) where
    -- `route_with_snapshot`
    unfoldable pub route_with_snapshot :
        InferenceRequest → List ModelConfig → Value → Hint → Bool → Result RoutingResult
    route_with_snapshot r candidates quality_threshold hint structured = do
      f ← extract constraints reasonings has_code r hint structured
      route_features_with_snapshot f candidates quality_threshold
