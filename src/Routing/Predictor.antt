-- ===== src/Routing/Predictor.antt =====
-- routing/predictor.py: `SklearnQualityPredictor`. The loaded pipeline is a parameter.
pub mod Complete
use route_llm.Prelude.{
  ℕ, Bool, true, false, not, Option, none, some, List, [], ◌∷◌, any, all, if◌then◌else◌,
}
use route_llm.Prelude.Text.{Text, text_eq, member, all_distinct}
use route_llm.Errors.{
  ok, err, ◌>>=◌, missing_routing_category, predictor_input_compatibility, unsupported_candidate,
}
use route_llm.Models.{ModelConfig, Result}
use route_llm.Routing.Threshold.{Value, validated_probability}
use route_llm.Routing.Policy.{ModelAcceptabilityPrediction}
use route_llm.Routing.Features.{RoutingCategory, RoutingRequestFeatures, value}
use route_llm.Routing.Canonical.{
  Conversions, CanonicalQualityFeatures, canonical_from_production, Cell, canonical_feature_matrix,
}
use route_llm.Routing.Service.{model_ids}

-- `second_column` is `predict_proba(...)[:, 1]` of the pipeline; the known sets are those of its
-- metadata.
pub record SklearnQualityPredictor : Type 0 where
  pub second_column : List (List Cell) → Result (List Value)
  pub known_candidates : List Text
  pub known_categories : List RoutingCategory

-- The predictions, over `zip(candidates, probabilities)`.
unfoldable pub labelled : List ModelConfig → List Value → Result (List ModelAcceptabilityPrediction)
labelled [] vs = ok []
labelled (m ∷ ms) [] = ok []
labelled (m ∷ ms) (v ∷ vs) = do
  p ← validated_probability v
  ps ← labelled ms vs
  ok (record { model_id = m.model_id; predicted_acceptability = p } ∷ ps)

module _ (to : Conversions) (predictor : SklearnQualityPredictor) (f : RoutingRequestFeatures) where
  unfoldable pub canonical_rows : List ModelConfig → Result (List CanonicalQualityFeatures)
  canonical_rows [] = ok []
  canonical_rows (m ∷ ms) = do
    row ← canonical_from_production to f m
    rows ← canonical_rows ms
    ok (row ∷ rows)

  abbrev pub answer :
      List ModelConfig → List CanonicalQualityFeatures → Result (List ModelAcceptabilityPrediction)
  answer candidates [] = ok []
  answer candidates (row ∷ rows) =
      predictor.second_column (canonical_feature_matrix (row ∷ rows)) >>= labelled candidates

  abbrev pub knows_category : RoutingCategory → Bool
  knows_category c = any (λ d. text_eq (value c) (value d)) predictor.known_categories

  abbrev pub compatible : List ModelConfig → Result (List ModelAcceptabilityPrediction)
  compatible candidates =
      if not (all_distinct (model_ids candidates))
      then err predictor_input_compatibility
      else if not (all (λ id. member id predictor.known_candidates) (model_ids candidates))
      then err unsupported_candidate
      else (canonical_rows candidates >>= answer candidates)

  abbrev pub asked :
      Option RoutingCategory → List ModelConfig → Result (List ModelAcceptabilityPrediction)
  asked none candidates = err missing_routing_category
  asked (some c) candidates =
      if not (knows_category c) then err predictor_input_compatibility else compatible candidates

  -- `predict`
  unfoldable pub predict : List ModelConfig → Result (List ModelAcceptabilityPrediction)
  predict candidates = asked f.category candidates
