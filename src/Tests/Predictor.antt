-- ===== src/Tests/Predictor.antt =====
-- The predictor over a pipeline that gives each row one half.
use route_llm.Prelude.{◌≡◌, refl, sym, true, false, ap, suc, some, List, [], ◌∷◌, map, length}
use route_llm.Prelude.Int.{pos}
use route_llm.Prelude.Text.{codes, text_eq}
use route_llm.Errors.{ok, ok-injective}
use route_llm.Models.{ModelConfig}
use route_llm.Routing.Threshold.{Value, finite, one, validated_probability}
use route_llm.Routing.Policy.{ModelAcceptabilityPrediction}
use route_llm.Routing.Features.{RoutingRequestFeatures, summarization, client_hint}
use route_llm.Routing.Allowance.{canonicalize_value, resolve_effective_output_allowance}
use route_llm.Routing.Canonical.{
  Conversions, Cell, canonical_from_production, canonical_of, checked_features,
}
use route_llm.Routing.Predictor.{SklearnQualityPredictor, labelled, canonical_rows, predict}
use route_llm.Routing.Predictor.Complete.{IsComplete, predict-IsComplete}
use route_llm.Tests.Sample.{small, large, half, half_value}

-- An integer of tokens or characters is a number of the smallest units here.
abbrev to : Conversions
to = record { of_int = λ n. some (finite (pos n)); of_decimal = λ d. finite (pos d.coefficient) }

abbrev predictor : SklearnQualityPredictor
predictor = record {
  second_column = λ rows. ok (map (λ r. half_value) rows);
  known_candidates = codes "large" ∷ codes "small" ∷ codes "other" ∷ [];
  known_categories = summarization ∷ [];
}

abbrev features : RoutingRequestFeatures
features = record {
  category = some summarization;
  category_provenance = client_hint;
  prompt_characters = 9;
  system_prompt_characters = 8;
  message_count = 2;
  system_prompt_present = true;
  approximate_input_tokens = 5;
  contains_code = false;
  requests_structured_output = false;
  max_output_tokens = 100;
  constraint_indicator_count = 0;
  reasoning_indicator_count = 0;
}

abbrev models : List ModelConfig
models = small ∷ large ∷ []

abbrev predictions : List ModelAcceptabilityPrediction
predictions =
    record { model_id = codes "small"; predicted_acceptability = half }
    ∷ record { model_id = codes "large"; predicted_acceptability = half }
    ∷ []

halves : (rows : List (List Cell)) → length (map (λ r. half_value) rows) ≡ length rows
halves [] = refl
halves (r ∷ rs) = ap suc (halves rs)

one_each :
    (rows : List (List Cell)) (vs : List Value)
    → predictor.second_column rows ≡ ok vs
    → length vs ≡ length rows
one_each rows vs h = rw (sym (ok-injective h)) (halves rows)

predicted : predict to predictor features models ≡ ok predictions
unfolding predict canonical_rows canonical_from_production canonical_of canonicalize_value
    resolve_effective_output_allowance checked_features labelled validated_probability text_eq
    route_llm.Routing.Features.parse_category one
predicted = refl

predict-IsComplete_example : IsComplete predictor models predictions
predict-IsComplete_example =
    predict-IsComplete to predictor features one_each models predictions predicted
