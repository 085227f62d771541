-- ===== src/Routing/Predictor/Complete.antt =====
-- The predictions of routing/predictor.py as routing/service.py needs them.
use route_llm.Prelude.{
  ℕ, suc, ◌≡◌, ◌≤◌, refl, sym, ap, ◌∙◌, inl, inr, true, Option, none, some, List, [], ◌∷◌, All, all,
  length, ==_iff, arith, Bool-cases,
}
use route_llm.Prelude.Int.{pos, negsuc}
use route_llm.Prelude.Text.{Text, text_eq_refl, member, all_distinct}
use route_llm.Errors.{ok, >>=-ok, ok-injective}
use route_llm.Models.{ModelConfig}
use route_llm.Routing.Threshold.{
  Value, boolean, number, too_large, not_numeric, nan, infinite, finite, one, validated_probability,
}
use route_llm.Routing.Policy.{ModelAcceptabilityPrediction}
use route_llm.Routing.Features.{RoutingCategory, RoutingRequestFeatures}
use route_llm.Routing.Canonical.{
  Conversions, CanonicalQualityFeatures, canonical_from_production, canonical_feature_matrix, Cell,
}
use route_llm.Routing.Service.{model_ids, prediction_ids, same_ids}
use route_llm.Routing.Predictor.{
  SklearnQualityPredictor, labelled, canonical_rows, answer, knows_category, compatible, asked,
  predict,
}

-- The answer of a predictor for these candidates: one probability for each, in their order, under
-- distinct and known identifiers, as the service requires.
pub record IsComplete (predictor : SklearnQualityPredictor) (candidates : List ModelConfig)
    (ps : List ModelAcceptabilityPrediction) : Type 0 where
  pub ids : prediction_ids ps ≡ model_ids candidates
  pub probable : All (λ p. p.predicted_acceptability ≤ one) ps
  pub known : all (λ id. member id predictor.known_candidates) (model_ids candidates) ≡ true
  pub distinct : all_distinct (prediction_ids ps) ≡ true
  pub same : same_ids (prediction_ids ps) (model_ids candidates) ≡ true

validated_probability-bound : (v : Value) (n : ℕ) → validated_probability v ≡ ok n → n ≤ one
unfolding validated_probability
validated_probability-bound (boolean b) n h = cc
validated_probability-bound not_numeric n h = cc
validated_probability-bound too_large n h = cc
validated_probability-bound (number nan) n h = cc
validated_probability-bound (number (infinite sign)) n h = cc
validated_probability-bound (number (finite (negsuc k))) n h = cc
validated_probability-bound (number (finite (pos k))) n h = ground arith

all_members :
    (xs zs : List Text)
    → ((x : Text) → member x xs ≡ true → member x zs ≡ true)
    → all (λ x. member x zs) xs ≡ true
all_members [] zs h = refl
all_members (x ∷ xs) zs h =
    let here = h x (rw (text_eq_refl x) refl) in
    let there = all_members xs zs (λ y k. h y (ground (arith, k))) in rw (here, there) refl

same_ids_refl : (xs : List Text) → same_ids xs xs ≡ true
unfolding same_ids
same_ids_refl xs = rw (all_members xs xs (λ x h. h), (==_iff (length xs) (length xs)).1 refl) refl

length-canonical_feature_matrix :
    (rows : List CanonicalQualityFeatures) → length (canonical_feature_matrix rows) ≡ length rows
length-canonical_feature_matrix [] = refl
length-canonical_feature_matrix (r ∷ rs) = ap suc (length-canonical_feature_matrix rs)

labelled-ids :
    (ms : List ModelConfig) (vs : List Value) (ps : List ModelAcceptabilityPrediction)
    → length vs ≡ length ms
    → labelled ms vs ≡ ok ps
    → (prediction_ids ps ≡ model_ids ms) × All (λ p. p.predicted_acceptability ≤ one) ps
unfolding labelled
labelled-ids [] vs ps l h = rw (sym (ok-injective h)) (refl, tt)
labelled-ids (m ∷ ms) [] ps l h = absurd (omega (arith, l))
labelled-ids (m ∷ ms) (v ∷ vs) ps l h =
    let (n, e, h₁) = >>=-ok (validated_probability v) _ h in
    let (qs, e₁, h₂) = >>=-ok (labelled ms vs) _ h₁ in
    let (i, a) = labelled-ids ms vs qs (omega (arith, l)) e₁ in
    rw (sym (ok-injective h₂)) (ap (λ l. m.model_id ∷ l) i, (validated_probability-bound v n e, a))

module _ (to : Conversions) (predictor : SklearnQualityPredictor) (f : RoutingRequestFeatures) where
  length-canonical_rows :
      (ms : List ModelConfig) (rows : List CanonicalQualityFeatures)
      → canonical_rows to predictor f ms ≡ ok rows
      → length rows ≡ length ms
  unfolding canonical_rows
  length-canonical_rows [] rows h = rw (sym (ok-injective h)) refl
  length-canonical_rows (m ∷ ms) rows h =
      let (r, e, h₁) = >>=-ok (canonical_from_production to f m) _ h in
      let (rs, e₁, h₂) = >>=-ok (canonical_rows to predictor f ms) _ h₁ in
      rw (sym (ok-injective h₂)) (ap suc (length-canonical_rows ms rs e₁))

  -- One probability for each row, as `predict_proba` is documented.
  module _
      (one_each : (rows : List (List Cell)) (vs : List Value)
        → predictor.second_column rows ≡ ok vs
        → length vs ≡ length rows) where
    answer-ids :
        (ms : List ModelConfig) (rows : List CanonicalQualityFeatures)
        (ps : List ModelAcceptabilityPrediction)
        → length rows ≡ length ms
        → answer to predictor f ms rows ≡ ok ps
        → (prediction_ids ps ≡ model_ids ms) × All (λ p. p.predicted_acceptability ≤ one) ps
    answer-ids [] [] ps l h = rw (sym (ok-injective h)) (refl, tt)
    answer-ids (m ∷ ms) [] ps l h = absurd (omega (arith, l))
    answer-ids ms (row ∷ rows) ps l h =
        let matrix = canonical_feature_matrix (row ∷ rows) in
        let (vs, e, h₁) = >>=-ok (predictor.second_column matrix) _ h in
        labelled-ids ms vs ps
          (one_each matrix vs e ∙ length-canonical_feature_matrix (row ∷ rows) ∙ l) h₁

    compatible-IsComplete :
        (ms : List ModelConfig) (ps : List ModelAcceptabilityPrediction)
        → compatible to predictor f ms ≡ ok ps
        → IsComplete predictor ms ps
    compatible-IsComplete ms ps h = elim (Bool-cases (all_distinct (model_ids ms))) [
      | inr a ↦ cc (rw a at h)
      | inl a ↦
          elim (Bool-cases (all (λ id. member id predictor.known_candidates) (model_ids ms))) [
            | inr b ↦ cc (rw (a, b) at h)
            | inl b ↦
                let (rows, e, h₁) = >>=-ok (canonical_rows to predictor f ms) _ (rw (a, b) at h) in
                let (i, q) = answer-ids ms rows ps (length-canonical_rows ms rows e) h₁ in
                record {
                  ids = i;
                  probable = q;
                  known = b;
                  distinct = ap all_distinct i ∙ a;
                  same = ap (λ l. same_ids l (model_ids ms)) i ∙ same_ids_refl (model_ids ms);
                }
          ]
    ]

    asked-IsComplete :
        (given : Option RoutingCategory) (ms : List ModelConfig)
        (ps : List ModelAcceptabilityPrediction)
        → asked to predictor f given ms ≡ ok ps
        → IsComplete predictor ms ps
    asked-IsComplete none ms ps h = cc
    asked-IsComplete (some c) ms ps h = elim (Bool-cases (knows_category to predictor f c)) [
      | inl t ↦ compatible-IsComplete ms ps (rw t at h)
      | inr t ↦ cc (rw t at h)
    ]

    -- Whenever the predictor answers, and its pipeline gives one probability for each row, there is one
    -- prediction for each candidate, in their order, each from 0 to 1; the candidates are known to the
    -- predictor, and the service accepts the identifiers.
    pub predict-IsComplete :
        (ms : List ModelConfig) (ps : List ModelAcceptabilityPrediction)
        → predict to predictor f ms ≡ ok ps
        → IsComplete predictor ms ps
    unfolding predict
    predict-IsComplete ms ps h = asked-IsComplete f.category ms ps h
