-- ===== src/Routing/Service/Routed.antt =====
-- What a routing result says, end to end.
use route_llm.Prelude.{
  ℕ, ◌≡◌, inl, inr, subst, refl, ◌∙◌, true, List, [], ◌∷◌, map, In, All, leb, Bool-cases, all, ◌==◌,
  length, sym, &&-true,
}
use route_llm.Prelude.Text.{Text, text_eq, text_eq_iff, member, all_distinct}
use route_llm.Errors.{ok, >>=-ok, ok-injective}
use route_llm.Models.{ModelConfig}
use route_llm.Routing.Threshold.{Value}
use route_llm.Routing.Policy.{
  ModelAcceptabilityPrediction, CandidatePrediction, RoutingDecision, route,
}
use route_llm.Routing.Policy.Selection.{Chosen, met, fell_back, Reports}
use route_llm.Routing.Policy.Outcome.{route-Chosen}
use route_llm.Routing.Features.{RoutingRequestFeatures}
use route_llm.Routing.Service.{
  Parts, RoutingResult, model_ids, prediction_ids, filtered, same_ids, price_all, snapshot, decide,
  route_features_with_snapshot,
}
use route_llm.Routing.Service.Selected.{IsPriced, price_all-In, price_all-ids}

-- The selected model is eligible; the decision reports its identifier, the prediction that was made
-- for it and its projected cost. The snapshots are the eligible models, in order, each with whether
-- it meets the threshold.
pub record IsRouted (parts : Parts) (f : RoutingRequestFeatures) (eligible : List ModelConfig)
    (v : Value) (r : RoutingResult) : Type 0 where
  pub predictions : List ModelAcceptabilityPrediction
  pub predicted : parts.predict f eligible ≡ ok predictions
  pub complete : (id : Text) → In id (model_ids eligible) → In id (prediction_ids predictions)
  pub only : (id : Text) → In id (prediction_ids predictions) → In id (model_ids eligible)
  pub offers : List CandidatePrediction
  pub listed : r.candidates ≡ map (snapshot r.decision.quality_threshold) offers
  pub decided : route offers v ≡ ok r.decision
  pub model : ModelConfig
  pub is_eligible : In model eligible
  pub selected : CandidatePrediction
  pub priced : IsPriced f predictions model selected
  pub model_id : r.decision.selected_model_id ≡ model.model_id
  pub acceptability : r.decision.selected_predicted_acceptability ≡ selected.predicted_acceptability
  pub cost : r.decision.selected_projected_cost_usd ≡ selected.projected_cost_usd
  pub snapshots : map (λ c. c.model_id) r.candidates ≡ model_ids eligible
  pub qualified :
      All
        (λ c. c.qualifies ≡ leb r.decision.quality_threshold c.predicted_acceptability)
        r.candidates

member-In : (x : Text) (ys : List Text) → member x ys ≡ true → In x ys
member-In x [] h = cc
member-In x (y ∷ ys) h = elim (Bool-cases (text_eq x y)) [
  | inl e ↦ inl ((text_eq_iff x y).0 e)
  | inr e ↦ inr (member-In x ys (rw e at h))
]

all-In : (ys xs : List Text) → all (λ x. member x ys) xs ≡ true → (x : Text) → In x xs → In x ys
all-In ys [] h x i = absurd i
all-In ys (z ∷ xs) h x (inl e) =
    subst (λ w. In w ys) (sym e) (member-In z ys (&&-true _ (all (λ x. member x ys) xs) h).0)
all-In ys (z ∷ xs) h x (inr i) = all-In ys xs (&&-true (member z ys) _ h).1 x i

-- The test of the service leaves no identifier out on either side.
same_ids-In :
    (xs ys : List Text)
    → same_ids xs ys ≡ true
    → ((x : Text) → In x xs → In x ys) × ((y : Text) → In y ys → In y xs)
unfolding same_ids
same_ids-In xs ys h =
    let (ab, l) = &&-true _ (length xs == length ys) h in
    let (a, b) = &&-true (all (λ x. member x ys) xs) (all (λ y. member y xs) ys) ab in
    (all-In ys xs a, all-In xs ys b)

snapshot_ids :
    (t : ℕ) (cs : List CandidatePrediction)
    → map (λ c. c.model_id) (map (snapshot t) cs) ≡ map (λ c. c.model_id) cs
snapshot_ids t [] = refl
snapshot_ids t (c ∷ cs) = rw (snapshot_ids t cs)

snapshot_qualified :
    (t : ℕ) (cs : List CandidatePrediction)
    → All (λ c. c.qualifies ≡ leb t c.predicted_acceptability) (map (snapshot t) cs)
snapshot_qualified t [] = tt
snapshot_qualified t (c ∷ cs) = (refl, snapshot_qualified t cs)

module _ (parts : Parts) (f : RoutingRequestFeatures) (eligible : List ModelConfig) (v : Value)
    (predictions : List ModelAcceptabilityPrediction)
    (predicted : parts.predict f eligible ≡ ok predictions) where
  priced-IsRouted :
      (priced : List CandidatePrediction) (d : RoutingDecision)
      → same_ids (prediction_ids predictions) (model_ids eligible) ≡ true
      → price_all f predictions eligible ≡ ok priced
      → route priced v ≡ ok d
      → IsRouted parts f eligible v
          (record { decision = d; candidates = map (snapshot d.quality_threshold) priced })
  priced-IsRouted priced d same p h =
      let (t, valid, distinct, chosen) = route-Chosen priced v d h in go t chosen
    where
      routed :
          (t : ℕ) (s : CandidatePrediction)
          → Reports t priced s d
          → IsRouted parts f eligible v
              (record { decision = d; candidates = map (snapshot d.quality_threshold) priced })
      routed t s r =
          let (m, there, is_priced) = price_all-In f predictions eligible priced s p r.present in
          record {
            predictions = predictions;
            predicted = predicted;
            complete = (same_ids-In _ _ same).1;
            only = (same_ids-In _ _ same).0;
            offers = priced;
            listed = refl;
            decided = h;
            model = m;
            is_eligible = there;
            selected = s;
            priced = is_priced;
            model_id = r.model_id ∙ is_priced.model_id;
            acceptability = r.acceptability;
            cost = r.cost;
            snapshots =
                snapshot_ids d.quality_threshold priced
                ∙ price_all-ids f predictions eligible priced p;
            qualified = snapshot_qualified d.quality_threshold priced;
          }

      go :
          (t : ℕ)
          → Chosen t priced d
          → IsRouted parts f eligible v
              (record { decision = d; candidates = map (snapshot d.quality_threshold) priced })
      go t (met s r b flags) = routed t s r
      go t (fell_back s r b flags) = routed t s r

  decide-IsRouted :
      (r : RoutingResult)
      → decide f eligible v predictions ≡ ok r
      → (same_ids (prediction_ids predictions) (model_ids eligible) ≡ true)
        × IsRouted parts f eligible v r
  unfolding decide
  decide-IsRouted r h = elim (Bool-cases (all_distinct (prediction_ids predictions))) [
    | inr e ↦ cc (rw e at h)
    | inl e ↦ elim (Bool-cases (same_ids (prediction_ids predictions) (model_ids eligible))) [
      | inr k ↦ cc (rw (e, k) at h)
      | inl k ↦
          let (priced, p, more) = >>=-ok (price_all f predictions eligible) _ (rw (e, k) at h) in
          let (d, routed, built) = >>=-ok (route priced v) _ more in
          (
            k,
            subst (IsRouted parts f eligible v) (ok-injective built)
                (priced-IsRouted priced d k p routed),
          )
    ]
  ]

-- A routing result selects one of the eligible models, whose identifiers are distinct. The
-- predictor answered for each of these models and for no other; the policy made the decision from these predictions
-- and the projected costs, and the result lists them all, each with whether it meets the threshold.
pub route_features-IsRouted :
    (parts : Parts) (f : RoutingRequestFeatures) (candidates : List ModelConfig) (v : Value)
    (r : RoutingResult)
    → route_features_with_snapshot parts f candidates v ≡ ok r
    → let eligible = filtered parts.eligibility_filter f candidates in
      (all_distinct (model_ids eligible) ≡ true) × IsRouted parts f eligible v r
unfolding route_features_with_snapshot
route_features-IsRouted parts f candidates v r h =
    let eligible = filtered parts.eligibility_filter f candidates in
    elim (Bool-cases (all_distinct (model_ids eligible))) [
      | inr e ↦ cc (rw e at h)
      | inl e ↦
          let (ps, predicted, more) = >>=-ok (parts.predict f eligible) _ (rw e at h) in
          (e, (decide-IsRouted parts f eligible v ps predicted r more).1)
    ]
