-- ===== src/Routing/Service/Selected.antt =====
-- Where the selected model and its price come from.
use route_llm.Prelude.{
  ℕ, ◌≡◌, refl, sym, ap, ◌∙◌, inl, inr, some, List, [], ◌∷◌, map, In, Bool-cases, Option-cases,
  subst,
}
use route_llm.Prelude.Text.{Text, text_eq, text_eq_iff}
use route_llm.Errors.{ok, >>=-ok, ok-injective}
use route_llm.Models.{ModelConfig}
use route_llm.Pricing.{calculate_projected_cost}
use route_llm.Routing.Policy.{ModelAcceptabilityPrediction, CandidatePrediction}
use route_llm.Routing.Features.{RoutingRequestFeatures}
use route_llm.Routing.Allowance.{resolve_effective_output_allowance}
use route_llm.Routing.Service.{model_ids, find_prediction, price, price_all}

find_prediction-some :
    (id : Text) (ps : List ModelAcceptabilityPrediction) (p : ModelAcceptabilityPrediction)
    → find_prediction id ps ≡ some p
    → In p ps × (p.model_id ≡ id)
unfolding find_prediction
find_prediction-some id [] p h = cc
find_prediction-some id (q ∷ ps) p h = elim (Bool-cases (text_eq q.model_id id)) [
  | inl e ↦
      let same : q ≡ p = cc (rw e at h) in
      (
        inl (sym same),
        subst (λ (x : ModelAcceptabilityPrediction). x.model_id ≡ id) same ((text_eq_iff _ _).0 e),
      )
  | inr e ↦ let (there, named) = find_prediction-some id ps p (rw e at h) in (inr there, named)
]

-- A priced candidate, its model, its prediction and its allowance.
pub record IsPriced (f : RoutingRequestFeatures) (ps : List ModelAcceptabilityPrediction)
    (m : ModelConfig) (c : CandidatePrediction) : Type 0 where
  pub model_id : c.model_id ≡ m.model_id
  pub prediction : ModelAcceptabilityPrediction
  pub predicted : In prediction ps
  pub same_id : prediction.model_id ≡ m.model_id
  pub acceptability : c.predicted_acceptability ≡ prediction.predicted_acceptability
  pub allowance : ℕ
  pub allowed : resolve_effective_output_allowance f m ≡ ok allowance
  pub cost :
      calculate_projected_cost f.approximate_input_tokens allowance m ≡ ok c.projected_cost_usd

module _ (f : RoutingRequestFeatures) (ps : List ModelAcceptabilityPrediction) where
  price-IsPriced :
      (m : ModelConfig) (c : CandidatePrediction) → price f ps m ≡ ok c → IsPriced f ps m c
  unfolding price
  price-IsPriced m c h = elim (Option-cases (find_prediction m.model_id ps)) [
    | inl e ↦ cc (rw e at h)
    | inr (p, e) ↦
        let (there, named) = find_prediction-some m.model_id ps p e in
        let (n, allowed, priced) = >>=-ok (resolve_effective_output_allowance f m) _ (rw e at h) in
        let (d, paid, built) =
          >>=-ok (calculate_projected_cost f.approximate_input_tokens n m) _ priced in
        let same = ok-injective built in
        record {
          model_id = sym (ap (λ (x : CandidatePrediction). x.model_id) same);
          prediction = p;
          predicted = there;
          same_id = named;
          acceptability = sym (ap (λ (x : CandidatePrediction). x.predicted_acceptability) same);
          allowance = n;
          allowed = allowed;
          cost = paid ∙ ap (λ (x : CandidatePrediction). ok x.projected_cost_usd) same;
        }
  ]

  pub price_all-In :
      (ms : List ModelConfig) (cs : List CandidatePrediction) (c : CandidatePrediction)
      → price_all f ps ms ≡ ok cs
      → In c cs
      → (m : ModelConfig) × In m ms × IsPriced f ps m c
  unfolding price_all
  price_all-In [] cs c h i = absurd (subst (In c) (sym (ok-injective h)) i)
  price_all-In (m ∷ ms) cs c h i =
      let (d, priced, more) = >>=-ok (price f ps m) _ h in
      let (ds, rest, built) = >>=-ok (price_all f ps ms) _ more in
      go d ds priced (price_all-In ms ds c rest) (subst (In c) (sym (ok-injective built)) i)
    where
      go :
          (d : CandidatePrediction) (ds : List CandidatePrediction)
          → price f ps m ≡ ok d
          → (In c ds → (n : ModelConfig) × In n ms × IsPriced f ps n c)
          → In c (d ∷ ds)
          → (n : ModelConfig) × In n (m ∷ ms) × IsPriced f ps n c
      go d ds priced later (inl e) = (m, inl refl, price-IsPriced m c (priced ∙ ap ok (sym e)))
      go d ds priced later (inr j) = let (n, there, p) = later j in (n, inr there, p)

  pub price_all-ids :
      (ms : List ModelConfig) (cs : List CandidatePrediction)
      → price_all f ps ms ≡ ok cs
      → map (λ c. c.model_id) cs ≡ model_ids ms
  unfolding price_all
  price_all-ids [] cs h = rw (← ok-injective h)
  price_all-ids (m ∷ ms) cs h =
      let (d, priced, more) = >>=-ok (price f ps m) _ h in
      let (ds, rest, built) = >>=-ok (price_all f ps ms) _ more in
      rw (← ok-injective built, (price-IsPriced m d priced).model_id, price_all-ids ms ds rest)
