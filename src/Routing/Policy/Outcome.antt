-- ===== src/Routing/Policy/Outcome.antt =====
-- The results of `route` on all inputs: when it succeeds, what it returns and how it fails.
use route_llm.Prelude.{
  ℕ, ◌≡◌, refl, ◌≢◌, ◌⊎◌, inl, inr, true, false, List, [], ◌∷◌, select, Bool-cases, subst,
}
use route_llm.Errors.{
  ok, err, no_eligible_candidates, duplicate_candidate_prediction, Result-cases, ok-injective,
}
use route_llm.Models.{Error}
use route_llm.Routing.Threshold.{
  Value, IsProbability, validate_quality_threshold, validate_quality_threshold_accepts,
}
use route_llm.Routing.Policy.{
  CandidatePrediction, RoutingDecision, qualifies, select_best, select_distinct, distinct_ids,
  route,
}
use route_llm.Routing.Policy.Selection.{Chosen, select_best-Chosen}

module _ (t : ℕ) (c : CandidatePrediction) (cs : List CandidatePrediction) where
  select_distinct-Chosen :
      (d : RoutingDecision)
      → select_distinct t c cs ≡ ok d
      → (distinct_ids (c ∷ cs) ≡ true) × Chosen t (c ∷ cs) d
  unfolding select_distinct
  select_distinct-Chosen d h = elim (Bool-cases (distinct_ids (c ∷ cs))) [
    | inl e ↦
        (e, subst (Chosen t (c ∷ cs)) (ok-injective (rw e at h)) (select_best-Chosen t c cs _ refl))
    | inr e ↦ cc (rw e at h)
  ]

  pub select_distinct-ok :
      distinct_ids (c ∷ cs) ≡ true
      → select_distinct t c cs ≡ ok (select_best t c cs (select (qualifies t) (c ∷ cs)))
  unfolding select_distinct
  select_distinct-ok e = rw e

  pub select_distinct-repeated :
      distinct_ids (c ∷ cs) ≡ false → select_distinct t c cs ≡ err duplicate_candidate_prediction
  unfolding select_distinct
  select_distinct-repeated e = rw e

  select_distinct-err :
      (e : Error)
      → select_distinct t c cs ≡ err e
      → (distinct_ids (c ∷ cs) ≡ false) × (e ≡ duplicate_candidate_prediction)
  unfolding select_distinct
  select_distinct-err e h = elim (Bool-cases (distinct_ids (c ∷ cs))) [
    | inl k ↦ cc (rw k at h)
    | inr k ↦ (k, cc (rw k at h))
  ]

module _ (c : CandidatePrediction) (cs : List CandidatePrediction) (v : Value) where
  pub route-accepted :
      (t : ℕ) → validate_quality_threshold v ≡ ok t → route (c ∷ cs) v ≡ select_distinct t c cs
  unfolding route
  route-accepted t h = rw h

  pub route-refused : (e : Error) → validate_quality_threshold v ≡ err e → route (c ∷ cs) v ≡ err e
  unfolding route
  route-refused e h = rw h

route-empty : (v : Value) → route [] v ≡ err no_eligible_candidates
unfolding route
route-empty v = refl

-- A decision comes from a threshold within bounds and distinct candidates, and is the cheapest
-- qualifying candidate or, where none qualifies, the most acceptable one; it reports that
-- candidate, the threshold, the two counts, the flags and the reason.
pub route-Chosen :
    (cands : List CandidatePrediction) (v : Value) (d : RoutingDecision)
    → route cands v ≡ ok d
    → (t : ℕ) × IsProbability v t × (distinct_ids cands ≡ true) × Chosen t cands d
route-Chosen [] v d h = cc (route-empty v)
route-Chosen (c ∷ cs) v d h = elim (Result-cases (validate_quality_threshold v)) [
  | inl (t, valid) ↦
      let (distinct, chosen) =
        select_distinct-Chosen t c cs d (rw (route-accepted c cs v t valid) at h) in
      (t, (validate_quality_threshold_accepts v t).0 valid, distinct, chosen)
  | inr (e, refused) ↦ cc (route-refused c cs v e refused)
]

-- `route` returns a decision whenever there is a candidate, the threshold is a finite number from 0
-- to 1 and the identifiers are distinct.
pub route_total :
    (cands : List CandidatePrediction) (v : Value) (t : ℕ)
    → cands ≢ []
    → IsProbability v t
    → distinct_ids cands ≡ true
    → (d : RoutingDecision) × (route cands v ≡ ok d)
route_total [] v t some valid distinct = absurd (some refl)
route_total (c ∷ cs) v t some valid distinct = (
  select_best t c cs (select (qualifies t) (c ∷ cs)),
  cc (
    route-accepted c cs v t ((validate_quality_threshold_accepts v t).1 valid),
    select_distinct-ok t c cs distinct,
  ),
)

-- A refusal of `route` has one of three causes, checked in this order: no candidate; a threshold that
-- is refused, where there is a candidate; or two candidates with one identifier, where the threshold is
-- a number from 0 to 1.
pub route_errors :
    (cands : List CandidatePrediction) (v : Value) (e : Error)
    → route cands v ≡ err e
    → ((cands ≡ []) × (e ≡ no_eligible_candidates))
      ⊎ (((cands ≢ []) × (validate_quality_threshold v ≡ err e))
          ⊎ ((cands ≢ [])
              × ((t : ℕ) × IsProbability v t)
              × (distinct_ids cands ≡ false)
              × (e ≡ duplicate_candidate_prediction)))
route_errors [] v e h = inl (refl, cc (route-empty v))
route_errors (c ∷ cs) v e h = elim (Result-cases (validate_quality_threshold v)) [
  | inl (t, valid) ↦
      let (repeated, same) =
        select_distinct-err t c cs e (rw (route-accepted c cs v t valid) at h) in
      inr (inr (λ k. cc, (t, (validate_quality_threshold_accepts v t).0 valid), repeated, same))
  | inr (e', refused) ↦ inr (inl (λ k. cc, cc (route-refused c cs v e' refused)))
]
