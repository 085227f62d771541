-- ===== src/Routing/Policy/Selection.antt =====
-- What `route` selects, and that the selection is the best one.
use route_llm.Prelude.{
  ℕ, ◌≤◌, ◌<◌, ◌≡◌, refl, ap, sym, subst, Bool, true, false, not, List, [], ◌∷◌, leb→le, select,
  length, In, In-select, select-In, select-none, arith,
}
use route_llm.Prelude.Text.{text_le}
use route_llm.Decimal.{decimal_le}
use route_llm.Prelude.Order.{min_by, min_by-In, min_by_least}
use route_llm.Routing.Policy.{
  CandidatePrediction, RoutingDecision, RoutingDecisionReason, by_cost, by_acceptability,
  by_cost-IsOrder, by_acceptability-IsOrder, qualifies, select_best, quality_threshold_met,
  no_model_met_threshold_fallback,
}

-- `s` costs at most what `c` does and, where `c` costs no more, has no greater identifier.
pub record IsCheaper (s c : CandidatePrediction) : Type 0 where
  pub cost : decimal_le s.projected_cost_usd c.projected_cost_usd ≡ true
  pub identifier :
      decimal_le c.projected_cost_usd s.projected_cost_usd ≡ true
      → text_le s.model_id c.model_id ≡ true

by_cost-IsCheaper : (s c : CandidatePrediction) → by_cost s c ≡ true → IsCheaper s c
by_cost-IsCheaper s c h = record { cost = ground arith; identifier = λ k. ground arith }

by_acceptability_lem :
    (s c : CandidatePrediction)
    → by_acceptability s c ≡ true
    → (c.predicted_acceptability ≤ s.predicted_acceptability)
      × (c.predicted_acceptability ≡ s.predicted_acceptability → by_cost s c ≡ true)
by_acceptability_lem s c h = (ground arith, λ e. ground arith)

-- The selection is the cheapest qualifying candidate, the least identifier among equals.
pub record IsCheapest (t : ℕ) (cands : List CandidatePrediction) (s : CandidatePrediction)
    : Type 0 where
  pub acceptable : t ≤ s.predicted_acceptability
  pub cheapest :
      (c : CandidatePrediction) → In c cands → t ≤ c.predicted_acceptability → IsCheaper s c

-- No candidate qualifies, and the selection is the most acceptable, the cheapest among equals.
pub record IsFallback (t : ℕ) (cands : List CandidatePrediction) (s : CandidatePrediction)
    : Type 0 where
  pub unqualified : (c : CandidatePrediction) → In c cands → c.predicted_acceptability < t
  pub best :
      (c : CandidatePrediction) → In c cands → c.predicted_acceptability ≤ s.predicted_acceptability
  pub cheapest :
      (c : CandidatePrediction)
      → In c cands
      → c.predicted_acceptability ≡ s.predicted_acceptability
      → IsCheaper s c

below : (t : ℕ) (c : CandidatePrediction) → qualifies t c ≡ false → c.predicted_acceptability < t
below t c h = ground arith

-- A decision reports a candidate `s`, in all its fields.
pub record Reports (t : ℕ) (cands : List CandidatePrediction) (s : CandidatePrediction)
    (d : RoutingDecision) : Type 0 where
  pub present : In s cands
  pub model_id : d.selected_model_id ≡ s.model_id
  pub acceptability : d.selected_predicted_acceptability ≡ s.predicted_acceptability
  pub cost : d.selected_projected_cost_usd ≡ s.projected_cost_usd
  pub threshold : d.quality_threshold ≡ t
  pub eligible : d.eligible_candidate_count ≡ length cands
  pub qualifying : d.qualifying_candidate_count ≡ length (select (qualifies t) cands)

abbrev Flags : Bool → RoutingDecisionReason → RoutingDecision → Type 0
Flags fallback reason d =
    (d.fallback_used ≡ fallback) × (d.threshold_satisfied ≡ not fallback) × (d.reason ≡ reason)

-- The two ways in which a decision can come about.
pub data Chosen (t : ℕ) (cands : List CandidatePrediction) (d : RoutingDecision) : Type 0 where
  met :
      (s : CandidatePrediction)
      → Reports t cands s d
      → IsCheapest t cands s
      → Flags false quality_threshold_met d
      → Chosen t cands d
  fell_back :
      (s : CandidatePrediction)
      → Reports t cands s d
      → IsFallback t cands s
      → Flags true no_model_met_threshold_fallback d
      → Chosen t cands d

module _ (t : ℕ) (c : CandidatePrediction) (cs : List CandidatePrediction) where
  pub select_best-Chosen :
      (qs : List CandidatePrediction)
      → qs ≡ select (qualifies t) (c ∷ cs)
      → Chosen t (c ∷ cs) (select_best t c cs qs)
  unfolding select_best
  select_best-Chosen [] e =
      let s = min_by by_acceptability c cs in
      fell_back s
        (record {
          present = min_by-In by_acceptability c cs;
          model_id = refl;
          acceptability = refl;
          cost = refl;
          threshold = refl;
          eligible = refl;
          qualifying = ap length e;
        })
        (record {
          unqualified = λ a m. below t a (select-none (qualifies t) (c ∷ cs) a (sym e) m);
          best =
              λ a m. (by_acceptability_lem s a (min_by_least by_acceptability-IsOrder c cs a m)).0;
          cheapest = λ a m k.
              by_cost-IsCheaper s a
                ((by_acceptability_lem s a (min_by_least by_acceptability-IsOrder c cs a m)).1 k);
        })
        (refl, refl, refl)
  select_best-Chosen (q ∷ qs) e =
      let s = min_by by_cost q qs in
      let there : In s (select (qualifies t) (c ∷ cs)) = rw (← e) (min_by-In by_cost q qs) in
      let (present, passed) = In-select (qualifies t) (c ∷ cs) s there in
      met s
        (record {
          present = present;
          model_id = refl;
          acceptability = refl;
          cost = refl;
          threshold = refl;
          eligible = refl;
          qualifying = ap length e;
        })
        (record {
          acceptable = leb→le _ _ passed;
          cheapest = λ a m h. by_cost-IsCheaper s a (
              min_by_least by_cost-IsOrder q qs a
                (subst (In a) (sym e) (select-In (qualifies t) (c ∷ cs) a m (ground arith))));
        })
        (refl, refl, refl)
