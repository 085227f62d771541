-- ===== src/Routing/Policy/Permuted.antt =====
-- The decision does not depend on the order in which the candidates are listed.
use mathlib.Core.Path.{ap₂}
use mathlib.Core.List.{Perm, Permᴰ}
use mathlib.Core.List.Permᴰ
use mathlib.Core.Logic.{∥∥₁_elim}
use route_llm.Prelude.{
  ℕ, ◌≡◌, ◌≢◌, refl, ap, sym, ◌∙◌, ◌≤◌, subst, inl, inr, Bool, true, List, [], ◌∷◌, map, arith,
  select, length, In, Bool-cases, leb, leb→le,
}
use route_llm.Prelude.Text.{Text, text_eq, text_eq_iff, text_eq_refl, text_le_antisym, member}
use route_llm.Errors.{Result-cases}
use route_llm.Models.{Result}
use route_llm.Routing.Threshold.{Value, validate_quality_threshold}
use route_llm.Routing.Policy.{
  CandidatePrediction, RoutingDecision, by_cost, by_acceptability, qualifies, distinct_ids,
  select_distinct, route,
}
use route_llm.Routing.Policy.Selection.{
  IsCheaper, Chosen, met, fell_back, Reports, IsFallback, select_best-Chosen,
}
use route_llm.Routing.Policy.Outcome.{
  route-accepted, route-refused, select_distinct-ok, select_distinct-repeated,
}

IsCheaper-by_cost : (s c : CandidatePrediction) → IsCheaper s c → by_cost s c ≡ true
IsCheaper-by_cost s c h = ground (arith, h.cost, h.identifier)

best-by_acceptability :
    (s c : CandidatePrediction)
    → c.predicted_acceptability ≤ s.predicted_acceptability
    → (c.predicted_acceptability ≡ s.predicted_acceptability → IsCheaper s c)
    → by_acceptability s c ≡ true
best-by_acceptability s c b k =
    elim (Bool-cases (leb s.predicted_acceptability c.predicted_acceptability)) [
      | inl e ↦
          let less = leb→le _ _ e in
          let least = IsCheaper-by_cost s c (k (omega (arith, b, less))) in
          ground (arith, b, e, least)
      | inr e ↦ ground (arith, b, e)
    ]

module _ {A : Type 0} where
  pub In-Perm : {xs ys : List A} → Permᴰ xs ys → (a : A) → In a xs → In a ys
  In-Perm Permᴰ.nil a m = m
  In-Perm (Permᴰ.cons e p) a (inl k) = inl (k ∙ e)
  In-Perm (Permᴰ.cons e p) a (inr m) = inr (In-Perm p a m)
  In-Perm (Permᴰ.swap e f) a (inl k) = inr (inl (k ∙ e))
  In-Perm (Permᴰ.swap e f) a (inr (inl k)) = inl (k ∙ f)
  In-Perm (Permᴰ.swap e f) a (inr (inr m)) = inr (inr m)
  In-Perm (Permᴰ.trans p q) a m = In-Perm q a (In-Perm p a m)

  pub length-Perm : {xs ys : List A} → Permᴰ xs ys → length xs ≡ length ys
  length-Perm Permᴰ.nil = refl
  length-Perm (Permᴰ.cons e p) = omega (arith, length-Perm p)
  length-Perm (Permᴰ.swap e f) = refl
  length-Perm (Permᴰ.trans p q) = length-Perm p ∙ length-Perm q

  pub length-select-Perm :
      (p : A → Bool) {xs ys : List A} → Permᴰ xs ys → length (select p xs) ≡ length (select p ys)
  length-select-Perm p Permᴰ.nil = refl
  length-select-Perm p (Permᴰ.cons {b = b} e q) = rw e (ground (arith, length-select-Perm p q))
  length-select-Perm p (Permᴰ.swap {a' = a'} {b' = b'} e f) = rw (e, f) (ground arith)
  length-select-Perm p (Permᴰ.trans q r) = length-select-Perm p q ∙ length-select-Perm p r

text_eq_comm : (a b : Text) → text_eq a b ≡ text_eq b a
text_eq_comm a b = ground (arith, text_eq_iff a b, text_eq_iff b a)

abbrev ids : List CandidatePrediction → List Text
ids = map (λ c. c.model_id)

member-Perm :
    (i : Text) {xs ys : List CandidatePrediction}
    → Permᴰ xs ys
    → member i (ids xs) ≡ member i (ids ys)
member-Perm i Permᴰ.nil = refl
member-Perm i (Permᴰ.cons e p) = rw e (ground (arith, member-Perm i p))
member-Perm i (Permᴰ.swap e f) = rw (e, f) (ground arith)
member-Perm i (Permᴰ.trans p q) = member-Perm i p ∙ member-Perm i q

distinct_ids-swap :
    (a b : CandidatePrediction) (xs : List CandidatePrediction)
    → distinct_ids (a ∷ b ∷ xs) ≡ distinct_ids (b ∷ a ∷ xs)
unfolding distinct_ids
distinct_ids-swap a b xs = ground (arith, text_eq_comm a.model_id b.model_id)

distinct_ids-cons :
    (a : CandidatePrediction) {xs ys : List CandidatePrediction}
    → Permᴰ xs ys
    → distinct_ids xs ≡ distinct_ids ys
    → distinct_ids (a ∷ xs) ≡ distinct_ids (a ∷ ys)
unfolding distinct_ids
distinct_ids-cons a p h = ground (arith, member-Perm a.model_id p)

distinct_ids-Perm :
    {xs ys : List CandidatePrediction} → Permᴰ xs ys → distinct_ids xs ≡ distinct_ids ys
distinct_ids-Perm Permᴰ.nil = refl
distinct_ids-Perm (Permᴰ.cons {a = a} {l₂ = ys} e p) =
    distinct_ids-cons a p (distinct_ids-Perm p) ∙ ap (λ x. distinct_ids (x ∷ ys)) e
distinct_ids-Perm (Permᴰ.swap {a = a} {b = b} {l = l} e f) =
    distinct_ids-swap a b l ∙ ap₂ (λ x y. distinct_ids (y ∷ x ∷ l)) e f
distinct_ids-Perm (Permᴰ.trans p q) = distinct_ids-Perm p ∙ distinct_ids-Perm q

In-member :
    (c : CandidatePrediction) (xs : List CandidatePrediction)
    → In c xs
    → member c.model_id (ids xs) ≡ true
In-member c [] m = absurd m
In-member c (x ∷ xs) (inl e) = rw (e, text_eq_refl x.model_id) refl
In-member c (x ∷ xs) (inr m) = ground (arith, In-member c xs m)

head_is_new :
    (x b : CandidatePrediction) (xs : List CandidatePrediction)
    → distinct_ids (x ∷ xs) ≡ true
    → In b xs
    → x.model_id ≢ b.model_id
unfolding distinct_ids
head_is_new x b xs d m e = ground (arith, In-member b xs m, ap (λ (i : Text). member i (ids xs)) e)

tail_distinct :
    (x : CandidatePrediction) (xs : List CandidatePrediction)
    → distinct_ids (x ∷ xs) ≡ true
    → distinct_ids xs ≡ true
unfolding distinct_ids
tail_distinct x xs d = ground arith

abbrev id_of : CandidatePrediction → Text
id_of c = c.model_id

same_candidate :
    (a b : CandidatePrediction) (xs : List CandidatePrediction)
    → distinct_ids xs ≡ true
    → In a xs
    → In b xs
    → a.model_id ≡ b.model_id
    → a ≡ b
same_candidate a b [] d m n e = absurd m
same_candidate a b (x ∷ xs) d (inl m) (inl n) e = m ∙ sym n
same_candidate a b (x ∷ xs) d (inl m) (inr n) e =
    absurd (head_is_new x b xs d n (ap id_of (sym m) ∙ e))
same_candidate a b (x ∷ xs) d (inr m) (inl n) e =
    absurd (head_is_new x a xs d m (ap id_of (sym n) ∙ sym e))
same_candidate a b (x ∷ xs) d (inr m) (inr n) e = same_candidate a b xs (tail_distinct x xs d) m n e

by_cost_antisym :
    (a b : CandidatePrediction) → by_cost a b ≡ true → by_cost b a ≡ true → a.model_id ≡ b.model_id
by_cost_antisym a b h k = ground (arith, text_le_antisym a.model_id b.model_id)

by_acceptability_antisym :
    (a b : CandidatePrediction)
    → by_acceptability a b ≡ true
    → by_acceptability b a ≡ true
    → a.model_id ≡ b.model_id
by_acceptability_antisym a b h k = by_cost_antisym a b (ground arith) (ground arith)

no_qualifier :
    {t : ℕ} {xs : List CandidatePrediction} {w : CandidatePrediction} (s : CandidatePrediction)
    → In s xs
    → t ≤ s.predicted_acceptability
    → IsFallback t xs w
    → ⊥
no_qualifier s m h f = ground (arith, f.unqualified s m)

module _ {xs ys : List CandidatePrediction} (p : Permᴰ xs ys) (t : ℕ) where
  -- Two reports of one candidate agree in all fields, the flags apart.
  same_report :
      (s : CandidatePrediction) (d e : RoutingDecision)
      → Reports t xs s d
      → Reports t ys s e
      → d.fallback_used ≡ e.fallback_used
      → d.threshold_satisfied ≡ e.threshold_satisfied
      → d.reason ≡ e.reason
      → d ≡ e
  same_report s d e r q f g h = λ i. record {
    selected_model_id = (r.model_id ∙ sym q.model_id) i;
    selected_predicted_acceptability = (r.acceptability ∙ sym q.acceptability) i;
    selected_projected_cost_usd = (r.cost ∙ sym q.cost) i;
    quality_threshold = (r.threshold ∙ sym q.threshold) i;
    threshold_satisfied = g i;
    fallback_used = f i;
    eligible_candidate_count = (r.eligible ∙ length-Perm p ∙ sym q.eligible) i;
    qualifying_candidate_count =
        (r.qualifying ∙ length-select-Perm (qualifies t) p ∙ sym q.qualifying) i;
    reason = h i;
  }

  Chosen-unique :
      (d e : RoutingDecision)
      → distinct_ids xs ≡ true
      → ((a : CandidatePrediction) → In a ys → In a xs)
      → Chosen t xs d
      → Chosen t ys e
      → d ≡ e
  Chosen-unique d e u back (met s r b f) (met s' r' b' f') =
      let same : s ≡ s' = same_candidate s s' xs u r.present (back s' r'.present) (
        by_cost_antisym s s'
          (IsCheaper-by_cost s s' (b.cheapest s' (back s' r'.present) b'.acceptable))
          (IsCheaper-by_cost s' s (b'.cheapest s (In-Perm p s r.present) b.acceptable))) in
      same_report s d e r (subst (λ x. Reports t ys x e) (sym same) r') (cc) (cc) (cc)
  Chosen-unique d e u back (fell_back s r b f) (fell_back s' r' b' f') =
      let same : s ≡ s' = same_candidate s s' xs u r.present (back s' r'.present) (
        by_acceptability_antisym s s'
          (best-by_acceptability s s' (b.best s' (back s' r'.present))
            (b.cheapest s' (back s' r'.present)))
          (best-by_acceptability s' s (b'.best s (In-Perm p s r.present))
            (b'.cheapest s (In-Perm p s r.present)))) in
      same_report s d e r (subst (λ x. Reports t ys x e) (sym same) r') (cc) (cc) (cc)
  Chosen-unique d e u back (met s r b f) (fell_back s' r' b' f') =
      absurd (no_qualifier s (In-Perm p s r.present) b.acceptable b')
  Chosen-unique d e u back (fell_back s' r' b' f') (met s r b f) =
      absurd (no_qualifier s (back s r.present) b.acceptable b')

module _ (c : CandidatePrediction) (cs : List CandidatePrediction) (e : CandidatePrediction)
    (es : List CandidatePrediction) (p : Permᴰ (c ∷ cs) (e ∷ es)) (t : ℕ) where
  select_distinct-Perm : select_distinct t c cs ≡ select_distinct t e es
  select_distinct-Perm = elim (Bool-cases (distinct_ids (c ∷ cs))) [
    | inl u ↦ cc (
      select_distinct-ok t c cs u,
      select_distinct-ok t e es (sym (distinct_ids-Perm p) ∙ u),
      Chosen-unique p t _ _ u (In-Perm (Permᴰ.symm p)) (select_best-Chosen t c cs _ refl)
          (select_best-Chosen t e es _ refl),
    )
    | inr r ↦ cc (
      select_distinct-repeated t c cs r,
      select_distinct-repeated t e es (sym (distinct_ids-Perm p) ∙ r),
    )
  ]

route-Permᴰ : (xs ys : List CandidatePrediction) (v : Value) → Permᴰ xs ys → route xs v ≡ route ys v
route-Permᴰ [] [] v p = refl
route-Permᴰ [] (y ∷ ys) v p = absurd (omega (arith, length-Perm p))
route-Permᴰ (x ∷ xs) [] v p = absurd (omega (arith, length-Perm p))
route-Permᴰ (x ∷ xs) (y ∷ ys) v p = elim (Result-cases (validate_quality_threshold v)) [
  | inl (t, h) ↦
      cc (route-accepted x xs v t h, route-accepted y ys v t h, select_distinct-Perm x xs y ys p t)
  | inr (e, h) ↦ cc (route-refused x xs v e h, route-refused y ys v e h)
]

route_set : IsSet (Result RoutingDecision)
route_set = hlevel

-- The result of `route`, a decision or a refusal, does not depend on the order in which the
-- candidates are listed.
pub route-Perm :
    (xs ys : List CandidatePrediction) (v : Value) → Perm xs ys → route xs v ≡ route ys v
route-Perm xs ys v p = ∥∥₁_elim p (route_set _ _) (route-Permᴰ xs ys v)
