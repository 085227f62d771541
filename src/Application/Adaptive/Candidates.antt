-- ===== src/Application/Adaptive/Candidates.antt =====
-- The models that a validated execution tries.
use route_llm.Prelude.{
  ℕ, zero, suc, ◌≤◌, ◌<◌, ◌≡◌, ◌≢◌, refl, sym, ap, ◌∙◌, subst, ◌⊎◌, inl, inr, Bool, true, false,
  not, ◌||◌, List, [], ◌∷◌, map, select, take, length, length-take-le, In, In-select, if◌then◌else◌,
  arith, Bool-cases, &&-true,
}
use route_llm.Prelude.Text.{Text, text_eq, text_eq_iff, member, all_distinct}
use route_llm.Routing.Policy.{by_cost}
use route_llm.Routing.Service.{RoutingCandidateSnapshot, RoutingResult}
use route_llm.Application.Adaptive.{insert_sorted, sort_candidates, is_alternative, candidate_order}

abbrev pub ids : List RoutingCandidateSnapshot → List Text
ids = map (λ c. c.model_id)

member-insert_sorted :
    (x : Text) (c : RoutingCandidateSnapshot) (ds : List RoutingCandidateSnapshot)
    → member x (ids (insert_sorted c ds)) ≡ (text_eq x c.model_id || member x (ids ds))
unfolding insert_sorted
member-insert_sorted x c [] = refl
member-insert_sorted x c (d ∷ ds) = elim (Bool-cases (by_cost c.prediction d.prediction)) [
  | inl e ↦ rw e
  | inr e ↦ rw e (ground (arith, member-insert_sorted x c ds))
]

text_eq-sym : (a b : Text) → text_eq a b ≡ text_eq b a
text_eq-sym a b = ground (arith, text_eq_iff a b, text_eq_iff b a)

distinct-insert_sorted :
    (c : RoutingCandidateSnapshot) (ds : List RoutingCandidateSnapshot)
    → all_distinct (ids (insert_sorted c ds)) ≡ all_distinct (c.model_id ∷ ids ds)
unfolding insert_sorted
distinct-insert_sorted c [] = refl
distinct-insert_sorted c (d ∷ ds) = elim (Bool-cases (by_cost c.prediction d.prediction)) [
  | inl e ↦ rw e
  | inr e ↦ rw e (
      ground (
        arith,
        member-insert_sorted d.model_id c ds,
        distinct-insert_sorted c ds,
        text_eq-sym c.model_id d.model_id,
      ))
]

member-sort_candidates :
    (x : Text) (cs : List RoutingCandidateSnapshot)
    → member x (ids (sort_candidates cs)) ≡ member x (ids cs)
unfolding sort_candidates
member-sort_candidates x [] = refl
member-sort_candidates x (c ∷ cs) =
    member-insert_sorted x c (sort_candidates cs)
    ∙ ap (λ b. text_eq x c.model_id || b) (member-sort_candidates x cs)

distinct-sort_candidates :
    (cs : List RoutingCandidateSnapshot)
    → all_distinct (ids (sort_candidates cs)) ≡ all_distinct (ids cs)
unfolding sort_candidates
distinct-sort_candidates [] = refl
distinct-sort_candidates (c ∷ cs) =
    distinct-insert_sorted c (sort_candidates cs)
    ∙ ground (arith, member-sort_candidates c.model_id cs, distinct-sort_candidates cs)

In-insert_sorted :
    (c : RoutingCandidateSnapshot) (ds : List RoutingCandidateSnapshot)
    (x : RoutingCandidateSnapshot)
    → In x (insert_sorted c ds)
    → (x ≡ c) ⊎ In x ds
unfolding insert_sorted
In-insert_sorted c [] x (inl e) = inl e
In-insert_sorted c [] x (inr i) = absurd i
In-insert_sorted c (d ∷ ds) x i = elim (Bool-cases (by_cost c.prediction d.prediction)) [
  | inl e ↦ rw e at i
  | inr e ↦ go (In-insert_sorted c ds x) (rw e at i)
]
  where
    go :
        (In x (insert_sorted c ds) → (x ≡ c) ⊎ In x ds)
        → In x (d ∷ insert_sorted c ds)
        → (x ≡ c) ⊎ In x (d ∷ ds)
    go later (inl e) = inr (inl e)
    go later (inr j) = elim (later j) [ inl e ↦ inl e | inr k ↦ inr (inr k) ]

In-sort_candidates :
    (cs : List RoutingCandidateSnapshot) (x : RoutingCandidateSnapshot)
    → In x (sort_candidates cs)
    → In x cs
unfolding sort_candidates
In-sort_candidates [] x i = absurd i
In-sort_candidates (c ∷ cs) x i = elim (In-insert_sorted c (sort_candidates cs) x i) [
  | inl e ↦ inl e
  | inr j ↦ inr (In-sort_candidates cs x j)
]

member-select :
    (p : RoutingCandidateSnapshot → Bool) (x : Text) (cs : List RoutingCandidateSnapshot)
    → member x (ids cs) ≡ false
    → member x (ids (select p cs)) ≡ false
member-select p x [] h = refl
member-select p x (c ∷ cs) h = ground (arith, member-select p x cs)

distinct-select :
    (p : RoutingCandidateSnapshot → Bool) (cs : List RoutingCandidateSnapshot)
    → all_distinct (ids cs) ≡ true
    → all_distinct (ids (select p cs)) ≡ true
distinct-select p [] h = refl
distinct-select p (c ∷ cs) h = ground (arith, distinct-select p cs, member-select p c.model_id cs)

member-take :
    (n : ℕ) (x : Text) (xs : List Text) → member x xs ≡ false → member x (take n xs) ≡ false
member-take zero x xs h = ground arith
member-take (suc n) x [] h = refl
member-take (suc n) x (y ∷ xs) h = ground (arith, member-take n x xs)

distinct-take : (n : ℕ) (xs : List Text) → all_distinct xs ≡ true → all_distinct (take n xs) ≡ true
distinct-take zero xs h = ground arith
distinct-take (suc n) [] h = refl
distinct-take (suc n) (x ∷ xs) h = ground (arith, distinct-take n xs, member-take n x xs)

In-take : (n : ℕ) (x : Text) (xs : List Text) → In x (take n xs) → In x xs
In-take zero x xs i = absurd i
In-take (suc n) x [] i = absurd i
In-take (suc n) x (y ∷ xs) (inl e) = inl e
In-take (suc n) x (y ∷ xs) (inr i) = inr (In-take n x xs i)

In-ids :
    (x : Text) (cs : List RoutingCandidateSnapshot)
    → In x (ids cs)
    → (c : RoutingCandidateSnapshot) × In c cs × (c.model_id ≡ x)
In-ids x [] i = absurd i
In-ids x (c ∷ cs) (inl e) = (c, inl refl, sym e)
In-ids x (c ∷ cs) (inr i) = let (d, j, e) = In-ids x cs i in (d, inr j, e)

selected-member :
    (routing : RoutingResult) (cs : List RoutingCandidateSnapshot)
    → member routing.decision.selected_model_id (ids (select (is_alternative routing.decision) cs))
      ≡ false
selected-member routing [] = refl
selected-member routing (c ∷ cs) =
    ground
      (arith, selected-member routing cs, text_eq-sym c.model_id routing.decision.selected_model_id)

take-nil : (n : ℕ) → take {A = Text} n [] ≡ []
take-nil zero = refl
take-nil (suc n) = refl

true-ne-false : (b : Bool) → b ≡ true → not b ≡ true → ⊥
true-ne-false true h k = cc
true-ne-false false h k = cc

-- A model that is tried after the selected one qualifies and is another model.
pub IsAlternative : RoutingResult → Text → Type 0
IsAlternative routing id =
    (c : RoutingCandidateSnapshot) × In c routing.candidates
    × (c.model_id ≡ id)
    × (c.qualifies ≡ true)
    × (id ≢ routing.decision.selected_model_id)

-- The models that are tried, when at least one may be: first the selected one, then others.
pub record IsPlan (max_attempts : ℕ) (routing : RoutingResult) (rest : List Text) : Type 0 where
  pub planned : candidate_order max_attempts routing ≡ routing.decision.selected_model_id ∷ rest
  pub bounded : length (routing.decision.selected_model_id ∷ rest) ≤ max_attempts
  pub distinct : all_distinct (routing.decision.selected_model_id ∷ rest) ≡ true
  pub alternatives : (id : Text) → In id rest → IsAlternative routing id
  pub no_escalation : routing.decision.fallback_used ≡ true → rest ≡ []

module _ (routing : RoutingResult) where
  abbrev eligible : List RoutingCandidateSnapshot
  eligible = sort_candidates (select (is_alternative routing.decision) routing.candidates)

  eligible-IsAlternative : (id : Text) → In id (ids eligible) → IsAlternative routing id
  unfolding IsAlternative
  eligible-IsAlternative id i =
      let (c, j, e) = In-ids id eligible i in
      let (k, q) =
        In-select (is_alternative routing.decision) routing.candidates c
          (In-sort_candidates _ c j) in
      let (a, b) =
        &&-true c.qualifies (not (text_eq c.model_id routing.decision.selected_model_id)) q in
      (
        c,
        k,
        e,
        a,
        λ s. absurd (
            true-ne-false (text_eq c.model_id routing.decision.selected_model_id)
              ((text_eq_iff c.model_id routing.decision.selected_model_id).1 (e ∙ s)) b),
      )

  eligible-distinct :
      all_distinct (ids routing.candidates) ≡ true
      → all_distinct (routing.decision.selected_model_id ∷ ids eligible) ≡ true
  eligible-distinct h = ground (
    arith,
    selected-member routing routing.candidates,
    member-sort_candidates routing.decision.selected_model_id
        (select (is_alternative routing.decision) routing.candidates),
    distinct-sort_candidates (select (is_alternative routing.decision) routing.candidates),
    distinct-select (is_alternative routing.decision) routing.candidates h,
  )

  plan :
      (n : ℕ) (fallback : Bool) (others : List Text)
      → others ≡ (if not fallback then ids eligible else [])
      → candidate_order (suc n) routing ≡ routing.decision.selected_model_id ∷ take n others
      → routing.decision.fallback_used ≡ fallback
      → all_distinct (ids routing.candidates) ≡ true
      → IsPlan (suc n) routing (take n others)
  plan n false others e p f h = record {
    planned = p;
    bounded = omega (arith, length-take-le n others);
    distinct =
        distinct-take (suc n) (routing.decision.selected_model_id ∷ others)
          (rw e (eligible-distinct h));
    alternatives = λ id i. eligible-IsAlternative id (subst (In id) e (In-take n id others i));
    no_escalation = λ k. cc;
  }
  plan n true others e p f h = record {
    planned = p;
    bounded = omega (arith, length-take-le n others);
    distinct = distinct-take (suc n) (routing.decision.selected_model_id ∷ others) (rw e refl);
    alternatives = λ id i. absurd (subst (In id) e (In-take n id others i));
    no_escalation = λ k. rw e (take-nil n);
  }

  -- When the candidates are distinct and at least one attempt is allowed, the selected model is tried
  -- first and no model twice, never more models than allowed; the others are models that qualify, and
  -- there are none behind a fallback.
  pub candidate_order-IsPlan :
      (max_attempts : ℕ)
      → 0 < max_attempts
      → all_distinct (ids routing.candidates) ≡ true
      → (rest : List Text) × IsPlan max_attempts routing rest
  unfolding candidate_order
  candidate_order-IsPlan zero p h = absurd (omega arith)
  candidate_order-IsPlan (suc n) p h =
      (take n _, plan n routing.decision.fallback_used _ refl refl refl h)
