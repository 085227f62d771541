-- ===== src/Registry/Laws.antt =====
-- What is registered is found, keeps its place, and is never replaced.
use route_llm.Prelude.{
  true, false, ◌≡◌, refl, ◌⊎◌, inl, inr, none, some, [], ◌∷◌, ◌++◌, map, arith, if◌then◌else◌,
  Bool-cases,
}
use route_llm.Prelude.Text.{Text, text_eq, text_eq_iff}
use route_llm.Errors.{ok, err, duplicate_model, model_not_found}
use route_llm.Models.{ModelConfig}
use route_llm.Registry.{Dict, find, has, insert_new, ModelRegistry, register, get, list_models}

module _ {V : Type 0} where
  find-insert_new :
      (key j : Text) (v : V) (d : Dict V)
      → has key d ≡ false
      → find j (insert_new key v d) ≡ (if text_eq key j then some v else find j d)
  find-insert_new key j v [] h = refl
  find-insert_new key j v ((k, w) ∷ d) h =
      ground
        (arith, find-insert_new key j v d, text_eq_iff k key, text_eq_iff k j, text_eq_iff key j)

  values-insert_new :
      (key : Text) (v : V) (d : Dict V)
      → map (λ i. i.1) (insert_new key v d) ≡ map (λ i. i.1) d ++ v ∷ []
  values-insert_new key v [] = refl
  values-insert_new key v ((k, w) ∷ d) = rw (values-insert_new key v d)

  find-has_not : (key : Text) (d : Dict V) → has key d ≡ false → find key d ≡ none
  find-has_not key [] h = refl
  find-has_not key ((k, w) ∷ d) h = ground (arith, find-has_not key d)

  find-has : (key : Text) (d : Dict V) → has key d ≡ true → (v : V) × (find key d ≡ some v)
  find-has key [] h = cc
  find-has key ((k, w) ∷ d) h = elim (Bool-cases (text_eq k key)) [
    | inl e ↦ (w, rw e)
    | inr e ↦ let (v, there) = find-has key d (rw e at h) in (v, rw e there)
  ]

-- What a registration leaves: its model under its identifier, last in the list, and all else as it
-- was.
pub record IsRegistered (m : ModelConfig) (r s : ModelRegistry) : Type 0 where
  pub found : (id : Text) → get id s ≡ (if text_eq m.model_id id then ok m else get id r)
  pub listed : list_models s ≡ list_models r ++ m ∷ []

get-insert_new :
    (m : ModelConfig) (r : ModelRegistry) (id : Text)
    → has m.model_id r.models ≡ false
    → get id (record { models = insert_new m.model_id m r.models })
      ≡ (if text_eq m.model_id id then ok m else get id r)
unfolding get
get-insert_new m r id h = ground (arith, find-insert_new m.model_id id m r.models)

-- A model is registered exactly when its identifier is new; it is then found under it and listed
-- last, and no other lookup changes. A second model of the same identifier is refused.
pub register_lem :
    (m : ModelConfig) (r : ModelRegistry)
    → ((s : ModelRegistry) × (register m r ≡ ok s)
        × (get m.model_id r ≡ err model_not_found)
        × IsRegistered m r s)
      ⊎ ((n : ModelConfig) × (register m r ≡ err duplicate_model) × (get m.model_id r ≡ ok n))
unfolding register list_models
register_lem m r = elim (Bool-cases (has m.model_id r.models)) [
  | inl e ↦ let (n, there) = find-has m.model_id r.models e in inr (n, rw e, unfold get in rw there)
  | inr e ↦ inl (
    record { models = insert_new m.model_id m r.models },
    rw e,
    unfold get in rw (find-has_not m.model_id r.models e),
    record {
      found = λ id. get-insert_new m r id e;
      listed = values-insert_new m.model_id m r.models;
    },
  )
]
