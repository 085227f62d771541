-- ===== src/Registry.antt =====
-- registry/model_registry.py and providers/resolver.py: two dictionaries that keep the order of
-- insertion, one of models and one of adapter factories.
pub mod Laws
use route_llm.Prelude.{
  Bool, true, false, Option, none, some, List, [], ◌∷◌, ◌++◌, map, select, is_empty, if◌then◌else◌,
}
use route_llm.Prelude.Text.{Text, text_eq, strip}
use route_llm.Errors.{ok, err, duplicate_model, model_not_found, value_error, provider_unavailable}
use route_llm.Models.{ModelConfig, Result}

-- A Python dict: its items, in the order of insertion.
abbrev pub Dict {ℓ} : Type ℓ → Type ℓ
Dict V = List (Text × V)

module _ {ℓ} {V : Type ℓ} where
  -- `d.get(key)`
  abbrev pub find : Text → Dict V → Option V
  find key [] = none
  find key ((k, v) ∷ d) = if text_eq k key then some v else find key d

  -- `key in d`
  abbrev pub has : Text → Dict V → Bool
  has key [] = false
  has key ((k, v) ∷ d) = if text_eq k key then true else has key d

  -- `d[key] = value` for a key that is not there.
  abbrev pub insert_new : Text → V → Dict V → Dict V
  insert_new key v d = d ++ ((key, v) ∷ [])

  abbrev pub values : Dict V → List V
  values = map (λ i. i.1)

-- `ModelRegistry`
pub record ModelRegistry : Type 0 where
  pub models : Dict ModelConfig

unfoldable pub register : ModelConfig → ModelRegistry → Result ModelRegistry
register m r =
    if has m.model_id r.models
    then err duplicate_model
    else ok (record { models = insert_new m.model_id m r.models })

abbrev or_missing : Option ModelConfig → Result ModelConfig
or_missing none = err model_not_found
or_missing (some m) = ok m

unfoldable pub get : Text → ModelRegistry → Result ModelConfig
get model_id r = or_missing (find model_id r.models)

unfoldable pub list_models : ModelRegistry → List ModelConfig
list_models r = values r.models

unfoldable pub list_enabled_models : ModelRegistry → List ModelConfig
list_enabled_models r = select (λ m. m.enabled) (values r.models)

-- `ProviderResolver`, over the type of the adapters; a factory may raise.
pub record ProviderResolver (Provider : Type 0) : Type 0 where
  pub factories : Dict (ModelConfig → Result Provider)

module _ {Provider : Type 0} where
  unfoldable pub register_factory :
      Text
      → (ModelConfig → Result Provider)
      → ProviderResolver Provider
      → Result (ProviderResolver Provider)
  register_factory provider factory r =
      let name = strip provider in
      if is_empty name
      then err value_error
      else if has name r.factories
      then err value_error
      else ok (record { factories = insert_new name factory r.factories })

  unfoldable pub supports : Text → ProviderResolver Provider → Bool
  supports provider r = has provider r.factories

  abbrev build : ModelConfig → Option (ModelConfig → Result Provider) → Result Provider
  build m none = err provider_unavailable
  build m (some factory) = factory m

  unfoldable pub resolve : ModelConfig → ProviderResolver Provider → Result Provider
  resolve m r = build m (find m.provider r.factories)
