-- ===== src/Providers/Bootstrap.antt =====
-- bootstrap.py, which registers the models and the adapters, and the offline adapter of
-- providers/fake.py.
use route_llm.Prelude.{
  ℕ, ◌+◌, ◌≡◌, refl, true, false, not, Option, none, some, List, [], ◌∷◌, ltb, length, take, All,
  if◌then◌else◌,
}
use route_llm.Prelude.Int.{pos}
use route_llm.Prelude.Text.{Text, codes, text_eq, strip, split, join_with}
use route_llm.Errors.{model_disabled, context_limit_exceeded, value_error, ok, err, ◌>>=◌}
use route_llm.Models.{
  ModelConfig, InferenceRequest, InferenceResponse, Result, complete, unsupported, valid_model,
}
use route_llm.Pricing.{calculate_cost}
use route_llm.Registry
use route_llm.Registry.{ModelRegistry, ProviderResolver, register, register_factory}
use route_llm.Providers.Vercel.{GatewaySettings, VercelGatewayProvider, new_provider}
use route_llm.Providers.Portfolio.{configured, real_models}

-- `FakeProvider`, bound to its model.
pub record FakeProvider : Type 0 where
  pub model : ModelConfig

-- The constructor.
unfoldable pub new_fake : ModelConfig → Result FakeProvider
new_fake m =
    if not (text_eq m.provider (codes "fake")) then err value_error else ok (record { model = m })

abbrev words_of : Option Text → List Text
words_of none = []
words_of (some t) = split t

abbrev echoed : ModelConfig → ℕ → List Text → Result InferenceResponse
echoed m input output = calculate_cost (pos input) (pos (length output)) m >>= λ cost. ok (record {
  text = join_with 32 output;
  model_id = m.model_id;
  provider = m.provider;
  input_tokens = input;
  output_tokens = length output;
  latency_ms = 0;
  estimated_cost_usd = cost;
  termination_reason = complete;
  provider_termination_reason = some (codes "synthetic_stop");
})

-- `FakeProvider.generate`
unfoldable pub fake_generate : FakeProvider → InferenceRequest → Result InferenceResponse
fake_generate p r =
    let input = length (split r.prompt) + length (words_of r.system_prompt) in
    if not p.model.enabled
    then err model_disabled
    else if ltb p.model.context_window (input + r.max_output_tokens)
    then err context_limit_exceeded
    else echoed p.model input (take r.max_output_tokens (split r.prompt))

-- What the factories build.
pub data Adapter : Type 0 where
  fake : FakeProvider → Adapter
  vercel : VercelGatewayProvider → Adapter

-- The registry and the resolver of the service.
pub record Composition : Type 0 where
  pub registry : ModelRegistry
  pub resolver : ProviderResolver Adapter

unfoldable pub register_all : List ModelConfig → ModelRegistry → Result ModelRegistry
register_all [] r = ok r
register_all (m ∷ ms) r = register m r >>= register_all ms

abbrev fake_model : Text → ℕ → ℕ → ℕ → ModelConfig
fake_model id input output context =
    configured (codes "fake") id (codes "echo-v1") input output context true false unsupported none
      []

abbrev fake_factory : ModelConfig → Result Adapter
fake_factory m = new_fake m >>= λ p. ok (fake p)

abbrev vercel_factory : GatewaySettings → ModelConfig → Result Adapter
vercel_factory settings m = new_provider m settings >>= λ p. ok (vercel p)

-- `create_development_service`
unfoldable pub create_development : Result Composition
unfolding register_all
create_development =
    register_all
      (fake_model (codes "fake-small") 15 60 4096
        ∷ fake_model (codes "fake-large") 100 300 16384
        ∷ [])
      (record { models = [] })
    >>= λ registry.
        register_factory (codes "fake") fake_factory (record { factories = [] }) >>= λ resolver.
        ok (record { registry = registry; resolver = resolver })

-- `configure_gateway`, from the key of the settings.
abbrev with_key : Composition → GatewaySettings → Option Text → Result Composition
with_key c settings none = ok c
with_key c settings (some key) = register_all real_models c.registry >>= λ registry.
    register_factory (codes "vercel") (vercel_factory settings) c.resolver >>= λ resolver.
    ok (record { registry = registry; resolver = resolver })

unfoldable pub configure_gateway : Composition → GatewaySettings → Result Composition
configure_gateway c settings = with_key c settings settings.api_key

-- The model satisfies the validator of its type, its name denotes it, and its provider has an adapter
-- that accepts it.
abbrev pub IsUsable : Composition → ModelConfig → Type 0
IsUsable c m =
    (valid_model m ≡ true)
    × (Registry.get m.model_id c.registry ≡ ok m)
    × (a : Adapter) × (Registry.resolve m c.resolver ≡ ok a)

-- Whatever the settings of the gateway are, the composition succeeds, and every model that it
-- registers can be used: no name is registered twice, and no model is left without an adapter.
pub configure_gateway-IsUsable :
    (settings : GatewaySettings)
    → (c : Composition) × ((create_development >>= λ d. configure_gateway d settings) ≡ ok c)
      × All (IsUsable c) (Registry.list_models c.registry)
unfolding configure_gateway create_development register_all register register_factory new_fake
    new_provider valid_model Registry.get Registry.resolve Registry.list_models text_eq strip
configure_gateway-IsUsable settings = go settings.api_key
  where
    go :
        (key : Option Text)
        → (c : Composition) × ((create_development >>= λ d. with_key d settings key) ≡ ok c)
          × All (IsUsable c) (Registry.list_models c.registry)
    go none = (_, refl, ((refl, refl, _, refl), ((refl, refl, _, refl), tt)))
    go (some key) = (
      _,
      refl,
      (
        (refl, refl, _, refl),
        (
          (refl, refl, _, refl),
          (
            (refl, refl, _, refl),
            (
              (refl, refl, _, refl),
              (
                (refl, refl, _, refl),
                (
                  (refl, refl, _, refl),
                  ((refl, refl, _, refl), ((refl, refl, _, refl), ((refl, refl, _, refl), tt))),
                ),
              ),
            ),
          ),
        ),
      ),
    )
