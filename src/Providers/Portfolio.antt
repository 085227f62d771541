-- ===== src/Providers/Portfolio.antt =====
-- providers/gateway_config.py: the reviewed portfolio of models.
use route_llm.Prelude.{ℕ, true, false, Bool, Option, none, some, List, [], ◌∷◌, ◌++◌}
use route_llm.Prelude.Int.{negsuc}
use route_llm.Prelude.Text.{Text, codes}
use route_llm.Decimal.{Decimal}
use route_llm.Models.{
  ModelConfig, CategoryOutputTokenAllowance, ReasoningBehavior, ReasoningEffort, gateway_shared,
  visible_only, unsupported, provider_default, adaptive, no_effort, low,
}

-- A price with two places.
abbrev pub cents : ℕ → Decimal
cents n = record { coefficient = n; exponent = negsuc 1 }

-- A model with the fields that differ; the others have their defaults.
abbrev pub configured :
    (provider id name : Text) (input output context : ℕ) (temperature structured : Bool)
    (reasoning : ReasoningBehavior) (effort : Option ReasoningEffort)
    (overrides : List CategoryOutputTokenAllowance)
    → ModelConfig
configured provider id name input output context temperature structured reasoning effort overrides =
    record {
      model_id = id;
      provider = provider;
      provider_model_name = name;
      input_cost_per_1m_tokens = cents input;
      output_cost_per_1m_tokens = cents output;
      context_window = context;
      enabled = true;
      capabilities = record {
        supports_temperature = temperature;
        supports_structured_output = structured;
        reasoning = reasoning;
        output_token_accounting = visible_only;
      };
      reasoning_effort = effort;
      reasoning_control = gateway_shared;
      output_token_policy = record {
        category_overrides = overrides;
        reasoning_headroom_tokens = 0;
        expected_reasoning_tokens = 0;
      };
    }

abbrev pub legacy_models : List ModelConfig
legacy_models =
    configured (codes "vercel") (codes "gateway-nano") (codes "openai/gpt-4.1-nano") 10 40 1047576
      true true unsupported none []
    ∷ configured (codes "vercel") (codes "gateway-mini") (codes "openai/gpt-4.1-mini") 40 160
        1047576 true true unsupported none []
    ∷ configured (codes "vercel") (codes "gateway-sonnet") (codes "anthropic/claude-sonnet-4.6") 300
        1500 1000000 true true provider_default none []
    ∷ []

abbrev pub candidate_models : List ModelConfig
candidate_models =
    configured (codes "vercel") (codes "candidate-nemotron-3.5-lightning")
      (codes "nvidia/nemotron-3.5-lightning") 5 15 262144 true true provider_default
      (some no_effort) []
    ∷ configured (codes "vercel") (codes "candidate-gpt-6-luna") (codes "openai/gpt-6-luna") 10 50
        1050000 true true provider_default (some low) []
    ∷ configured (codes "vercel") (codes "candidate-gemini-3-flash") (codes "google/gemini-3-flash")
        50 300 1000000 true true provider_default (some low)
        (record { category = codes "reasoning"; max_output_tokens = 256 } ∷ [])
    ∷ configured (codes "vercel") (codes "candidate-claude-sonnet-5")
        (codes "anthropic/claude-sonnet-5") 200 1000 1000000 false true provider_default (some low)
        []
    ∷ []

abbrev pub judge_selection_models : List ModelConfig
judge_selection_models =
    configured (codes "vercel") (codes "judge-opus-5.5") (codes "anthropic/claude-opus-5.5") 400
      2000 1000000 false false adaptive none []
    ∷ configured (codes "vercel") (codes "judge-gpt-6-astra") (codes "openai/gpt-6-astra") 1000 5000
        1050000 false true provider_default none []
    ∷ configured (codes "vercel") (codes "judge-fable-5.1") (codes "anthropic/claude-fable-5.1")
        1000 5000 1000000 true true provider_default none []
    ∷ []

abbrev pub real_models : List ModelConfig
real_models = legacy_models ++ candidate_models

abbrev pub semantic_judge_models : List ModelConfig
semantic_judge_models = real_models ++ judge_selection_models
