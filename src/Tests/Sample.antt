-- ===== src/Tests/Sample.antt =====
-- Sample data: models with prices, candidates, and a request.
use route_llm.Prelude.{ℕ, ◌+◌, ◌^◌, none, some, [], true}
use route_llm.Prelude.Int.{pos, negsuc}
use route_llm.Prelude.Text.{Text, codes}
use route_llm.Decimal.{Decimal}
use route_llm.Models.{
  ModelConfig, InferenceRequest, InferenceResponse, TerminationReason, gateway_shared, visible_only,
  ReasoningBehavior,
}
use route_llm.Routing.Threshold.{Value, number, finite}
use route_llm.Routing.Policy.{CandidatePrediction}

abbrev pub price_of : ℕ → Decimal
price_of n = record { coefficient = n; exponent = negsuc 2 }

abbrev pub model : Text → ℕ → ModelConfig
model id cost = record {
  model_id = id;
  provider = codes "vercel";
  provider_model_name = codes "lab/model";
  input_cost_per_1m_tokens = price_of cost;
  output_cost_per_1m_tokens = price_of cost;
  context_window = 8192;
  enabled = true;
  capabilities = record {
    supports_temperature = true;
    supports_structured_output = true;
    reasoning = ReasoningBehavior.unsupported;
    output_token_accounting = visible_only;
  };
  reasoning_effort = none;
  reasoning_control = gateway_shared;
  output_token_policy = record {
    category_overrides = [];
    reasoning_headroom_tokens = 0;
    expected_reasoning_tokens = 0;
  };
}

abbrev pub small : ModelConfig
small = model (codes "small") 10

abbrev pub large : ModelConfig
large = model (codes "large") 900

abbrev pub half : ℕ
half = 2 ^ 1073

abbrev pub half_value : Value
half_value = number (finite (pos half))

-- Both meet the threshold of one half, and the second is cheaper.
abbrev pub strong : CandidatePrediction
strong = record {
  model_id = codes "large";
  predicted_acceptability = 2 ^ 1073 + 2 ^ 1072;
  projected_cost_usd = price_of 900;
}

abbrev pub cheap : CandidatePrediction
cheap = record {
  model_id = codes "small";
  predicted_acceptability = 2 ^ 1073 + 2 ^ 1070;
  projected_cost_usd = price_of 10;
}

abbrev pub request : InferenceRequest
request = record {
  prompt = codes "sum it up";
  system_prompt = some (codes "be brief");
  max_output_tokens = 100;
  temperature = 0;
}

abbrev pub reply : Text → InferenceResponse
reply text = record {
  text = text;
  model_id = codes "small";
  provider = codes "vercel";
  input_tokens = 5;
  output_tokens = 3;
  latency_ms = 10;
  estimated_cost_usd = price_of 10;
  termination_reason = TerminationReason.complete;
  provider_termination_reason = none;
}
