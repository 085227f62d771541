-- ===== src/Tests/Gateway.antt =====
-- The adapter of the gateway with a client that always gives one reply, and the composition.
use route_llm.Prelude.{ℕ, ◌≡◌, refl, none, some, [], All}
use route_llm.Prelude.Int.{pos}
use route_llm.Prelude.Text.{codes, text_eq}
use route_llm.Errors.{ok, ◌>>=◌}
use route_llm.Models.{ModelConfig, valid_model}
use route_llm.Registry
use route_llm.Providers.Body.{Value, Fields, object, string, integer, array, nil, cons, end, field}
use route_llm.Providers.Vercel.{
  GatewaySettings, HttpResponse, json, Client, VercelGatewayProvider, answered, new_provider,
}
use route_llm.Providers.Vercel.Reply.{generate_with_timeout}
use route_llm.Providers.Vercel.Completion.{IsAnswer, generate_with_timeout-IsAnswer}
use route_llm.Providers.Portfolio.{configured}
use route_llm.Providers.Bootstrap.{
  Composition, IsUsable, create_development, configure_gateway, configure_gateway-IsUsable,
}
use route_llm.Models.{unsupported}
use route_llm.Prelude.{true}
use route_llm.Tests.Sample.{request}

abbrev nano : ModelConfig
nano =
    configured (codes "vercel") (codes "gateway-nano") (codes "openai/gpt-4.1-nano") 10 40 1047576
      true true unsupported none []

abbrev settings : GatewaySettings
settings = record { api_key = some (codes "key"); timeout_seconds = 60 }

abbrev message : Value
message = object (field (codes "content") (string (codes "hello")) end)

abbrev choice : Value
choice =
    object
      (field (codes "message") message (field (codes "finish_reason") (string (codes "stop")) end))

abbrev usage : Fields
usage =
    field (codes "prompt_tokens") (integer (pos 5))
      (field (codes "completion_tokens") (integer (pos 3)) end)

abbrev body : Fields
body = field (codes "choices") (array (cons choice nil)) (field (codes "usage") (object usage) end)

abbrev response : HttpResponse
response = record { status_code = 200; header = λ name. none; body = json (object body) }

abbrev client : Client
client = record {
  State = ℕ;
  post = λ payload limit s. (s, answered response);
  perf_counter = λ s. (s, 0);
}

abbrev provider : VercelGatewayProvider
provider = record { model = nano; settings = settings }

nano_accepted : new_provider nano settings ≡ ok provider
unfolding new_provider text_eq
nano_accepted = refl

nano_valid : valid_model nano ≡ true
unfolding valid_model
nano_valid = refl

generate_with_timeout-IsAnswer_example :
    IsAnswer client nano (generate_with_timeout client provider request 60 0).1
generate_with_timeout-IsAnswer_example =
    generate_with_timeout-IsAnswer client nano settings provider request 60 0 nano_accepted
      nano_valid

configure_gateway-IsUsable_example :
    (c : Composition) × ((create_development >>= λ d. configure_gateway d settings) ≡ ok c)
    × All (IsUsable c) (Registry.list_models c.registry)
configure_gateway-IsUsable_example = configure_gateway-IsUsable settings
