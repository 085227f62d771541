-- ===== src/Providers/Vercel/Reply.antt =====
-- providers/vercel.py: what becomes of a reply of the gateway, and the whole call.
use route_llm.Prelude.{
  ℕ, ◌-◌, ◌*◌, Bool, true, false, not, ◌&&◌, ◌||◌, Option, none, some, [], ◌∷◌, map, leb, ltb, ◌==◌,
  length, if◌then◌else◌,
}
use Prim.Native.Nat.{min, ◌+◌}
use route_llm.Prelude.Int.{pos}
use route_llm.Prelude.Text.{Text, codes, member}
use route_llm.Errors.{
  GatewayErrorCategory, gateway, completion_rejected, ok, err, ◌>>=◌, authentication, invalid_model,
  invalid_request, context_limit, rate_limit, timeout, upstream, malformed_response, missing_usage,
  empty_response, output_budget_exhaustion,
}
use route_llm.Models.{
  ModelConfig, InferenceRequest, InferenceResponse, TerminationReason, Result, complete,
  length_limit, tool_call, content_filter, unknown, blank,
}
use route_llm.Pricing.{calculate_cost}
use route_llm.Providers.Vercel.{
  HttpResponse, Decoded, json, not_json, crashed, Exchange, Payload, Client, VercelGatewayProvider,
  answered, timed_out, request_error, broken, prepare,
}
use route_llm.Providers.Body.{
  Value, null, Fields, object, string, integer, get, item, or, subscript, first, safe_value,
  is_safe,
}

-- `str.casefold` of a text of ASCII characters.
abbrev lower : ℕ → ℕ
lower c = if leb 65 c && leb c 90 then c + 32 else c

abbrev pub reason_of : Text → TerminationReason
reason_of t =
    if member t
      (codes "stop" ∷ codes "end_turn" ∷ codes "end" ∷ codes "complete" ∷ codes "completed" ∷ [])
    then complete
    else if member t
        (codes "length" ∷ codes "max_tokens" ∷ codes "max_output_tokens" ∷ codes "token_limit" ∷ [])
    then length_limit
    else if member t (codes "tool_call" ∷ codes "tool_calls" ∷ codes "function_call" ∷ [])
    then tool_call
    else if member t
        (codes "content_filter" ∷ codes "content_filtered" ∷ codes "safety" ∷ codes "blocked" ∷ [])
    then content_filter
    else TerminationReason.other

abbrev pub termination_of : Option Text → TerminationReason × Option Text
termination_of none = (unknown, none)
termination_of (some raw) =
    if ltb 64 (length raw) then (unknown, none) else (reason_of (map lower raw), some raw)

-- `_termination`
unfoldable pub termination : Value → TerminationReason × Option Text
termination (object fs) = termination_of (
    safe_value (
      or (or (get (codes "finish_reason") fs) (get (codes "finishReason") fs))
        (get (codes "stop_reason") fs)))
termination v = (unknown, none)

-- `response.is_success`
abbrev pub is_success : HttpResponse → Bool
is_success h = leb 200 h.status_code && leb h.status_code 299

abbrev code_in : Value → Option Text
code_in (object e) = safe_value (get (codes "code") e)
code_in v = none

-- `diagnostics.get("gateway_error_code")`
abbrev gateway_error_code : Option Value → Option Text
gateway_error_code (some (object body)) = code_in (get (codes "error") body)
gateway_error_code v = none

abbrev refused : Option Text → GatewayErrorCategory
refused none = invalid_request
refused (some code) =
    if member code (codes "model_not_found" ∷ codes "invalid_model" ∷ [])
    then invalid_model
    else if member code (codes "context_length_exceeded" ∷ codes "context_window_exceeded" ∷ [])
    then context_limit
    else invalid_request

-- The category of a response that is no success, from its body, if it has one.
unfoldable pub status_category : HttpResponse → Option Value → GatewayErrorCategory
status_category h body =
    if h.status_code == 400 || h.status_code == 422
    then refused (gateway_error_code body)
    else if h.status_code == 401 || h.status_code == 403
    then authentication
    else if h.status_code == 404
    then invalid_model
    else if h.status_code == 429
    then rate_limit
    else if h.status_code == 408 || h.status_code == 504
    then timeout
    else upstream

-- The counts of the usage: native integers that are not negative.
abbrev pub count_of : Option Value → Result ℕ
count_of (some (integer (pos n))) = ok n
count_of v = err (gateway malformed_response)

abbrev is_present : Option Value → Bool
is_present none = false
is_present (some v) = true

abbrev pub has : Text → Fields → Bool
has key fs = is_present (item key fs)

abbrev pub usage_of : Value → Result Fields
usage_of (object fs) =
    if has (codes "prompt_tokens") fs && has (codes "completion_tokens") fs
    then ok fs
    else err (gateway missing_usage)
usage_of v = err (gateway missing_usage)

-- `calculate_cost` raises a `ValueError`, which the handler turns.
abbrev pub cost_or_malformed : {A : Type 0} → Result A → Result A
cost_or_malformed (ok c) = ok c
cost_or_malformed (err e) = err (gateway malformed_response)

-- The pattern that `InferenceResponse` declares for the provider's reason.
abbrev pub valid_reason : Option Text → Bool
valid_reason none = true
valid_reason (some t) = is_safe 63 t

abbrev pub is_length : TerminationReason → Bool
is_length length_limit = true
is_length r = false

-- The completion, or its rejection.
abbrev pub weighed : InferenceResponse → Result InferenceResponse
weighed c =
    if not (valid_reason c.provider_termination_reason)
    then err (gateway malformed_response)
    else if blank c.text
    then err (completion_rejected empty_response c)
    else if is_length c.termination_reason
    then err (completion_rejected output_budget_exhaustion c)
    else ok c

abbrev pub completed : ModelConfig → ℕ → Value → Text → ℕ → ℕ → Result InferenceResponse
completed m latency choice text input output =
    cost_or_malformed (calculate_cost (pos input) (pos output) m) >>= λ cost. weighed (record {
      text = text;
      model_id = m.model_id;
      provider = m.provider;
      input_tokens = input;
      output_tokens = output;
      latency_ms = latency;
      estimated_cost_usd = cost;
      termination_reason = (termination choice).0;
      provider_termination_reason = (termination choice).1;
    })

-- `message["content"]`, which must be a text.
abbrev pub text_of : Option Value → Result Text
text_of (some (string t)) = ok t
text_of v = err (gateway malformed_response)

abbrev pub or_malformed : {A : Type 0} → Option A → Result A
or_malformed none = err (gateway malformed_response)
or_malformed (some a) = ok a

-- `body.get(key)` of a dict.
abbrev pub got : Text → Value → Value
got key (object fs) = get key fs
got key v = null

-- The body of a successful response. A subscript that fails and a value of another type are a
-- malformed response.
unfoldable pub parsed : ModelConfig → ℕ → Value → Result InferenceResponse
parsed m latency body = do
  choices ← or_malformed (subscript (codes "choices") body)
  choice ← or_malformed (first choices)
  message ← or_malformed (subscript (codes "message") choice)
  text ← text_of (subscript (codes "content") message)
  usage ← usage_of (got (codes "usage") body)
  input ← count_of (item (codes "prompt_tokens") usage)
  output ← count_of (item (codes "completion_tokens") usage)
  completed m latency choice text input output

-- The error of a response that is no success. The handler of `json()` catches a `ValueError` only.
abbrev pub failed_reply : HttpResponse → Decoded → Result InferenceResponse
failed_reply h (json body) = err (gateway (status_category h (some body)))
failed_reply h not_json = err (gateway (status_category h none))
failed_reply h (crashed e) = err e

-- The completion of a successful response; what the handler does not list leaves it.
abbrev pub completed_reply : ModelConfig → ℕ → Decoded → Result InferenceResponse
completed_reply m latency (json body) = parsed m latency body
completed_reply m latency not_json = err (gateway malformed_response)
completed_reply m latency (crashed e) = err e

-- What follows the exchange.
unfoldable pub interpret : ModelConfig → ℕ → Exchange → Result InferenceResponse
interpret m latency timed_out = err (gateway timeout)
interpret m latency request_error = err (gateway upstream)
interpret m latency (broken e) = err e
interpret m latency (answered h) =
    if not (is_success h) then failed_reply h h.body else completed_reply m latency h.body

module _ (client : Client) where
  -- The exchange, and the clock that is read behind it.
  abbrev pub posted :
      ModelConfig → ℕ → client.State × Exchange → client.State × Result InferenceResponse
  posted m started (s, answered h) =
      let (s', later) = client.perf_counter s in
      (s', interpret m ((later - started) * 1000) (answered h))
  posted m started (s, e) = (s, interpret m 0 e)

  abbrev pub sent :
      ModelConfig → ℕ → client.State → Result Payload → client.State × Result InferenceResponse
  sent m limit s (err e) = (s, err e)
  sent m limit s (ok payload) =
      let (s', started) = client.perf_counter s in posted m started (client.post payload limit s')

  -- `generate_with_timeout`
  unfoldable pub generate_with_timeout :
      VercelGatewayProvider
      → InferenceRequest
      → ℕ
      → client.State
      → client.State × Result InferenceResponse
  generate_with_timeout p r timeout_seconds s =
      sent p.model (min p.settings.timeout_seconds timeout_seconds) s (prepare p r)
