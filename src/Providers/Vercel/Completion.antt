-- ===== src/Providers/Vercel/Completion.antt =====
-- What leaves the adapter of providers/vercel.py.
use route_llm.Prelude.{
  ℕ, ◌≡◌, refl, sym, ap, inl, inr, ◌⊎◌, Bool, true, false, not, ◌&&◌, Option, none, some, is_empty,
  if◌then◌else◌, arith, Bool-cases, Option-cases,
}
use route_llm.Prelude.Int.{pos}
use route_llm.Prelude.Text.{Text, codes, text_eq, strip}
use route_llm.Errors
use route_llm.Errors.{
  GatewayErrorCategory, gateway, completion_rejected, model_disabled, ok, err, ok-injective,
  err-injective, >>=-ok, empty_response, output_budget_exhaustion, malformed_response, Result-cases,
}
use route_llm.Models.{
  ModelConfig, InferenceRequest, InferenceResponse, ReasoningEffort, Result, Error, blank,
  valid_model, is_native, is_effective,
}
use Prim.Native.Nat.{min}
use route_llm.Pricing.{calculate_cost}
use route_llm.Registry.{find}
use route_llm.Providers.Body.{Value, object, string, integer, item, subscript, first}
use route_llm.Providers.Vercel.{
  GatewaySettings, HttpResponse, Exchange, Payload, Client, VercelGatewayProvider, answered,
  Decoded, json, not_json, crashed, timed_out, request_error, broken, new_provider, prepare,
  upstream_providers, keyed, addressed, has_effort,
}
use route_llm.Providers.Vercel.Reply.{
  has, is_success, valid_reason, is_length, weighed, completed, parsed, or_malformed, text_of,
  usage_of, count_of, got, interpret, failed_reply, completed_reply, sent, posted,
  generate_with_timeout,
}

-- The numbers of a completion are those of the model's prices, and it bears the model's names.
pub record IsPriced (m : ModelConfig) (x : InferenceResponse) : Type 0 where
  pub model : x.model_id ≡ m.model_id
  pub provider : x.provider ≡ m.provider
  pub cost : calculate_cost (pos x.input_tokens) (pos x.output_tokens) m ≡ ok x.estimated_cost_usd

-- What a body can lead to.
pub data IsParsed (m : ModelConfig) (res : Result InferenceResponse) : Type 0 where
  completion :
      (x : InferenceResponse)
      → IsPriced m x
      → blank x.text ≡ false
      → is_length x.termination_reason ≡ false
      → res ≡ ok x
      → IsParsed m res
  empty :
      (x : InferenceResponse)
      → IsPriced m x
      → blank x.text ≡ true
      → res ≡ err (completion_rejected empty_response x)
      → IsParsed m res
  cut :
      (x : InferenceResponse)
      → IsPriced m x
      → is_length x.termination_reason ≡ true
      → res ≡ err (completion_rejected output_budget_exhaustion x)
      → IsParsed m res
  refused : (c : GatewayErrorCategory) → res ≡ err (gateway c) → IsParsed m res

weighed-IsParsed : (m : ModelConfig) (x : InferenceResponse) → IsPriced m x → IsParsed m (weighed x)
weighed-IsParsed m x p = elim (Bool-cases (not (valid_reason x.provider_termination_reason))) [
  | inl a ↦ rw a (refused _ refl)
  | inr a ↦ elim (Bool-cases (blank x.text)) [
    | inl b ↦ rw (a, b) (empty x p b refl)
    | inr b ↦ elim (Bool-cases (is_length x.termination_reason)) [
      | inl c ↦ rw (a, b, c) (cut x p c refl)
      | inr c ↦ rw (a, b, c) (completion x p b c refl)
    ]
  ]
]

completed-IsParsed :
    (m : ModelConfig) (latency : ℕ) (choice : Value) (text : Text) (input output : ℕ)
    → IsParsed m (completed m latency choice text input output)
completed-IsParsed m latency choice text input output =
    elim (Result-cases (calculate_cost (pos input) (pos output) m)) [
      | inl (c, e) ↦
          rw e (weighed-IsParsed m _ (record { model = refl; provider = refl; cost = e }))
      | inr (x, e) ↦ rw e (refused _ refl)
    ]

-- A chain whose first part only refuses.
chained :
    {A : Type 0} (m : ModelConfig) (f : A → Result InferenceResponse) (r : Result A)
    → ((e : Error) → r ≡ err e → (c : GatewayErrorCategory) × (e ≡ gateway c))
    → ((a : A) → IsParsed m (f a))
    → IsParsed m (Errors.◌>>=◌ r f)
chained m f (ok a) h k = k a
chained m f (err e) h k = let (c, q) = h e refl in refused c (ap err q)

abbrev Refuses : {A : Type 0} → Result A → Type 0
Refuses r = (e : Error) → r ≡ err e → (c : GatewayErrorCategory) × (e ≡ gateway c)

or_malformed-Refuses : {A : Type 0} (o : Option A) → Refuses (or_malformed o)
or_malformed-Refuses none e h = (_, sym (err-injective h))
or_malformed-Refuses (some a) e h = cc

malformed-Refuses : {A : Type 0} → Refuses {A = A} (err (gateway malformed_response))
malformed-Refuses e h = (_, sym (err-injective h))

text_of-Refuses : (o : Option Value) → Refuses (text_of o)
text_of-Refuses (some (string t)) e h = cc
text_of-Refuses (some v) e h = (_, sym (err-injective h))
text_of-Refuses none e h = (_, sym (err-injective h))

count_of-Refuses : (o : Option Value) → Refuses (count_of o)
count_of-Refuses (some (integer (pos n))) e h = cc
count_of-Refuses (some v) e h = (_, sym (err-injective h))
count_of-Refuses none e h = (_, sym (err-injective h))

usage_of-Refuses : (v : Value) → Refuses (usage_of v)
usage_of-Refuses (object fs) e h =
    elim (Bool-cases (has (codes "prompt_tokens") fs && has (codes "completion_tokens") fs)) [
      | inl b ↦ cc (rw b at h)
      | inr b ↦ (_, sym (err-injective (rw b at h)))
    ]
usage_of-Refuses v e h = (_, sym (err-injective h))

parsed-IsParsed :
    (m : ModelConfig) (latency : ℕ) (body : Value) → IsParsed m (parsed m latency body)
unfolding parsed
parsed-IsParsed m latency body =
    chained m _ (or_malformed (subscript (codes "choices") body)) (or_malformed-Refuses _)
      (λ choices. chained m _ (or_malformed (first choices)) (or_malformed-Refuses _) (λ choice.
        chained m _ (or_malformed (subscript (codes "message") choice)) (or_malformed-Refuses _)
          (λ message.
            chained m _ (text_of (subscript (codes "content") message)) (text_of-Refuses _) (λ text.
              chained m _ (usage_of (got (codes "usage") body)) (usage_of-Refuses _) (λ usage.
                chained m _ (count_of (item (codes "prompt_tokens") usage)) (count_of-Refuses _)
                  (λ input.
                    chained m _ (count_of (item (codes "completion_tokens") usage))
                      (count_of-Refuses _)
                      (λ output. completed-IsParsed m latency choice text input output)))))))

-- What the adapter answers: what a body leads to, the refusal of a disabled model, or an exception of
-- the client that is no timeout and no failed request, or one of `json()` that is not caught.
pub data IsAnswer (client : Client) (m : ModelConfig) (res : Result InferenceResponse)
    : Type 0 where
  from_reply : m.enabled ≡ true → IsParsed m res → IsAnswer client m res
  disabled : m.enabled ≡ false → res ≡ err model_disabled → IsAnswer client m res
  undecoded :
      (payload : Payload) (limit : ℕ) (s : client.State) (h : HttpResponse) (e : Error)
      → m.enabled ≡ true
      → (client.post payload limit s).1 ≡ answered h
      → h.body ≡ crashed e
      → res ≡ err e
      → IsAnswer client m res
  raised :
      (payload : Payload) (limit : ℕ) (s : client.State) (e : Error)
      → m.enabled ≡ true
      → (client.post payload limit s).1 ≡ broken e
      → res ≡ err e
      → IsAnswer client m res

module _ (client : Client) (m : ModelConfig) (on : m.enabled ≡ true) where
  interpret-IsParsed :
      (latency : ℕ) (h : HttpResponse)
      → IsParsed m (interpret m latency (answered h))
        ⊎ (e : Error) × (h.body ≡ crashed e) × (interpret m latency (answered h) ≡ err e)
  unfolding interpret
  interpret-IsParsed latency h = elim (Bool-cases (not (is_success h))) [
    | inl b ↦ rw b (failed h.body refl)
    | inr b ↦ rw b (successful h.body refl)
  ]
    where
      failed :
          (d : Decoded)
          → h.body ≡ d
          → IsParsed m (failed_reply h d)
            ⊎ (e : Error) × (h.body ≡ crashed e) × (failed_reply h d ≡ err e)
      failed (json body) q = inl (refused _ refl)
      failed not_json q = inl (refused _ refl)
      failed (crashed e) q = inr (e, q, refl)

      successful :
          (d : Decoded)
          → h.body ≡ d
          → IsParsed m (completed_reply m latency d)
            ⊎ (e : Error) × (h.body ≡ crashed e) × (completed_reply m latency d ≡ err e)
      successful (json body) q = inl (parsed-IsParsed m latency body)
      successful not_json q = inl (refused _ refl)
      successful (crashed e) q = inr (e, q, refl)

  posted-IsAnswer :
      (started : ℕ) (payload : Payload) (limit : ℕ) (s z : client.State) (x : Exchange)
      → (client.post payload limit s).1 ≡ x
      → IsAnswer client m (posted client m started (z, x)).1
  unfolding interpret
  posted-IsAnswer started payload limit s z (answered h) e = elim (interpret-IsParsed _ h) [
    | inl p ↦ from_reply on p
    | inr (x, b, q) ↦ undecoded payload limit s h x on e b q
  ]
  posted-IsAnswer started payload limit s z timed_out e = from_reply on (refused _ refl)
  posted-IsAnswer started payload limit s z request_error e = from_reply on (refused _ refl)
  posted-IsAnswer started payload limit s z (broken f) e = raised payload limit s f on e refl

  sent-IsAnswer :
      (limit : ℕ) (s : client.State) (r : Result Payload)
      → Refuses r
      → IsAnswer client m (sent client m limit s r).1
  sent-IsAnswer limit s (err e) h = let (c, q) = h e refl in from_reply on (refused c (ap err q))
  sent-IsAnswer limit s (ok payload) h =
      posted-IsAnswer (client.perf_counter s).1 payload limit (client.perf_counter s).0
        (client.post payload limit (client.perf_counter s).0).0
        (client.post payload limit (client.perf_counter s).0).1 refl

is_effective-has_effort :
    (o : Option ReasoningEffort) → has_effort o ≡ false → is_effective o ≡ false
is_effective-has_effort none h = refl
is_effective-has_effort (some e) h = cc

-- A model that may be registered has an upstream, and an effort where it needs one.
addressed-Refuses :
    (m : ModelConfig) (r : InferenceRequest) (key only : Text)
    → valid_model m ≡ true
    → Refuses (addressed m r key (some only))
unfolding valid_model
addressed-Refuses m r key only v e h =
    elim (Bool-cases (is_native m.reasoning_control && not (has_effort m.reasoning_effort))) [
      | inl b ↦ absurd (ground (arith, is_effective-has_effort m.reasoning_effort))
      | inr b ↦ cc (rw b at h)
    ]

keyed-Refuses :
    (m : ModelConfig) (r : InferenceRequest) (key : Option Text) (only : Text)
    → find m.provider_model_name upstream_providers ≡ some only
    → valid_model m ≡ true
    → Refuses (keyed m r key)
keyed-Refuses m r none only f v e h = (_, sym (err-injective h))
keyed-Refuses m r (some key) only f v e h = elim (Bool-cases (is_empty (strip key))) [
  | inl b ↦ (_, sym (err-injective (rw b at h)))
  | inr b ↦ addressed-Refuses m r key only v e (rw (b, f) at h)
]

new_provider-ok :
    (m : ModelConfig) (settings : GatewaySettings) (p : VercelGatewayProvider)
    → new_provider m settings ≡ ok p
    → (p ≡ record { model = m; settings = settings })
      × (only : Text) × (find m.provider_model_name upstream_providers ≡ some only)
unfolding new_provider
new_provider-ok m settings p h = elim (Bool-cases (not (text_eq m.provider (codes "vercel")))) [
  | inl b ↦ cc (rw b at h)
  | inr b ↦ elim (Option-cases (find m.provider_model_name upstream_providers)) [
    | inl f ↦ cc (rw (b, f) at h)
    | inr (only, f) ↦ (sym (ok-injective (rw (b, f) at h)), only, f)
  ]
]

-- Whatever the gateway replies, an adapter that was constructed for a valid model answers with a
-- completion that has text, was not cut off, bears the names of the model and has the cost of its
-- tokens; or with the rejection of one that has no text or was cut off, which carries it with its
-- cost; or with a categorised error. A disabled model is refused. Other exceptions are the client's
-- own: one of the exchange that is no timeout and no failed request, or one that its decoder of JSON
-- raises and that is none of the four classes that the adapter turns.
pub generate_with_timeout-IsAnswer :
    (client : Client) (m : ModelConfig) (settings : GatewaySettings) (p : VercelGatewayProvider)
    (r : InferenceRequest) (timeout_seconds : ℕ) (s : client.State)
    → new_provider m settings ≡ ok p
    → valid_model m ≡ true
    → IsAnswer client m (generate_with_timeout client p r timeout_seconds s).1
unfolding generate_with_timeout prepare
generate_with_timeout-IsAnswer client m settings p r timeout_seconds s h v =
    let (same, only, f) = new_provider-ok m settings p h in rw same (go m.enabled refl only f)
  where
    go :
        (b : Bool)
        → m.enabled ≡ b
        → (only : Text) → find m.provider_model_name upstream_providers ≡ some only
        → IsAnswer client m
            (sent client m
              (min settings.timeout_seconds timeout_seconds)
              s
              (if not b then err model_disabled else keyed m r settings.api_key)).1
    go false e only f = disabled e refl
    go true e only f =
        sent-IsAnswer client m e _ s (keyed m r settings.api_key)
          (keyed-Refuses m r settings.api_key only f v)
