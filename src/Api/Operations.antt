-- ===== src/Api/Operations.antt =====
-- api/routes.py: the handlers that run no inference: readiness, the scrape endpoint and the models.
use route_llm.Prelude.{
  ℕ, zero, suc, ◌≡◌, refl, ap, ◌∙◌, ◌⊎◌, inl, inr, Bool, true, false, not, ◌&&◌, ◌||◌, Option, none,
  some, List, [], ◌∷◌, ◌++◌, map, all, In, ltb, leb, length, is_empty, if◌then◌else◌, arith,
  Bool-cases, &&-true, ==_iff,
}
use route_llm.Prelude.Text.{Text, codes, text_eq, text_eq_iff}
use route_llm.Errors.{ok, err, type_error, cancelled, ok-injective}
use route_llm.Models.{ModelConfig, Result, starts_with}
use route_llm.Application.World.{
  Environment, System, Act, ◌>>=◌, return, attempt, observe, dependency_degraded,
}
use route_llm.Application.Inference.{is_cancelled}
use route_llm.Application.Inference.Outcome.{is_cancelled_iff}
use route_llm.Application.Inference.Service.{available_models}
use route_llm.Application.Chat.{AdaptiveRuntime}
use route_llm.Api.Routes.{Application}

-- `PublicModel`
pub record PublicModel : Type 0 where
  pub model_id : Text
  pub provider : Text
  pub context_window : ℕ

abbrev public_model : ModelConfig → PublicModel
public_model m = record {
  model_id = m.model_id;
  provider = m.provider;
  context_window = m.context_window;
}

abbrev runtime_set : {env : Environment} → Option (AdaptiveRuntime env) → Bool
runtime_set none = false
runtime_set (some r) = true

-- The name of the first dependency that is not ready.
abbrev degraded : Bool → Bool → Bool → Text
degraded initialized providers adaptive =
    if not initialized
    then codes "initialization"
    else if not providers
    then codes "provider_registry"
    else if not adaptive
    then codes "adaptive_routing"
    else codes "redis"

-- `bool(result)` of the ping; an exception is no readiness.
abbrev or_false : Result Bool → Bool
or_false (ok b) = b
or_false (err e) = false

module _ {env : Environment} (a : Application env) where
  -- `list_models`
  unfoldable pub list_models : List PublicModel
  list_models = map public_model (available_models a.inference_service)

  abbrev pub providers_available : Bool
  providers_available = not (is_empty (available_models a.inference_service))

  abbrev pub adaptive_available : Bool
  adaptive_available = not a.adaptive_required || runtime_set a.adaptive_runtime

  abbrev pub concluded : Bool → Act env ℕ
  concluded redis =
      if a.initialized && providers_available && adaptive_available && redis then return 200 else do
        _ ←
            observe
              (dependency_degraded (degraded a.initialized providers_available adaptive_available))
        return 503

  -- `ready`, the status of its response; a cancellation of the ping passes through.
  abbrev pub weighed : Result Bool → Act env ℕ
  weighed (err e) = if is_cancelled e then (λ s. (err e, s)) else concluded false
  weighed (ok b) = concluded b

  unfoldable pub ready : Act env ℕ
  ready = do redis ← attempt a.limiter_ready; weighed redis

-- `ObservabilitySettings`
pub record ObservabilitySettings : Type 0 where
  pub metrics_enabled : Bool
  pub metrics_bearer_token : Option Text

abbrev token_fits : Bool → Option Text → Bool
token_fits enabled none = not enabled
token_fits enabled (some t) = leb 32 (length t)

-- The minimum length of the token, and `require_token_when_enabled`.
unfoldable pub valid_observability : ObservabilitySettings → Bool
valid_observability s = token_fits s.metrics_enabled s.metrics_bearer_token

-- `s[n:]`
abbrev drop : ℕ → Text → Text
drop n [] = []
drop zero t = t
drop (suc n) (c ∷ cs) = drop n cs

abbrev candidate_of : Text → Text
candidate_of authorization =
    if starts_with authorization (codes "Bearer ") then drop 7 authorization else []

-- `hmac.compare_digest` of two texts, which must be of ASCII characters.
abbrev is_ascii : Text → Bool
is_ascii = all (λ c. ltb c 128)

abbrev pub compare_digest : Text → Text → Result Bool
compare_digest a b = if is_ascii a && is_ascii b then ok (text_eq a b) else err type_error

abbrev authorised : Result Bool → Result ℕ
authorised (err e) = err e
authorised (ok b) = ok (if b then 200 else 401)

abbrev for_token : Text → Option Text → Result ℕ
for_token authorization none = ok 404
for_token authorization (some expected) =
    authorised (compare_digest (candidate_of authorization) expected)

-- `prometheus_metrics`, the status of its response to the header, which is empty where it is absent.
unfoldable pub prometheus_metrics : ObservabilitySettings → Text → Result ℕ
prometheus_metrics s authorization =
    if not s.metrics_enabled then ok 404 else for_token authorization s.metrics_bearer_token

pub record IsReady {env : Environment} (a : Application env) (redis : Result Bool) : Type 0 where
  pub initialized : a.initialized ≡ true
  pub model : ModelConfig
  pub available : In model (available_models a.inference_service)
  pub adaptive :
      a.adaptive_required ≡ true → (r : AdaptiveRuntime env) × (a.adaptive_runtime ≡ some r)
  pub pinged : redis ≡ ok true

some_model : (ms : List ModelConfig) → not (is_empty ms) ≡ true → (m : ModelConfig) × In m ms
some_model [] h = cc
some_model (m ∷ ms) h = (m, inl refl)

runtime_set-some :
    {env : Environment} (o : Option (AdaptiveRuntime env))
    → runtime_set o ≡ true
    → (r : AdaptiveRuntime env) × (o ≡ some r)
runtime_set-some none h = cc
runtime_set-some (some r) h = (r, refl)

module _ {env : Environment} (a : Application env) where
  concluded-status :
      (redis : Bool) (y : System env)
      → (((concluded a redis y).0 ≡ ok 200)
          × (a.initialized ≡ true)
          × (providers_available a ≡ true)
          × (adaptive_available a ≡ true)
          × (redis ≡ true))
        ⊎ ((concluded a redis y).0 ≡ ok 503)
  concluded-status redis y =
      elim (Bool-cases (a.initialized && providers_available a && adaptive_available a && redis)) [
        | inl b ↦
            inl (
              rw b refl,
              ground (arith, b),
              ground (arith, b),
              ground (arith, b),
              ground (arith, b),
            )
        | inr b ↦ inr (rw b refl)
      ]

  weighed_lem :
      (redis : Result Bool) (y : System env)
      → ¬ (redis ≡ err cancelled)
      → (((weighed a redis y).0 ≡ ok 200) × IsReady a redis) ⊎ ((weighed a redis y).0 ≡ ok 503)
  weighed_lem (ok b) y n = elim (concluded-status b y) [
    | inl (e, i, p, q, r) ↦
        let (m, there) = some_model (available_models a.inference_service) p in
        inl (
          e,
          record {
            initialized = i;
            model = m;
            available = there;
            adaptive = λ required. runtime_set-some a.adaptive_runtime (ground arith);
            pinged = ap ok r;
          },
        )
    | inr e ↦ inr e
  ]
  weighed_lem (err e) y n = elim (Bool-cases (is_cancelled e)) [
    | inl c ↦ absurd (n (ap err (is_cancelled_iff e c)))
    | inr c ↦ elim (concluded-status false y) [ inl (h, i, p, q, r) ↦ cc | inr h ↦ inr (rw c h) ]
  ]

  -- Unless the ping of the limiter is cancelled, the readiness is 200 or 503, and it is 200 only if the
  -- application is initialised, a model can be served, adaptive routing is there where it is required,
  -- and the limiter answered the ping. An exception of the ping is no readiness.
  pub ready_lem :
      (y : System env)
      → ¬ ((a.limiter_ready y).0 ≡ err cancelled)
      → (((ready a y).0 ≡ ok 200) × IsReady a (a.limiter_ready y).0) ⊎ ((ready a y).0 ≡ ok 503)
  unfolding ready
  ready_lem y n = weighed_lem (a.limiter_ready y).0 (a.limiter_ready y).1 n

starts_with-drop : (s p : Text) → starts_with s p ≡ true → s ≡ p ++ drop (length p) s
unfolding starts_with
starts_with-drop [] [] h = refl
starts_with-drop (c ∷ s) [] h = refl
starts_with-drop [] (d ∷ p) h = cc
starts_with-drop (c ∷ s) (d ∷ p) h =
    let (a, b) = &&-true _ _ h in
    ap (λ x. x ∷ s) ((==_iff c d).0 a) ∙ ap (λ l. d ∷ l) (starts_with-drop s p b)

no_token : (t : Text) → leb 32 (length t) ≡ true → ¬ ([] ≡ t)
no_token [] l h = ground arith
no_token (c ∷ cs) l h = cc

-- The metrics are shown only while they are enabled, and only to a request whose header bears the
-- configured token. The settings satisfy their validator.
pub prometheus_metrics_lem :
    (s : ObservabilitySettings) (authorization : Text)
    → valid_observability s ≡ true
    → prometheus_metrics s authorization ≡ ok 200
    → (s.metrics_enabled ≡ true)
      × (token : Text) × (s.metrics_bearer_token ≡ some token)
      × (authorization ≡ codes "Bearer " ++ token)
unfolding prometheus_metrics valid_observability
prometheus_metrics_lem s authorization v h = go s.metrics_enabled s.metrics_bearer_token v h
  where
    ok_number : {m n : ℕ} → ◌≡◌ {A = Result ℕ} (ok m) (ok n) → m ≡ n
    ok_number k = ok-injective k

    compared :
        (t : Text)
        → leb 32 (length t) ≡ true
        → authorised (compare_digest (candidate_of authorization) t) ≡ ok 200
        → authorization ≡ codes "Bearer " ++ t
    compared t l k = elim (Bool-cases (is_ascii (candidate_of authorization) && is_ascii t)) [
      | inr a ↦ cc (rw a at k)
      | inl a ↦ elim (Bool-cases (text_eq (candidate_of authorization) t)) [
        | inr b ↦ absurd (omega (arith, ok_number (rw (a, b) at k)))
        | inl b ↦ elim (Bool-cases (starts_with authorization (codes "Bearer "))) [
          | inl c ↦
              starts_with-drop authorization (codes "Bearer ") c
              ∙ ap (λ u. codes "Bearer " ++ u) (rw c at ((text_eq_iff _ _).0 b))
          | inr c ↦ absurd (no_token t l (rw c at ((text_eq_iff _ _).0 b)))
        ]
      ]
    ]

    go :
        (enabled : Bool) (o : Option Text)
        → token_fits enabled o ≡ true
        → (if not enabled then ok 404 else for_token authorization o) ≡ ok 200
        → (enabled ≡ true)
          × (token : Text) × (o ≡ some token)
          × (authorization ≡ codes "Bearer " ++ token)
    go false o w k = absurd (omega (arith, ok_number k))
    go true none w k = cc
    go true (some t) w k = (refl, t, refl, compared t w k)
