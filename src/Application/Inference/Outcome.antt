-- ===== src/Application/Inference/Outcome.antt =====
-- What leaves `InferenceService`: whose responses, which errors, and what is observed.
use route_llm.Prelude.{
  ℕ, ◌-◌, subst, ◌≡◌, refl, sym, ap, ◌∙◌, ◌⊎◌, inl, inr, ◌↔◌, Bool, true, false, ◌&&◌, ◌||◌, Option,
  none, some, [], ◌∷◌, ◌++◌, leb, arith, Bool-cases, &&-true,
}
use route_llm.Prelude.Text.{Text, text_eq, text_eq_iff}
use route_llm.Decimal.{Decimal}
use route_llm.Errors.{
  ok, err, provider_failure, is_classified, is_provider_failure, is_provider_unavailable, cancelled,
  ok-injective, err-injective, timeout_error, model_disabled,
}
use route_llm.Models.{ModelConfig, InferenceRequest, InferenceResponse, Result, Error}
use route_llm.Deadline.{RequestDeadline, remaining_seconds}
use route_llm.Registry
use route_llm.Application.World.{
  Environment, System, Observation, Category, AttemptOutcome, success, Reply, replied,
  not_a_response, raised, provider_attempt,
}
use route_llm.Application.Inference.{
  InferenceService, attempted, outcome_of, completion_of, answered, exchange, finish, generate_once,
  is_cancelled, resolved,
}

-- A response is the model's own.
abbrev pub IsFrom : ModelConfig → InferenceResponse → Type 0
IsFrom m r = (r.model_id ≡ m.model_id) × (r.provider ≡ m.provider)

module _ {env : Environment} where
  module _ (m : ModelConfig) (r : InferenceRequest) (d : RequestDeadline) (p : env.Provider) where
    answered-log : (reply : Reply) (y : System env) → (answered m d reply y).1.log ≡ y.log
    answered-log (replied x) y =
        elim (Bool-cases (text_eq x.model_id m.model_id && text_eq x.provider m.provider)) [
          | inl e ↦ rw e
          | inr e ↦ rw e
        ]
    answered-log not_a_response y = refl
    answered-log (raised timeout_error) y = refl
    answered-log (raised e) y = refl

    exchange-log : (y : System env) → (exchange m r d p y).1.log ≡ y.log
    exchange-log y = elim (Bool-cases (leb (remaining_seconds d (env.monotonic y.world).1) 0)) [
      | inl e ↦ rw e
      | inr e ↦ rw e (answered-log _ _)
    ]

    answered-IsFrom :
        (reply : Reply) (y : System env) (x : InferenceResponse)
        → (answered m d reply y).0 ≡ ok x
        → IsFrom m x
    answered-IsFrom (replied z) y x h =
        elim (Bool-cases (text_eq z.model_id m.model_id && text_eq z.provider m.provider)) [
          | inl e ↦
              let (same_model, same_provider) = &&-true _ _ e in
              let same : z ≡ x = ok-injective (rw e at h) in
              (
                ap (λ (w : InferenceResponse). w.model_id) (sym same)
                    ∙ (text_eq_iff _ _).0 same_model,
                ap (λ (w : InferenceResponse). w.provider) (sym same)
                    ∙ (text_eq_iff _ _).0 same_provider,
              )
          | inr e ↦ cc (rw e at h)
        ]
    answered-IsFrom not_a_response y x h = cc
    answered-IsFrom (raised timeout_error) y x h = cc
    answered-IsFrom (raised e) y x h = cc

    exchange-IsFrom :
        (y : System env) (x : InferenceResponse) → (exchange m r d p y).0 ≡ ok x → IsFrom m x
    exchange-IsFrom y x h =
        elim (Bool-cases (leb (remaining_seconds d (env.monotonic y.world).1) 0)) [
          | inl e ↦ cc (rw e at h)
          | inr e ↦ answered-IsFrom _ _ x (rw e at h)
        ]

pub is_cancelled_iff : (e : Error) → is_cancelled e ≡ true → e ≡ cancelled
is_cancelled_iff cancelled h = refl
is_cancelled_iff e h = cc

-- The errors that leave the service: a cancellation, or one of the classes that it reports.
abbrev pub IsReported : Error → Type 0
IsReported e = (e ≡ cancelled) ⊎ (is_classified e ≡ true)

abbrev pub attempt_of :
    ModelConfig → Text → Text → AttemptOutcome → Category → ℕ → Option Decimal → Observation
attempt_of m id mode outcome category duration cost =
    provider_attempt m.provider m.model_id outcome category duration mode cost id

-- One attempt was observed and nothing else: as a success exactly if it returned a response, of which
-- it has the cost. A response is the model's own, and an error is one of those that are reported.
pub record IsObserved {env : Environment} (m : ModelConfig) (request_id request_mode : Text)
    (y : System env) (result : Result InferenceResponse) (z : System env) : Type 0 where
  pub outcome : AttemptOutcome
  pub category : Category
  pub duration : ℕ
  pub cost : Option Decimal
  pub logged :
      z.log ≡ y.log ++ attempt_of m request_id request_mode outcome category duration cost ∷ []
  pub succeeded : (outcome ≡ success) ↔ ((x : InferenceResponse) × (result ≡ ok x))
  pub charged : (x : InferenceResponse) → result ≡ ok x → cost ≡ some x.estimated_cost_usd
  pub own : (x : InferenceResponse) → result ≡ ok x → IsFrom m x
  pub reported : (e : Error) → result ≡ err e → IsReported e

failed-IsObserved :
    {env : Environment} (m : ModelConfig) (id mode : Text) (y z : System env) (e : Error)
    (outcome : AttemptOutcome) (category : Category) (duration : ℕ) (cost : Option Decimal)
    → ¬ (outcome ≡ success)
    → z.log ≡ y.log ++ attempt_of m id mode outcome category duration cost ∷ []
    → IsReported e
    → IsObserved m id mode y (err e) z
failed-IsObserved m id mode y z e outcome category duration cost ne h k = record {
  outcome = outcome;
  category = category;
  duration = duration;
  cost = cost;
  logged = h;
  succeeded = (λ q. absurd (ne q), λ (x, q). cc);
  charged = λ x q. cc;
  own = λ x q. cc;
  reported = λ e' q. subst IsReported (err-injective q) k;
}

outcome_of-ne : (o : Option InferenceResponse) → ¬ (outcome_of o ≡ success)
outcome_of-ne none h = cc
outcome_of-ne (some r) h = cc

module _ {env : Environment} (m : ModelConfig) (id mode : Text) (started : ℕ) where
  finish-IsObserved :
      (res : Result InferenceResponse) (y : System env)
      → ((x : InferenceResponse) → res ≡ ok x → IsFrom m x)
      → IsObserved m id mode y (finish m id mode started res y).0 (finish m id mode started res y).1
  finish-IsObserved (ok x) y own = record {
    outcome = success;
    category = Category.none;
    duration = (env.perf_counter y.world).1 - started;
    cost = some x.estimated_cost_usd;
    logged = refl;
    succeeded = (λ q. (x, refl), λ q. refl);
    charged = λ z q. ap (λ (w : InferenceResponse). some w.estimated_cost_usd) (ok-injective q);
    own = own;
    reported = λ e q. cc;
  }
  finish-IsObserved (err e) y own = elim (Bool-cases (is_cancelled e)) [
    | inl c ↦ rw c (
        failed-IsObserved m id mode y _ e AttemptOutcome.cancelled _ _ none (λ q. cc) refl
          (inl (is_cancelled_iff e c)))
    | inr c ↦ elim (Bool-cases (is_classified e)) [
      | inl k ↦
          rw (c, k)
            (failed-IsObserved m id mode y _ e (outcome_of (completion_of e)) _ _ _
              (outcome_of-ne (completion_of e)) refl (inr k))
      | inr k ↦
          rw (c, k)
            (failed-IsObserved m id mode y _ provider_failure AttemptOutcome.error _ _ none
              (λ q. cc) refl (inr refl))
    ]
  ]

from-log :
    {env : Environment} (m : ModelConfig) (id mode : Text) (x y z : System env)
    (res : Result InferenceResponse)
    → x.log ≡ y.log
    → IsObserved m id mode x res z
    → IsObserved m id mode y res z
from-log m id mode x y z res e o = record {
  outcome = o.outcome;
  category = o.category;
  duration = o.duration;
  cost = o.cost;
  logged =
      o.logged ∙ ap (λ l. l ++ attempt_of m id mode o.outcome o.category o.duration o.cost ∷ []) e;
  succeeded = o.succeeded;
  charged = o.charged;
  own = o.own;
  reported = o.reported;
}

resolved-IsReported : {A : Type 0} (r : Result A) (e : Error) → resolved r ≡ err e → IsReported e
resolved-IsReported (ok p) e h = cc
resolved-IsReported (err x) e h =
    elim (Bool-cases (is_provider_unavailable x || is_provider_failure x || is_cancelled x)) [
      | inl b ↦ subst IsReported (err-injective (rw b at h)) (known x b)
      | inr b ↦ subst IsReported (err-injective (rw b at h)) (inr refl)
    ]
  where
    known :
        (x : Error)
        → (is_provider_unavailable x || is_provider_failure x || is_cancelled x) ≡ true
        → IsReported x
    known x b = elim (Bool-cases (is_cancelled x)) [
      | inl c ↦ inl (is_cancelled_iff x c)
      | inr c ↦ inr (ground arith)
    ]

-- Nothing was observed, because the model is disabled or no adapter could be resolved for it.
pub record IsUnreached {env : Environment} (enabled : Bool) (adapter : Result env.Provider)
    (y : System env) (result : Result InferenceResponse) (z : System env) : Type 0 where
  pub same : z ≡ y
  pub failed : (e : Error) × (result ≡ err e) × IsReported e
  pub because : (enabled ≡ false) ⊎ ((e : Error) × (adapter ≡ err e))

module _ {env : Environment} (m : ModelConfig) (r : InferenceRequest) (d : RequestDeadline)
    (id mode : Text) (y : System env) where
  attempted-IsObserved :
      (enabled : Bool) (adapter : Result env.Provider)
      → ((e : Error) → adapter ≡ err e → IsReported e)
      → let (res, z) = attempted m r d id mode enabled adapter y in
        IsUnreached enabled adapter y res z ⊎ ((enabled ≡ true) × IsObserved m id mode y res z)
  attempted-IsObserved false adapter k =
      inl (record { same = refl; failed = (model_disabled, refl, inr refl); because = inl refl })
  attempted-IsObserved true (err x) k =
      inl (record { same = refl; failed = (x, refl, k x refl); because = inr (x, refl) })
  attempted-IsObserved true (ok p) k =
      let z : System env = record { world = (env.perf_counter y.world).0; log = y.log } in
      let (res, w) : Result InferenceResponse × System env = exchange m r d p z in
      let started : ℕ = (env.perf_counter y.world).1 in
      inr (
        refl,
        from-log m id mode w y (finish m id mode started res w).1 (finish m id mode started res w).0
            (exchange-log {env = env} m r d p z)
            (finish-IsObserved m id mode started res w (exchange-IsFrom {env = env} m r d p z)),
      )

  -- One inference by a model observes exactly one attempt, with its outcome, or none if no adapter is
  -- reached. Every error that leaves it is a cancellation or of a reported class, whatever the adapter
  -- raised; every response is the model's own.
  pub generate_once-IsObserved :
      (s : InferenceService env)
      → let (res, z) = generate_once s m r d id mode y in
        IsUnreached m.enabled (resolved (Registry.resolve m s.resolver)) y res z
        ⊎ ((m.enabled ≡ true) × IsObserved m id mode y res z)
  unfolding generate_once
  generate_once-IsObserved s =
      attempted-IsObserved m.enabled (resolved (Registry.resolve m s.resolver))
        (resolved-IsReported (Registry.resolve m s.resolver))
