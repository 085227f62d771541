-- ===== src/Application/Inference/Service/Served.antt =====
-- What `generate` of application/service.py answers, and what is recorded of it.
use route_llm.Prelude.{
  ℕ, ◌-◌, ◌≡◌, refl, ap, ◌∙◌, subst, inl, inr, true, not, ◌||◌, Option, none, some, List, [], ◌∷◌,
  ◌++◌, Bool-cases,
}
use mathlib.Core.List.{append_assoc}
use route_llm.Prelude.Text.{Text, text_eq, codes}
use route_llm.Decimal.{Decimal}
use route_llm.Errors.{ok, err, is_classified}
use route_llm.Models.{ModelConfig, InferenceRequest, InferenceResponse, Result}
use route_llm.Deadline.{RequestDeadline, expired}
use route_llm.Registry
use route_llm.Application.World.{
  Environment, System, Observation, attempt, after, ◌>>=◌, lift, raise, return, Category,
  AttemptOutcome, success,
}
use route_llm.Application.Inference.{InferenceService, generate_once, completion_of, counter}
use route_llm.Application.Inference.Outcome.{IsFrom, attempt_of, generate_once-IsObserved}
use route_llm.Application.Inference.Service.{
  record_event, failure_event, elapsed_since, conclude, deadline_or_new, id_or_new, generate_with,
  generate_within, generate,
}
use route_llm.Application.Inference.Service.Written.{IsWrite, Writes, record_event-Writes}

module _ {env : Environment} (s : InferenceService env) where
  conclude-ok :
      (m : ModelConfig) (r : InferenceRequest) (d : RequestDeadline) (id : Text) (started : ℕ)
      (result : Result InferenceResponse) (y : System env) (x : InferenceResponse)
      → (conclude s m r d id started result y).0 ≡ ok x
      → (result ≡ ok x) × Writes y (conclude s m r d id started result y).1
  conclude-ok m r d id started (ok result) y x h =
      go (record_event s _ d y) (record_event-Writes s _ d y) h
    where
      go :
          (p : Result (Unit {0}) × System env)
          → (p.0 ≡ ok tt → Writes y p.1)
          → (after (λ u. return {env = env} result) p).0 ≡ ok x
          → (◌≡◌ {A = Result InferenceResponse} (ok result) (ok x))
            × Writes y (after (λ u. return {env = env} result) p).1
      go (ok u, z) w k = (k, w refl)
      go (err e, z) w k = cc
  conclude-ok m r d id started (err e) y x h = elim (Bool-cases (not (is_classified e))) [
    | inl c ↦ cc (rw c at h)
    | inr c ↦ absurd (go (completion_of e) y (rw c at h))
  ]
    where
      ends :
          (p : Result (Unit {0}) × System env)
          → ¬ ((after (λ u. raise {env = env} {A = InferenceResponse} e) p).0 ≡ ok x)
      ends (ok u, z) k = cc
      ends (err e', z) k = cc

      go :
          (o : Option InferenceResponse) (z : System env)
          → ¬ (
              (after
                (λ elapsed. record_event s (failure_event s m r id elapsed e) d >>= λ u.
                  raise {env = env} {A = InferenceResponse} e)
                (elapsed_since s started o z)).0
              ≡ ok x)
      go none z k =
          let later : ℕ = (env.perf_counter z.world).1 in
          let w : System env = record { world = (env.perf_counter z.world).0; log = z.log } in
          ends (record_event s (failure_event s m r id (later - started) e) d w) k
      go (some o) z k = ends (record_event s (failure_event s m r id 0 e) d z) k

-- A response was served: by an enabled model of the registry, which the requested name denotes, after
-- one successful attempt with the cost of the response and one write of telemetry.
pub record IsServed {env : Environment} (s : InferenceService env) (model_id : Text)
    (request_id : Option Text) (mode : Text) (before : List Observation) (x : InferenceResponse)
    (later : List Observation) : Type 0 where
  pub model : ModelConfig
  pub registered : Registry.get model_id s.registry ≡ ok model
  pub enabled : model.enabled ≡ true
  pub own : IsFrom model x
  pub id : Text
  pub identified : (i : Text) → request_id ≡ some i → id ≡ i
  pub category : Category
  pub duration : ℕ
  pub writes : List Observation
  pub written : IsWrite writes
  pub logged :
      later
      ≡ before
        ++ attempt_of model id mode success category duration (some x.estimated_cost_usd) ∷ writes

logged :
    (m : ModelConfig) (id mode : Text) (a b c : List Observation) (outcome : AttemptOutcome)
    (category : Category) (duration : ℕ) (cost : Option Decimal) (ws : List Observation)
    (x : InferenceResponse)
    → outcome ≡ success
    → cost ≡ some x.estimated_cost_usd
    → b ≡ a ++ attempt_of m id mode outcome category duration cost ∷ []
    → c ≡ b ++ ws
    → c ≡ a ++ attempt_of m id mode success category duration (some x.estimated_cost_usd) ∷ ws
logged m id mode a b c outcome category duration cost ws x e f g h =
    h
    ∙ ap (λ l. l ++ ws) g
    ∙ append_assoc a _ ws
    ∙ ap (λ o. a ++ attempt_of m id mode o category duration cost ∷ ws) e
    ∙ ap (λ o. a ++ attempt_of m id mode success category duration o ∷ ws) f

module _ {env : Environment} (s : InferenceService env) (model_id : Text) (r : InferenceRequest)
    (request_id : Option Text) (mode : Text) where
  -- A response that was served by a model from a later state with the same observations.
  module _ (m : ModelConfig) (g : Registry.get model_id s.registry ≡ ok m) (d : RequestDeadline)
      (x : InferenceResponse) where
    with_id :
        (id : Text) (y : System env)
        → ((i : Text) → request_id ≡ some i → id ≡ i)
        → let started : ℕ = (env.perf_counter y.world).1 in
          let z : System env = record { world = (env.perf_counter y.world).0; log = y.log } in
          let p : Result InferenceResponse × System env = generate_once s m r d id mode z in
          let q : Result InferenceResponse × System env = conclude s m r d id started p.0 p.1 in
          q.0 ≡ ok x → IsServed s model_id request_id mode y.log x q.1.log
    with_id id y k h =
        let started : ℕ = (env.perf_counter y.world).1 in
        let z : System env = record { world = (env.perf_counter y.world).0; log = y.log } in
        let p : Result InferenceResponse × System env = generate_once s m r d id mode z in
        let (e, v) = conclude-ok s m r d id started p.0 p.1 x h in
        let (ws, w, l) = v in
        elim (generate_once-IsObserved m r d id mode z s) [
          | inl u ↦ cc (e, u.failed.1)
          | inr (en, o) ↦ record {
            model = m;
            registered = g;
            enabled = en;
            own = o.own x e;
            id = id;
            identified = k;
            category = o.category;
            duration = o.duration;
            writes = ws;
            written = w;
            logged =
                logged m id mode y.log _ _ o.outcome o.category o.duration o.cost ws x
                  (o.succeeded.1 (x, e)) (o.charged x e) o.logged l;
          }
        ]

    generate_with-IsServed :
        (y : System env)
        → (generate_with s m r request_id d mode y).0 ≡ ok x
        → IsServed s model_id request_id mode y.log x
            (generate_with s m r request_id d mode y).1.log
    unfolding generate_with
    generate_with-IsServed y h = go request_id refl h
      where
        go :
            (o : Option Text)
            → request_id ≡ o
            → let q : Result InferenceResponse × System env =
                after
                  (λ id. counter >>= λ started.
                    attempt (generate_once s m r d id mode) >>= λ result.
                    conclude s m r d id started result)
                  (id_or_new s o y) in
              q.0 ≡ ok x → IsServed s model_id request_id mode y.log x q.1.log
        go (some id) e k = with_id id y (λ i f. cc) k
        go none e k =
            let w : System env = record { world = (env.uuid y.world).0; log = y.log } in
            with_id (env.uuid y.world).1 w (λ i f. cc) k

  module _ (x : InferenceResponse) where
    generate_within-IsServed :
        (d : RequestDeadline) (y : System env)
        → (generate_within s model_id r request_id mode d y).0 ≡ ok x
        → IsServed s model_id request_id mode y.log x
            (generate_within s model_id r request_id mode d y).1.log
    unfolding generate_within
    generate_within-IsServed d y h = elim (Bool-cases (expired d (env.monotonic y.world).1)) [
      | inl e ↦ cc (rw e at h)
      | inr e ↦ rw e (go (Registry.get model_id s.registry) refl (rw e at h))
    ]
      where
        z : System env
        z = record { world = (env.monotonic y.world).0; log = y.log }

        go :
            (g : Result ModelConfig)
            → Registry.get model_id s.registry ≡ g
            → let q : Result InferenceResponse × System env =
                after (λ m. generate_with s m r request_id d mode) (lift {env = env} g z) in
              q.0 ≡ ok x → IsServed s model_id request_id mode y.log x q.1.log
        go (ok m) e k = generate_with-IsServed m e d x z k
        go (err f) e k = cc

    -- A response of `generate` is the own one of an enabled model of the registry, the one of the
    -- requested name. Exactly one attempt is observed, as a success with the cost of the response and
    -- under the request's identifier if there is one, and behind it one write of telemetry.
    pub generate-IsServed :
        (deadline : Option RequestDeadline) (y : System env)
        → (generate s model_id r request_id deadline mode y).0 ≡ ok x
        → IsServed s model_id request_id mode y.log x
            (generate s model_id r request_id deadline mode y).1.log
    unfolding generate
    generate-IsServed deadline y h =
        elim (Bool-cases
          (not (text_eq mode (codes "explicit") || text_eq mode (codes "adaptive")))) [
            | inl e ↦ cc (rw e at h)
            | inr e ↦ rw e (go deadline (rw e at h))
          ]
      where
        bound :
            (t : Result RequestDeadline) (z : System env)
            → z.log ≡ y.log
            → let q : Result InferenceResponse × System env =
                after (generate_within s model_id r request_id mode) (t, z) in
              q.0 ≡ ok x → IsServed s model_id request_id mode y.log x q.1.log
        bound (ok d) z e k =
            subst
              (λ l.
                IsServed s model_id request_id mode l x
                  (generate_within s model_id r request_id mode d z).1.log)
              e (generate_within-IsServed d z k)
        bound (err f) z e k = cc

        go :
            (o : Option RequestDeadline)
            → let q : Result InferenceResponse × System env =
                after (generate_within s model_id r request_id mode) (deadline_or_new s o y) in
              q.0 ≡ ok x → IsServed s model_id request_id mode y.log x q.1.log
        go (some d) k = generate_within-IsServed d y k
        go none k = bound _ (record { world = (env.monotonic y.world).0; log = y.log }) refl k
