-- ===== src/Api/Routes/Validated.antt =====
-- What /v1/inference/adaptive answers to a payload with an output contract.
use route_llm.Prelude.{
  ◌≤◌, ◌≡◌, refl, sym, ap, ◌∙◌, subst, inl, inr, false, Option, none, some, leb, length, ◌&&◌,
  Bool-cases, &&-true, leb→le, if◌then◌else◌,
}
use route_llm.Prelude.Text.{Text}
use route_llm.Errors
use route_llm.Errors.{ok, err, ok-injective, value_error, invalid_quality_threshold}
use route_llm.Models.{Result}
use route_llm.Deadline.{RequestDeadline}
use route_llm.Limits.{validate_request}
use route_llm.Routing.Features.{category}
use route_llm.Validation.Contract.{ValidationContract}
use route_llm.Application.World.{Environment, System, after, ◌>>=◌, raise, lift}
use route_llm.Application.Adaptive.{AdaptiveExecution, AdaptiveInferenceResult}
use route_llm.Application.Adaptive.Run.{generate_adaptive}
use route_llm.Application.Chat.{AdaptiveRuntime}
use route_llm.Application.Chat.Validated.{IsValidated, generate_adaptive-IsValidated}
use route_llm.RateLimit.Settings.{adaptive}
use route_llm.Api.Schemas.{
  AdaptiveInferencePayload, PublicResult, PublicExecutionMetadata, public_response, public_adaptive,
  public_execution,
}
use route_llm.Api.Routes.{Application, guarded, adaptive_inference, unapproved, or_unavailable}
use route_llm.Api.Routes.Served.{IsAdmitted, guarded-IsAdmitted}

public_execution-bounds :
    (o : Option AdaptiveExecution) (e : AdaptiveExecution) (m : Option PublicExecutionMetadata)
    → o ≡ some e
    → public_execution o ≡ ok m
    → (length e.attempts ≤ 3)
      × (v : PublicExecutionMetadata) × (m ≡ some v)
      × (v.attempts ≡ length e.attempts)
public_execution-bounds none e m p h = cc
public_execution-bounds (some f) e m p h =
    elim (Bool-cases (leb 1 (length f.attempts) && leb (length f.attempts) 3)) [
      | inl b ↦
          let same : f ≡ e = cc p in
          (
            subst (λ (g : AdaptiveExecution). length g.attempts ≤ 3) same
                (leb→le _ _ (&&-true _ _ b).1),
            _,
            sym (ok-injective (rw b at h)),
            ap (λ (g : AdaptiveExecution). length g.attempts) same,
          )
      | inr b ↦ cc (rw b at h)
    ]

-- What is shown of a result is its response, and of its execution the number of attempts.
pub record IsShown (id : Text) (r : AdaptiveInferenceResult) (x : PublicResult) : Type 0 where
  pub response : x.response ≡ public_response id r.response
  pub attempts :
      (e : AdaptiveExecution)
      → r.execution ≡ some e
      → (length e.attempts ≤ 3)
        × (v : PublicExecutionMetadata) × (x.execution ≡ some v)
        × (v.attempts ≡ length e.attempts)

public_adaptive-IsShown :
    (id : Text) (r : AdaptiveInferenceResult) (x : PublicResult)
    → public_adaptive id r ≡ ok x
    → IsShown id r x
public_adaptive-IsShown id r x h = go (public_execution r.execution) refl h
  where
    go :
        (q : Result (Option PublicExecutionMetadata))
        → public_execution r.execution ≡ q
        → (Errors.◌>>=◌ q (λ e. ok (record {
          response = public_response id r.response;
          execution_mode = none;
          category = none;
          is_manual_category = false;
          routing = some (record {
            selected_model_id = r.routing_decision.selected_model_id;
            threshold_satisfied = r.routing_decision.threshold_satisfied;
            fallback_used = r.routing_decision.fallback_used;
            reason = r.routing_decision.reason;
          });
          execution = e;
        })))
          ≡ ok x
        → IsShown id r x
    go (ok m) f k = record {
      response = ap (λ (w : PublicResult). w.response) (sym (ok-injective k));
      attempts = λ e p.
          let (a, v, b, c) = public_execution-bounds r.execution e m p f in
          (a, v, ap (λ (w : PublicResult). w.execution) (sym (ok-injective k)) ∙ b, c);
    }
    go (err e) f k = cc

module _ {env : Environment} (a : Application env) (peer id : Text) (p : AdaptiveInferencePayload)
    (contract : ValidationContract) (c : p.validation ≡ some contract) (x : PublicResult) where
  pub record IsAdaptiveInference : Type 0 where
    pub runtime : AdaptiveRuntime env
    pub configured : a.adaptive_runtime ≡ some runtime
    pub limited : validate_request a.request_limits p.request ≡ ok tt
    pub approved : unapproved p.quality_threshold runtime.approved_quality_threshold ≡ false
    pub admitted :
        (d : RequestDeadline) × (y z : System env) × (a.admit peer adaptive d y ≡ (ok tt, z))
    pub result : AdaptiveInferenceResult
    pub validated : IsValidated runtime.service contract result.response result.execution
    pub shown : IsShown id result x

  abbrev validated_within :
      AdaptiveRuntime env → RequestDeadline → System env → Result PublicResult × System env
  validated_within runtime d z =
      after (λ r. lift {env = env} (public_adaptive id r))
        (generate_adaptive runtime.service p.request (category p.category)
          runtime.approved_quality_threshold runtime.candidate_model_ids p.validation false
          (some id) (some d) z)

  validated_within-ok :
      (runtime : AdaptiveRuntime env) (d : RequestDeadline) (z : System env)
      → (validated_within runtime d z).0 ≡ ok x
      → (r : AdaptiveInferenceResult) × IsValidated runtime.service contract r.response r.execution
        × IsShown id r x
  validated_within-ok runtime d z h =
      go
        (generate_adaptive runtime.service p.request (category p.category)
          runtime.approved_quality_threshold runtime.candidate_model_ids p.validation false
          (some id) (some d) z)
        (λ r e.
          generate_adaptive-IsValidated runtime.service p.request contract r (category p.category)
            runtime.approved_quality_threshold runtime.candidate_model_ids (some id) (some d) z
            (subst
              (λ v.
                (generate_adaptive runtime.service p.request (category p.category)
                  runtime.approved_quality_threshold runtime.candidate_model_ids v false (some id)
                  (some d) z).0
                ≡ ok r)
              c e))
        h
    where
      go :
          (q : Result AdaptiveInferenceResult × System env)
          → ((r : AdaptiveInferenceResult)
              → q.0 ≡ ok r
              → IsValidated runtime.service contract r.response r.execution)
          → (after (λ r. lift {env = env} (public_adaptive id r)) q).0 ≡ ok x
          → (r : AdaptiveInferenceResult) × IsValidated runtime.service contract r.response
              r.execution
            × IsShown id r x
      go (ok r, w) f k = (r, f r refl, public_adaptive-IsShown id r x k)
      go (err e, w) f k = cc

  -- To a payload with an output contract, /v1/inference/adaptive answers only if an adaptive runtime
  -- is configured, the request is within the limits, a threshold it names is the approved one, and
  -- the limiter admitted the peer. It shows a response that the validator passed under that contract,
  -- with the number of its attempts, which are at most three.
  pub adaptive_inference-IsAdaptiveInference :
      (y : System env) → (adaptive_inference a peer id p y).0 ≡ ok x → IsAdaptiveInference
  unfolding adaptive_inference
  adaptive_inference-IsAdaptiveInference y h = go a.adaptive_runtime refl h
    where
      checked : AdaptiveRuntime env → System env → Result PublicResult × System env
      checked runtime z =
          (if unapproved p.quality_threshold runtime.approved_quality_threshold
              then raise invalid_quality_threshold
              else guarded a peer id adaptive (validated_within runtime))
            z

      limited :
          (runtime : AdaptiveRuntime env)
          → a.adaptive_runtime ≡ some runtime
          → (v : Result (Unit {0})) → validate_request a.request_limits p.request ≡ v
          → (after {env = env} (λ u. checked runtime) (v, y)).0 ≡ ok x
          → IsAdaptiveInference
      limited runtime e (err f) l k = cc
      limited runtime e (ok tt) l k =
          elim (Bool-cases (unapproved p.quality_threshold runtime.approved_quality_threshold)) [
            | inl b ↦ cc (rw b at k)
            | inr b ↦
                let k' : (guarded a peer id adaptive (validated_within runtime) y).0 ≡ ok x =
                  rw b at k in
                let g : IsAdmitted a peer id adaptive (validated_within runtime) y
                    (guarded a peer id adaptive (validated_within runtime) y) =
                  guarded-IsAdmitted a peer id adaptive (validated_within runtime) y x k' in
                let (r, s, f) =
                  validated_within-ok runtime g.deadline g.later
                    (sym (ap (λ (q : Result PublicResult × System env). q.0) g.rest) ∙ k') in
                record {
                  runtime = runtime;
                  configured = e;
                  limited = l;
                  approved = b;
                  admitted = (g.deadline, g.before, g.later, g.admitted);
                  result = r;
                  validated = s;
                  shown = f;
                }
          ]

      go :
          (o : Option (AdaptiveRuntime env))
          → a.adaptive_runtime ≡ o
          → (after {env = env}
              (λ runtime.
                lift (validate_request a.request_limits p.request) >>= λ u. checked runtime)
              (or_unavailable o, y)).0
            ≡ ok x
          → IsAdaptiveInference
      go none e k = cc
      go (some runtime) e k = limited runtime e (validate_request a.request_limits p.request) refl k
