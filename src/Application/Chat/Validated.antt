-- ===== src/Application/Chat/Validated.antt =====
-- The adaptive path of application/chat.py with an output contract.
use route_llm.Prelude.{
  ℕ, ◌+◌, ◌≤◌, ◌≡◌, refl, sym, ap, subst, inl, inr, false, not, Option, none, some, List, [],
  length, length-take-le, arith, Bool-cases, if◌then◌else◌,
}
use route_llm.Prelude.Text.{Text}
use route_llm.Errors.{deadline_exceeded, ok, err, ok-injective}
use route_llm.Models.{ModelConfig, InferenceRequest, InferenceResponse, Result}
use route_llm.Deadline.{RequestDeadline, expired}
use route_llm.Routing.Threshold.{Value}
use route_llm.Routing.Features.{RoutingCategory, Hint}
use route_llm.Routing.Service.{RoutingResult}
use route_llm.Validation.Contract.{ValidationContract, ValidationResult, passed}
use route_llm.Application.World.{
  Environment, System, raise, return, routing_decision, observe, lift, after, ◌>>=◌,
}
use route_llm.Application.Inference.{now}
use route_llm.Application.Inference.Service.{deadline_or_new}
use route_llm.Application.Adaptive.{
  AdaptiveAttempt, AdaptiveExecution, AdaptiveInferenceResult, resolve_candidates, candidate_order,
}
use route_llm.Application.Adaptive.Record.{AdaptiveInferenceService, given_or_new, Run}
use route_llm.Application.Adaptive.Run.{generate_validated, generate_adaptive, try_models}
use route_llm.Application.Adaptive.Run.Returned.{IsReturned, try_models-IsReturned}
use route_llm.Application.Activity.{adaptive}
use route_llm.Application.Chat.Record.{
  is_adaptive_failure, adaptive_failure, adaptive_success, hint_of,
}
use route_llm.Application.Chat.{
  ChatOrchestrationService, ChatOrchestrationResult, AdaptiveRuntime, manual, record_activity,
  concluded, by_runtime, adaptive_result, chat,
}

-- A response passed the validator under the contract, with its execution, whose attempts the service
-- bounds.
pub record IsValidated {env : Environment} (s : AdaptiveInferenceService env)
    (contract : ValidationContract) (response : InferenceResponse)
    (execution : Option AdaptiveExecution) : Type 0 where
  pub verdict :
      (y z : System env) × (v : ValidationResult) × (s.validate response (some contract) y
        ≡ (ok v, z))
      × (v.status ≡ passed)
  pub executed :
      (e : AdaptiveExecution) × (execution ≡ some e)
      × (e.validation_outcome ≡ passed)
      × (length e.attempts ≤ s.max_validation_attempts)

module _ {env : Environment} (s : AdaptiveInferenceService env) (r : InferenceRequest)
    (contract : ValidationContract) (res : AdaptiveInferenceResult) where
  IsReturned-IsValidated :
      (run : Run) (n : ℕ)
      → run.contract ≡ contract
      → n ≤ s.max_validation_attempts
      → IsReturned s run n res
      → IsValidated s contract res.response res.execution
  IsReturned-IsValidated run n c b t =
      let (y, z, v, e, p) = t.validated in
      let (x, f, o, l) = t.execution in
      record {
        verdict = (y, z, v, subst (λ k. s.validate res.response (some k) y ≡ (ok v, z)) c e, p);
        executed = (x, f, o, omega (arith, l, b));
      }

  generate_validated-IsValidated :
      (routing : RoutingResult) (request_id : Option Text) (d : RequestDeadline) (y : System env)
      → (generate_validated s r contract routing request_id d y).0 ≡ ok res
      → IsValidated s contract res.response res.execution
  unfolding generate_validated
  generate_validated-IsValidated routing request_id d y h =
      go (given_or_new request_id (record { world = (env.uuid y.world).0; log = y.log })) h
    where
      order : List Text
      order = candidate_order s.max_validation_attempts routing

      run : Text → Run
      run id = record {
        request = r;
        contract = contract;
        routing = routing;
        execution_id = (env.uuid y.world).1;
        request_id = id;
        deadline = d;
        count = length order;
      }

      bound : length order ≤ s.max_validation_attempts
      bound = unfold candidate_order in length-take-le s.max_validation_attempts _

      go :
          (p : Result Text × System env)
          → (after (λ id. try_models s (run id) 1 [] order) p).0 ≡ ok res
          → IsValidated s contract res.response res.execution
      go (ok id, z) k =
          IsReturned-IsValidated (run id) (length {A = AdaptiveAttempt} [] + length order) refl
            (omega (arith, bound)) (try_models-IsReturned s (run id) order 1 [] z res k)
      go (err e, z) k = cc

  module _ (hint : Hint) (threshold : Value) (ids : List Text) (request_id : Option Text) where
    pub generate_adaptive-IsValidated :
        (deadline : Option RequestDeadline) (y : System env)
        → (generate_adaptive s r hint threshold ids (some contract) false request_id deadline y).0
          ≡ ok res
        → IsValidated s contract res.response res.execution
    unfolding generate_adaptive
    generate_adaptive-IsValidated deadline y h = go (deadline_or_new s.inference deadline y) h
      where
        routed_by :
            (d : RequestDeadline) (p : Result RoutingResult) (z : System env)
            → (after {env = env}
                (λ routing.
                  observe
                    (routing_decision routing.decision.selected_model_id routing.decision.reason)
                  >>= λ u. generate_validated s r contract routing request_id d)
                (p, z)).0
              ≡ ok res
            → IsValidated s contract res.response res.execution
        routed_by d (ok routing) z k = generate_validated-IsValidated routing request_id d _ k
        routed_by d (err e) z k = cc

        resolved_by :
            (d : RequestDeadline) (p : Result (List ModelConfig)) (z : System env)
            → (after {env = env}
                (λ candidates. lift (s.route r candidates threshold hint false) >>= λ routing.
                  observe
                    (routing_decision routing.decision.selected_model_id routing.decision.reason)
                  >>= λ u. generate_validated s r contract routing request_id d)
                (p, z)).0
              ≡ ok res
            → IsValidated s contract res.response res.execution
        resolved_by d (ok candidates) z k =
            routed_by d (s.route r candidates threshold hint false) z k
        resolved_by d (err e) z k = cc

        go :
            (p : Result RequestDeadline × System env)
            → (after
                (λ d. now >>= λ t.
                  if expired d t
                  then raise deadline_exceeded
                  else (lift (resolve_candidates s.inference.registry s.inference.resolver ids)
                      >>= λ candidates.
                          lift (s.route r candidates threshold hint false) >>= λ routing.
                          observe (
                            routing_decision routing.decision.selected_model_id
                              routing.decision.reason)
                          >>= λ u. generate_validated s r contract routing request_id d))
                p).0
              ≡ ok res
            → IsValidated s contract res.response res.execution
        go (ok d, z) k = elim (Bool-cases (expired d (env.monotonic z.world).1)) [
          | inl e ↦ cc (rw e at k)
          | inr e ↦
              resolved_by d (resolve_candidates s.inference.registry s.inference.resolver ids)
                (record { world = (env.monotonic z.world).0; log = z.log }) (rw e at k)
        ]
        go (err e, z) k = cc

module _ {env : Environment} (s : ChatOrchestrationService env) (id : Text)
    (c : Option RoutingCategory) (d : RequestDeadline) (x : ChatOrchestrationResult) where
  concluded-ok :
      (res : Result AdaptiveInferenceResult) (y : System env)
      → (concluded s id c d res y).0 ≡ ok x
      → (a : AdaptiveInferenceResult) × (res ≡ ok a) × (adaptive_result c a ≡ x)
  concluded-ok (ok a) y h =
      go (record_activity s s.has_activity_telemetry (adaptive_success id c a) d y) h
    where
      go :
          (p : Result (Unit {0}) × System env)
          → (after (λ u. return {env = env} (adaptive_result c a)) p).0 ≡ ok x
          → (b : AdaptiveInferenceResult) × (◌≡◌ {A = Result AdaptiveInferenceResult} (ok a) (ok b))
            × (adaptive_result c b ≡ x)
      go (ok u, z) k = (a, refl, ok-injective k)
      go (err e, z) k = cc
  concluded-ok (err e) y h = elim (Bool-cases (not (is_adaptive_failure e))) [
    | inl b ↦ cc (rw b at h)
    | inr b ↦
        absurd (
          go (record_activity s s.has_activity_telemetry (adaptive_failure id c e) d y) (rw b at h))
  ]
    where
      go :
          (p : Result (Unit {0}) × System env)
          → ¬ ((after (λ u. raise {env = env} {A = ChatOrchestrationResult} e) p).0 ≡ ok x)
      go (ok u, z) k = cc
      go (err f, z) k = cc

  -- In the mode MANUAL with an output contract, the chat answers only by the adaptive service, with a
  -- response that its validator passed under that contract in at most as many attempts as the service
  -- allows, and with the category of the request. Without the service there is no answer.
  pub chat-IsValidated :
      (r : InferenceRequest) (contract : ValidationContract) (y : System env)
      → (chat s r manual c (some contract) id d y).0 ≡ ok x
      → (runtime : AdaptiveRuntime env) × (s.adaptive_runtime ≡ some runtime)
        × IsValidated runtime.service contract x.response x.execution
        × (x.execution_mode ≡ adaptive)
        × (x.category ≡ c)
  unfolding chat
  chat-IsValidated r contract y h = go s.adaptive_runtime refl h
    where
      go :
          (o : Option (AdaptiveRuntime env))
          → s.adaptive_runtime ≡ o
          → (by_runtime s r c (some contract) id d o y).0 ≡ ok x
          → (runtime : AdaptiveRuntime env) × (s.adaptive_runtime ≡ some runtime)
            × IsValidated runtime.service contract x.response x.execution
            × (x.execution_mode ≡ adaptive)
            × (x.category ≡ c)
      go none e k = cc
      go (some runtime) e k =
          let q : Result AdaptiveInferenceResult × System env =
            generate_adaptive runtime.service r (hint_of c) runtime.approved_quality_threshold
              runtime.candidate_model_ids (some contract) false (some id) (some d) y in
          let (a, f, g) = concluded-ok q.0 q.1 k in
          (
            runtime,
            e,
            subst
                (λ (w : ChatOrchestrationResult).
                  IsValidated runtime.service contract w.response w.execution)
                g
                (generate_adaptive-IsValidated runtime.service r contract a (hint_of c)
                  runtime.approved_quality_threshold runtime.candidate_model_ids (some id) (some d)
                  y f),
            ap (λ (w : ChatOrchestrationResult). w.execution_mode) (sym g),
            ap (λ (w : ChatOrchestrationResult). w.category) (sym g),
          )
