-- ===== src/Application/Adaptive/Run/Returned.antt =====
-- What a validated execution returns.
use route_llm.Prelude.{
  ℕ, suc, ◌+◌, ◌≤◌, ◌≡◌, refl, sym, subst, inl, inr, true, not, ◌||◌, ◌==◌, some, List, [], ◌∷◌,
  ◌++◌, length, length-append, arith, Bool-cases,
}
use route_llm.Prelude.Text.{Text}
use route_llm.Errors.{ok, err, cancelled, completion_rejected, ok-injective}
use route_llm.Models.{InferenceResponse, Result, Error}
use route_llm.Deadline.{expired}
use route_llm.Validation.Contract.{
  ValidationStatus, ValidationResult, ValidationFailure, passed, is_passed,
}
use route_llm.Application.World.{Environment, System, Act, Observation, observe, lift, after, ◌>>=◌}
use route_llm.Application.Adaptive.{
  AdaptiveAttempt, AdaptiveExecution, AdaptiveInferenceResult, execution_of, recoverable,
}
use route_llm.Application.Adaptive.Record.{AdaptiveInferenceService, conclude_with, Run, attempt_of}
use route_llm.Application.Adaptive.Run.{
  weighed, returns, gives_up, judged, checked, handled, failed, observe_failures, try_models,
}

conclude_with-ok :
    {env : Environment} {A : Type 0} (m : Act env (Unit {0})) (o : Observation) (r : Result A)
    (y : System env) (a : A)
    → (conclude_with m o r y).0 ≡ ok a
    → r ≡ ok a
unfolding conclude_with
conclude_with-ok {env} m o r y a h = go (m y) h
  where
    go :
        (p : Result (Unit {0}) × System env)
        → (after (λ u. observe {env = env} o >>= λ v. lift r) p).0 ≡ ok a
        → r ≡ ok a
    go (ok u, z) k = k
    go (err e, z) k = cc

passed_iff : (s : ValidationStatus) → is_passed s ≡ true → s ≡ passed
passed_iff passed h = refl
passed_iff s h = cc

-- A result carries a response that the validator passed, in the last of its attempts, with the
-- decision of the routing and after at most `n` attempts.
pub record IsReturned {env : Environment} (s : AdaptiveInferenceService env) (run : Run) (n : ℕ)
    (res : AdaptiveInferenceResult) : Type 0 where
  pub validated :
      (y z : System env) × (verdict : ValidationResult) × (s.validate res.response
          (some run.contract)
          y
        ≡ (ok verdict, z))
      × (verdict.status ≡ passed)
  pub decision : res.routing_decision ≡ run.routing.decision
  pub execution :
      (e : AdaptiveExecution) × (res.execution ≡ some e)
      × (e.validation_outcome ≡ passed)
      × (length e.attempts ≤ n)

module _ {env : Environment} (s : AdaptiveInferenceService env) (run : Run) where
  abbrev IsVerdict : InferenceResponse → ValidationResult → Type 0
  IsVerdict response verdict =
      (y z : System env) × (s.validate response (some run.contract) y ≡ (ok verdict, z))

  returns-ok :
      (attempts : List AdaptiveAttempt) (response : InferenceResponse) (verdict : ValidationResult)
      (y : System env) (res : AdaptiveInferenceResult) (n : ℕ)
      → IsVerdict response verdict
      → is_passed verdict.status ≡ true
      → length attempts ≤ n
      → (returns s run attempts response verdict y).0 ≡ ok res
      → IsReturned s run n res
  returns-ok attempts response verdict y res n (a, b, v) p q h =
      subst (IsReturned s run n) (ok-injective (conclude_with-ok _ _ _ y res h)) (record {
        validated = (a, b, verdict, v, passed_iff _ p);
        decision = refl;
        execution = (
          execution_of attempts verdict.status,
          refl,
          unfold execution_of in (passed_iff _ p),
          unfold execution_of in q,
        );
      })

  gives_up-not_ok :
      (attempts : List AdaptiveAttempt) (verdict : ValidationResult) (y : System env)
      (res : AdaptiveInferenceResult)
      → ¬ ((gives_up s run attempts verdict y).0 ≡ ok res)
  gives_up-not_ok attempts verdict y res h = cc (conclude_with-ok _ _ _ y res h)

  failed-not_ok :
      (number : ℕ) (attempts : List AdaptiveAttempt) (x : Error) (y : System env)
      (res : AdaptiveInferenceResult)
      → ¬ ((failed s run number attempts x y).0 ≡ ok res)
  failed-not_ok number attempts x y res h = cc (conclude_with-ok _ _ _ y res h)

  module _ (n : ℕ) (res : AdaptiveInferenceResult) where
    -- What is known of the rest of the loop behind `count` attempts.
    abbrev Continues : ℕ → (List AdaptiveAttempt → Act env AdaptiveInferenceResult) → Type 0
    Continues count next =
        (more : List AdaptiveAttempt) (y : System env)
        → length more ≡ count
        → (next more y).0 ≡ ok res
        → IsReturned s run n res

    judged-ok :
        (number : ℕ) (attempts : List AdaptiveAttempt) (response : InferenceResponse)
        (verdict : ValidationResult) (next : List AdaptiveAttempt → Act env AdaptiveInferenceResult)
        (y : System env)
        → IsVerdict response verdict
        → length attempts ≤ n
        → Continues (length attempts) next
        → (judged s run number attempts response verdict next y).0 ≡ ok res
        → IsReturned s run n res
    judged-ok number attempts response verdict next y v q k h =
        elim (Bool-cases (is_passed verdict.status)) [
          | inl e ↦ returns-ok attempts response verdict y res n v e q (rw e at h)
          | inr e ↦ elim (Bool-cases (not (recoverable verdict) || number == run.count)) [
            | inl f ↦ absurd (gives_up-not_ok attempts verdict y res (rw (e, f) at h))
            | inr f ↦ k attempts y refl (rw (e, f) at h)
          ]
        ]

    observe_failures-ok :
        (model : Text) (number : ℕ) (fs : List ValidationFailure) (y : System env)
        → (observe_failures s model number fs y).0 ≡ ok tt
    observe_failures-ok model number [] y = refl
    observe_failures-ok model number (f ∷ fs) y = observe_failures-ok model number fs _

    module _ (number : ℕ) (model : Text) (attempts : List AdaptiveAttempt)
        (next : List AdaptiveAttempt → Act env AdaptiveInferenceResult)
        (k : Continues (length attempts + 1) next) (q : length attempts + 1 ≤ n) where
      added : (a : AdaptiveAttempt) → length (attempts ++ a ∷ []) ≡ length attempts + 1
      added a = length-append attempts (a ∷ [])

      weighed-ok :
          (response : InferenceResponse) (verdict : ValidationResult) (y : System env)
          → IsVerdict response verdict
          → (weighed s run number model attempts response next verdict y).0 ≡ ok res
          → IsReturned s run n res
      weighed-ok response verdict y v h =
          elim (Bool-cases (expired run.deadline (env.monotonic y.world).1)) [
            | inl e ↦ cc (rw e at h)
            | inr e ↦
                go
                  (observe_failures s model number verdict.failures
                    (record { world = (env.monotonic y.world).0; log = y.log }))
                  (rw e at h)
          ]
        where
          all_attempts : List AdaptiveAttempt
          all_attempts = attempts ++ attempt_of number model response verdict ∷ []

          go :
              (p : Result (Unit {0}) × System env)
              → (after (λ u. judged s run number all_attempts response verdict next) p).0 ≡ ok res
              → IsReturned s run n res
          go (ok u, z) g =
              judged-ok number all_attempts response verdict next z v
                (omega (arith, added (attempt_of number model response verdict)))
                (subst (λ c. Continues c next)
                  (sym (added (attempt_of number model response verdict))) k)
                g
          go (err x, z) g = cc

      checked-ok :
          (response : InferenceResponse) (y : System env)
          → (checked s run number model attempts response next y).0 ≡ ok res
          → IsReturned s run n res
      checked-ok response y h = elim (Bool-cases (expired run.deadline (env.monotonic y.world).1)) [
        | inl e ↦ cc (rw e at h)
        | inr e ↦ go (s.validate response (some run.contract) later) refl (rw e at h)
      ]
        where
          later : System env
          later = record { world = (env.monotonic y.world).0; log = y.log }

          go :
              (p : Result ValidationResult × System env)
              → s.validate response (some run.contract) later ≡ p
              → (after (weighed s run number model attempts response next) p).0 ≡ ok res
              → IsReturned s run n res
          go (ok verdict, z) e g = weighed-ok response verdict z (later, z, e) g
          go (err x, z) e g = cc

      handled-ok :
          (result : Result InferenceResponse) (y : System env)
          → (handled s run number model attempts result next y).0 ≡ ok res
          → IsReturned s run n res
      handled-ok (ok response) y h = checked-ok response y h
      handled-ok (err (completion_rejected c response)) y h = checked-ok response y h
      handled-ok (err cancelled) y h = cc
      handled-ok (err e) y h = absurd (failed-not_ok number attempts e y res h)

  -- A validated execution returns only a response that the validator passed under the contract of the
  -- request, in at most as many attempts as there are models in the order, and with the decision of
  -- the routing.
  pub try_models-IsReturned :
      (models : List Text) (number : ℕ) (attempts : List AdaptiveAttempt) (y : System env)
      (res : AdaptiveInferenceResult)
      → (try_models s run number attempts models y).0 ≡ ok res
      → IsReturned s run (length attempts + length models) res
  unfolding try_models
  try_models-IsReturned [] number attempts y res h = cc
  try_models-IsReturned (model ∷ models) number attempts y res h =
      elim (Bool-cases (expired run.deadline (env.monotonic y.world).1)) [
        | inl e ↦ cc (rw e at h)
        | inr e ↦
            handled-ok (length attempts + suc (length models)) res number model attempts
              (λ more. try_models s run (number + 1) more models)
              (λ more z c g.
                subst (λ n. IsReturned s run n res) (omega (arith, c))
                  (try_models-IsReturned models (number + 1) more z res g))
              (omega arith) _ _ (rw e at h)
      ]
