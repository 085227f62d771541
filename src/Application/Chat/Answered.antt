-- ===== src/Application/Chat/Answered.antt =====
-- The direct path of application/chat.py beside the inference it stands on.
use route_llm.Prelude.{
  ℕ, ◌≤◌, ◌≡◌, refl, sym, ap, ◌∙◌, subst, inl, inr, Bool, true, false, not, Option, none, some,
  List, [], ◌∷◌, ◌++◌, leb, length, arith, Bool-cases,
}
use mathlib.Core.List.{append_assoc, append-nil}
use route_llm.Prelude.Text.{Text, codes}
use route_llm.Errors.{ok, err, cancelled, ok-injective}
use route_llm.Models.{ModelConfig, InferenceRequest, InferenceResponse, Result, Error}
use route_llm.Deadline.{RequestDeadline, constrain_timeout}
use route_llm.Registry
use route_llm.Routing.Features.{RoutingCategory}
use route_llm.Validation.Contract.{ValidationContract}
use route_llm.Application.World.{
  Environment, System, Observation, after, activity_write, activity_write_failed, written, failure,
}
use route_llm.Application.Activity.{
  ChatActivityRecord, ChatActivityOutcome, outcome_value, valid_activity,
}
use route_llm.Application.Inference.{is_cancelled}
use route_llm.Application.Inference.Outcome.{is_cancelled_iff, IsFrom}
use route_llm.Application.Inference.Service.{generate}
use route_llm.Application.Inference.Service.Served.{generate-IsServed}
use route_llm.Application.Chat.Record.{
  is_direct_failure, failure_outcome, direct_failure, direct_success,
}
use route_llm.Application.Chat.{
  ChatOrchestrationService, ChatOrchestrationResult, auto, stored, timed_record, record_activity,
  answered, direct_result, chat,
}

-- What is observed of the activity record of one request.
pub data IsActivityWrite (ws : List Observation) : Type 0 where
  skipped : ws ≡ [] → IsActivityWrite ws
  stored_once : (o : Option ℕ) → ws ≡ activity_write written o ∷ [] → IsActivityWrite ws
  refused :
      (o : Option ℕ) (id : Text) (l : ℕ)
      → ws ≡ activity_write failure o ∷ activity_write_failed id l ∷ []
      → IsActivityWrite ws

-- The answer is that, and behind the observations of `y` there are those of one activity record.
abbrev pub Answers :
    {env : Environment} {A : Type 0} → System env → Result A → Result A × System env → Type 0
Answers y r (res, z) =
    (res ≡ r) × (ws : List Observation) × IsActivityWrite ws × (z.log ≡ y.log ++ ws)

-- The response of the inference as an answer of the chat, or its error.
abbrev pub as_direct : Result InferenceResponse → Result ChatOrchestrationResult
as_direct (ok x) = ok (direct_result x)
as_direct (err e) = err e

-- The repository's task is not cancelled while it stores an activity record.
abbrev pub IsUncancelled : Environment → Type 0
IsUncancelled env =
    (event : ChatActivityRecord) (w : env.State)
    → ¬ ((env.store_activity event w).1 ≡ err cancelled)

module _ {env : Environment} (s : ChatOrchestrationService env) (u : IsUncancelled env) where
  stored-Answers :
      (started : ℕ) (event : ChatActivityRecord) (r : Result (Unit {0})) (y : System env)
      → ¬ (r ≡ err cancelled)
      → Answers y (ok tt) (stored s started event r y)
  stored-Answers started event (ok t) y n = (refl, _, stored_once _ refl, refl)
  stored-Answers started event (err e) y n = elim (Bool-cases (is_cancelled e)) [
    | inl c ↦ absurd (n (ap err (is_cancelled_iff e c)))
    | inr c ↦ rw c (refl, _, refused _ _ _ refl, append_assoc y.log _ _)
  ]

  timed_record-Answers :
      (event : ChatActivityRecord) (o : Option ℕ) (y : System env)
      → Answers y (ok tt) (timed_record s event o y)
  timed_record-Answers event none y = (refl, [], skipped refl, sym (append-nil y.log))
  timed_record-Answers event (some t) y =
      stored-Answers (env.perf_counter y.world).1 event
        (env.store_activity event (env.perf_counter y.world).0).1
        (record { world = (env.store_activity event (env.perf_counter y.world).0).0; log = y.log })
        (u event (env.perf_counter y.world).0)

  record_activity-Answers :
      (has : Bool) (event : ChatActivityRecord) (d : RequestDeadline) (y : System env)
      → valid_activity event ≡ true
      → Answers y (ok tt) (record_activity s has event d y)
  unfolding record_activity
  record_activity-Answers false event d y v = rw v (refl, [], skipped refl, sym (append-nil y.log))
  record_activity-Answers true event d y v = rw v (
      timed_record-Answers event
        (constrain_timeout d (env.monotonic y.world).1 s.inference_service.telemetry_timeout)
        (record { world = (env.monotonic y.world).0; log = y.log }))

  -- What follows the record does not touch what it observed.
  after-Answers :
      {A : Type 0} (res : Result A) (p : Result (Unit {0}) × System env) (y : System env)
      → Answers y (ok tt) p
      → Answers y res (after (λ t z. (res, z)) p)
  after-Answers res (ok t, z) y (e, ws, w, l) = (refl, ws, w, l)
  after-Answers res (err x, z) y (e, ws, w, l) = cc e

  abbrev HasNames : InferenceResponse → Type 0
  HasNames x = (1 ≤ length x.model_id) × (1 ≤ length x.provider)

  outcome_value-length : (o : ChatActivityOutcome) → leb (length (outcome_value o)) 64 ≡ true
  outcome_value-length ChatActivityOutcome.returned = refl
  outcome_value-length ChatActivityOutcome.provider_failed = refl
  outcome_value-length ChatActivityOutcome.validation_failed = refl
  outcome_value-length ChatActivityOutcome.deadline_passed = refl

  module _ (id : Text) (lower : 1 ≤ length id) (upper : length id ≤ 128) where
    direct_success-valid :
        (x : InferenceResponse) → HasNames x → valid_activity (direct_success id x) ≡ true
    unfolding valid_activity
    direct_success-valid x (a, b) = ground arith

    direct_failure-valid :
        (model_id provider : Text) (e : Error)
        → 1 ≤ length model_id
        → 1 ≤ length provider
        → valid_activity (direct_failure id model_id provider e) ≡ true
    unfolding valid_activity
    direct_failure-valid model_id provider e a b =
        ground (arith, outcome_value-length (failure_outcome e))

    module _ (d : RequestDeadline) (m : ModelConfig)
        (g : Registry.get s.default_model_id s.inference_service.registry ≡ ok m)
        (p : 1 ≤ length m.provider) (n : 1 ≤ length s.default_model_id) where
      answered-Answers :
          (res : Result InferenceResponse) (y : System env)
          → ((x : InferenceResponse) → res ≡ ok x → HasNames x)
          → Answers y (as_direct res) (answered s id d res y)
      answered-Answers (ok x) y h =
          after-Answers (ok (direct_result x))
            (record_activity s s.has_activity_telemetry (direct_success id x) d y) y
            (record_activity-Answers s.has_activity_telemetry (direct_success id x) d y
              (direct_success-valid x (h x refl)))
      answered-Answers (err e) y h = elim (Bool-cases (not (is_direct_failure e))) [
        | inl c ↦ rw c (refl, [], skipped refl, sym (append-nil y.log))
        | inr c ↦
            rw (c, g)
              (after-Answers (err e)
                (record_activity s s.has_activity_telemetry
                  (direct_failure id s.default_model_id m.provider e) d y)
                y
                (record_activity-Answers s.has_activity_telemetry
                  (direct_failure id s.default_model_id m.provider e) d y
                  (direct_failure-valid s.default_model_id m.provider e n p)))
      ]

      -- In the mode AUTO the chat answers exactly what the inference by the default model answers,
      -- its errors included, whatever becomes of the activity record: behind the observations of the
      -- inference there are at most those of the one write of the record. The identifier of the
      -- request has from 1 to 128 characters, the default model is registered, no name of it is
      -- empty, and the write is not cancelled.
      pub chat-Answers :
          (r : InferenceRequest) (c : Option RoutingCategory) (v : Option ValidationContract)
          (y : System env)
          → 1 ≤ length m.model_id
          → let (res, z) =
              generate s.inference_service s.default_model_id r
                (some id)
                (some d)
                (codes "explicit")
                y in
            Answers z (as_direct res) (chat s r auto c v id d y)
      unfolding chat
      chat-Answers r c v y k =
          let q : Result InferenceResponse × System env =
            generate s.inference_service s.default_model_id r (some id) (some d) (codes "explicit")
              y in
          answered-Answers q.0 q.1 (λ x e.
            let t =
              generate-IsServed s.inference_service s.default_model_id r (some id)
                (codes "explicit") x (some d) y e in
            named x t.model t.registered t.own)
        where
          named :
              (x : InferenceResponse) (m' : ModelConfig)
              → Registry.get s.default_model_id s.inference_service.registry ≡ ok m'
              → IsFrom m' x
              → HasNames x
          named x m' f (a, b) =
              let same : m' ≡ m = ok-injective (sym f ∙ g) in
              (
                subst (λ t. 1 ≤ length t) (ap (λ (w : ModelConfig). w.model_id) (sym same) ∙ sym a)
                    k,
                subst (λ t. 1 ≤ length t) (ap (λ (w : ModelConfig). w.provider) (sym same) ∙ sym b)
                    p,
              )
