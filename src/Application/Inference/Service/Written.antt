-- ===== src/Application/Inference/Service/Written.antt =====
-- What `_record` of application/service.py observes.
use route_llm.Prelude.{
  ℕ, ◌≡◌, refl, inl, inr, Bool, true, false, Option, none, some, List, [], ◌∷◌, ◌++◌, Bool-cases,
}
use mathlib.Core.List.{append_assoc}
use route_llm.Prelude.Text.{Text}
use route_llm.Errors.{ok, err}
use route_llm.Models.{Result}
use route_llm.Deadline.{RequestDeadline, constrain_timeout}
use route_llm.Application.World.{
  Environment, System, Observation, WriteOutcome, failure, telemetry_write, telemetry_write_failed,
  TelemetryEvent,
}
use route_llm.Application.Inference.{InferenceService, is_cancelled}
use route_llm.Application.Inference.Service.{stored, timed_record, recorded, record_event}

-- The observations of one write of telemetry: its outcome, and the event of a failure.
pub data IsWrite (ws : List Observation) : Type 0 where
  written : (o : WriteOutcome) (d : Option ℕ) → ws ≡ telemetry_write o d ∷ [] → IsWrite ws
  failed :
      (d : Option ℕ) (id : Text) (l : ℕ)
      → ws ≡ telemetry_write failure d ∷ telemetry_write_failed id l ∷ []
      → IsWrite ws

-- One write was added to what was observed before.
abbrev pub Writes : {env : Environment} → System env → System env → Type 0
Writes y z = (ws : List Observation) × IsWrite ws × (z.log ≡ y.log ++ ws)

module _ {env : Environment} (s : InferenceService env) where
  stored-Writes :
      (started : ℕ) (event : TelemetryEvent) (r : Result (Unit {0})) (y : System env)
      → (stored s started event r y).0 ≡ ok tt
      → Writes y (stored s started event r y).1
  stored-Writes started event (ok u) y h = (_, written _ _ refl, refl)
  stored-Writes started event (err e) y h = elim (Bool-cases (is_cancelled e)) [
    | inl c ↦ cc (rw c at h)
    | inr c ↦ rw c (_, failed _ _ _ refl, append_assoc y.log _ _)
  ]

  timed_record-Writes :
      (event : TelemetryEvent) (o : Option ℕ) (y : System env)
      → (timed_record s event o y).0 ≡ ok tt
      → Writes y (timed_record s event o y).1
  timed_record-Writes event none y h = (_, written _ _ refl, refl)
  timed_record-Writes event (some t) y h =
      stored-Writes (env.perf_counter y.world).1 event
        (env.store event (env.perf_counter y.world).0).1
        (record { world = (env.store event (env.perf_counter y.world).0).0; log = y.log }) h

  recorded-Writes :
      (b : Bool) (event : TelemetryEvent) (d : RequestDeadline) (y : System env)
      → (recorded s b event d y).0 ≡ ok tt
      → Writes y (recorded s b event d y).1
  recorded-Writes false event d y h = (_, written _ _ refl, refl)
  recorded-Writes true event d y h =
      timed_record-Writes event (constrain_timeout d (env.monotonic y.world).1 s.telemetry_timeout)
        (record { world = (env.monotonic y.world).0; log = y.log }) h

  pub record_event-Writes :
      (event : TelemetryEvent) (d : RequestDeadline) (y : System env)
      → (record_event s event d y).0 ≡ ok tt
      → Writes y (record_event s event d y).1
  unfolding record_event
  record_event-Writes event d y h = recorded-Writes s.has_telemetry event d y h
