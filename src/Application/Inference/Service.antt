-- ===== src/Application/Inference/Service.antt =====
-- `generate`, `_record` and `list_models` of application/service.py.
pub mod Written
pub mod Served
use route_llm.Prelude.{
  ℕ, ◌-◌, ◌*◌, Bool, true, false, not, ◌||◌, Option, none, some, List, select, length,
  if◌then◌else◌,
}
use route_llm.Prelude.Int.{pos}
use route_llm.Prelude.Text.{Text, codes, text_eq}
use route_llm.Errors.{deadline_exceeded, value_error, ok, err, is_classified}
use route_llm.Models.{ModelConfig, InferenceRequest, InferenceResponse, Result, Error}
use route_llm.Routing.Threshold.{number, finite}
use route_llm.Deadline.{RequestDeadline, new_deadline, expired, constrain_timeout}
use route_llm.Limits.{option_length}
use route_llm.Registry
use route_llm.Registry.{ModelRegistry, ProviderResolver, supports}
use route_llm.Application.World.{
  Environment, Act, TelemetryEvent, written, failure, skipped_unconfigured, skipped_deadline,
  telemetry_write, telemetry_write_failed, ◌>>=◌, return, raise, attempt, observe, ask, lift,
}
use route_llm.Application.Inference.{
  InferenceService, is_cancelled, completion_of, category_of, optional, now, counter, generate_once,
}

module _ {env : Environment} (s : InferenceService env) where
  -- What follows the attempt to store an event.
  abbrev pub stored : ℕ → TelemetryEvent → Result (Unit {0}) → Act env (Unit {0})
  stored started event (ok u) = do
    later ← counter
    observe (telemetry_write written (some (later - started)))
  stored started event (err e) = if is_cancelled e then raise e else do
    later ← counter
    _ ← observe (telemetry_write failure (some (later - started)))
    observe (telemetry_write_failed event.request_id ((later - started) * 1000))

  abbrev pub timed_record : TelemetryEvent → Option ℕ → Act env (Unit {0})
  timed_record event none = observe (telemetry_write skipped_deadline none)
  timed_record event (some timeout) = do
    started ← counter
    result ← ask (env.store event)
    stored started event result

  -- `_record`, from whether a repository is configured.
  abbrev pub recorded : Bool → TelemetryEvent → RequestDeadline → Act env (Unit {0})
  recorded false event d = observe (telemetry_write skipped_unconfigured none)
  recorded true event d = do t ← now; timed_record event (constrain_timeout d t s.telemetry_timeout)

  -- `_record`
  unfoldable pub record_event : TelemetryEvent → RequestDeadline → Act env (Unit {0})
  record_event event d = recorded s.has_telemetry event d

  -- The event of a finished inference, and the one of an inference that raised.
  abbrev success_event : InferenceRequest → Text → InferenceResponse → TelemetryEvent
  success_event r id result = record {
    request_id = id;
    model_id = result.model_id;
    provider = result.provider;
    success = true;
    latency_ms = result.latency_ms;
    max_output_tokens = r.max_output_tokens;
    temperature = r.temperature;
    prompt_characters = length r.prompt;
    system_prompt_characters = option_length r.system_prompt;
    input_tokens = some result.input_tokens;
    output_tokens = some result.output_tokens;
    estimated_cost_usd = some result.estimated_cost_usd;
    error_category = none;
  }

  abbrev latency : ℕ → Option InferenceResponse → ℕ
  latency elapsed none = elapsed * 1000
  latency elapsed (some c) = c.latency_ms

  abbrev failure_event : ModelConfig → InferenceRequest → Text → ℕ → Error → TelemetryEvent
  failure_event m r id elapsed e = record {
    request_id = id;
    model_id = m.model_id;
    provider = m.provider;
    success = false;
    latency_ms = latency elapsed (completion_of e);
    max_output_tokens = r.max_output_tokens;
    temperature = r.temperature;
    prompt_characters = length r.prompt;
    system_prompt_characters = option_length r.system_prompt;
    input_tokens = optional (λ c. c.input_tokens) (completion_of e);
    output_tokens = optional (λ c. c.output_tokens) (completion_of e);
    estimated_cost_usd = optional (λ c. c.estimated_cost_usd) (completion_of e);
    error_category = some (category_of e);
  }

  -- `(perf_counter() - started) * 1000`, which is read where there is no completion.
  abbrev elapsed_since : ℕ → Option InferenceResponse → Act env ℕ
  elapsed_since started (some c) = return 0
  elapsed_since started none = do later ← counter; return (later - started)

  -- The handler of `generate`, and what follows it.
  abbrev pub conclude :
      ModelConfig
      → InferenceRequest
      → RequestDeadline
      → Text
      → ℕ
      → Result InferenceResponse
      → Act env InferenceResponse
  conclude m r d id started (ok result) = do
    _ ← record_event (success_event r id result) d
    return result
  conclude m r d id started (err e) = if not (is_classified e) then raise e else do
    elapsed ← elapsed_since started (completion_of e)
    _ ← record_event (failure_event m r id elapsed e) d
    raise e

  -- `deadline or self.new_deadline()`
  abbrev pub deadline_or_new : Option RequestDeadline → Act env RequestDeadline
  deadline_or_new (some d) = return d
  deadline_or_new none = do
    t ← now
    lift (new_deadline t (number (finite (pos s.inference_deadline))))

  -- `request_id if request_id is not None else str(uuid4())`
  abbrev pub id_or_new : Option Text → Act env Text
  id_or_new (some id) = return id
  id_or_new none = ask env.uuid

  -- The inference by a model of the registry.
  unfoldable pub generate_with :
      ModelConfig
      → InferenceRequest
      → Option Text
      → RequestDeadline
      → Text
      → Act env InferenceResponse
  generate_with m r request_id d request_mode = do
    id ← id_or_new request_id
    started ← counter
    result ← attempt (generate_once s m r d id request_mode)
    conclude m r d id started result

  -- `generate`, from the deadline.
  unfoldable pub generate_within :
      Text → InferenceRequest → Option Text → Text → RequestDeadline → Act env InferenceResponse
  generate_within model_id r request_id request_mode d = do
    t ← now
    if expired d t
        then raise deadline_exceeded
        else (lift (Registry.get model_id s.registry) >>= λ m.
            generate_with m r request_id d request_mode)

  -- `generate`
  unfoldable pub generate :
      Text
      → InferenceRequest
      → Option Text
      → Option RequestDeadline
      → Text
      → Act env InferenceResponse
  generate model_id r request_id deadline request_mode =
      if not (text_eq request_mode (codes "explicit") || text_eq request_mode (codes "adaptive"))
      then raise value_error
      else (deadline_or_new deadline >>= generate_within model_id r request_id request_mode)

  -- `list_models`
  unfoldable pub available_models : List ModelConfig
  available_models =
      select (λ m. supports m.provider s.resolver) (Registry.list_enabled_models s.registry)
