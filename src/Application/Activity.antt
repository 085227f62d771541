-- ===== src/Application/Activity.antt =====
-- telemetry/contracts.py: `ChatActivityRecord`, the summary of one request of the chat. Its identifier
-- and its time are left out.
use route_llm.Prelude.{ℕ, Bool, true, ◌&&◌, Option, none, some, leb, length}
use route_llm.Prelude.Text.{Text, codes}
use route_llm.Decimal.{Decimal}
use route_llm.Validation.Contract.{ValidationStatus, passed, failed, not_run}

pub data ChatExecutionMode : Type 0 where
  direct adaptive : ChatExecutionMode

pub data ChatActivityOutcome : Type 0 where
  returned provider_failed validation_failed deadline_passed : ChatActivityOutcome

-- `ChatActivityOutcome.value`
abbrev pub outcome_value : ChatActivityOutcome → Text
outcome_value returned = codes "returned"
outcome_value provider_failed = codes "provider_failure"
outcome_value validation_failed = codes "validation_failed"
outcome_value deadline_passed = codes "deadline_exceeded"

-- `ValidationStatus.value`
abbrev pub status_value : ValidationStatus → Text
status_value passed = codes "passed"
status_value failed = codes "failed"
status_value not_run = codes "not_run"
status_value ValidationStatus.error = codes "error"

-- `category_source` is the one literal "manual" or absent.
pub record ChatActivityRecord : Type 0 where
  pub request_id : Text
  pub execution_mode : ChatExecutionMode
  pub category : Option Text
  pub is_manual_category : Bool
  pub initial_model_id : Option Text
  pub final_model_id : Option Text
  pub provider : Option Text
  pub routing_threshold_satisfied : Option Bool
  pub routing_fallback_used : Option Bool
  pub attempt_count : Option ℕ
  pub escalated : Option Bool
  pub validation_outcome : Option Text
  pub outcome : ChatActivityOutcome
  pub error_category : Option Text
  pub input_tokens : Option ℕ
  pub output_tokens : Option ℕ
  pub latency_ms : Option ℕ
  pub estimated_cost_usd : Option Decimal
  pub cost_complete : Bool

abbrev at_least_one : Option Text → Bool
at_least_one none = true
at_least_one (some t) = leb 1 (length t)

abbrev at_most : ℕ → Option Text → Bool
at_most n none = true
at_most n (some t) = leb (length t) n

abbrev valid_count : Option ℕ → Bool
valid_count none = true
valid_count (some n) = leb 1 n && leb n 3

-- The bounds that the fields declare; the constructor raises where they do not hold.
unfoldable pub valid_activity : ChatActivityRecord → Bool
valid_activity a =
    leb 1 (length a.request_id)
    && leb (length a.request_id) 128
    && at_most 64 a.category
    && at_least_one a.initial_model_id
    && at_least_one a.final_model_id
    && at_least_one a.provider
    && valid_count a.attempt_count
    && at_most 32 a.validation_outcome
    && at_most 64 a.error_category
