-- ===== src/Validation/Contract.antt =====
-- validation/contracts.py: output contracts, results, and the validators of both.
use route_llm.Prelude.{
  ℕ, Bool, true, false, not, ◌&&◌, ◌||◌, Option, none, some, List, map, leb, ltb, any, all,
  is_empty, length,
}
use route_llm.Prelude.Text.{Text, strip, text_eq, all_distinct}

abbrev pub max_input_characters : ℕ
max_input_characters = 262_144

abbrev pub max_json_depth : ℕ
max_json_depth = 32

abbrev pub max_constraints : ℕ
max_constraints = 64

abbrev pub max_failures : ℕ
max_failures = 16

pub data JsonType : Type 0 where
  object array string number integer boolean null : JsonType

pub data Format : Type 0 where
  text json label : Format

pub record ValidationContract : Type 0 where
  pub format : Format
  pub min_characters : Option ℕ
  pub root_type : Option JsonType
  pub required_fields : List Text
  pub field_types : List (Text × JsonType)
  pub allowed_labels : List Text

abbrev pub is_json : Format → Bool
is_json json = true
is_json f = false

abbrev pub is_label : Format → Bool
is_label label = true
is_label f = false

abbrev no_root : Option JsonType → Bool
no_root none = true
no_root (some t) = false

abbrev object_root : Option JsonType → Bool
object_root none = true
object_root (some object) = true
object_root (some t) = false

abbrev valid_name : Text → Bool
valid_name t = leb 1 (length t) && leb (length t) 128

abbrev valid_minimum : Option ℕ → Bool
valid_minimum none = true
valid_minimum (some n) = leb 1 n && leb n max_input_characters

abbrev below_minimum : Option ℕ → Text → Bool
below_minimum none t = false
below_minimum (some n) t = ltb (length t) n

abbrev keys : List (Text × JsonType) → List Text
keys = map (λ f. f.0)

-- The bounds that the fields declare.
pub declared_bounds : ValidationContract → Bool
declared_bounds c =
    valid_minimum c.min_characters
    && all valid_name c.required_fields
    && all valid_name (keys c.field_types)
    && all valid_name c.allowed_labels
    && leb (length c.required_fields) max_constraints
    && leb (length c.field_types) max_constraints
    && leb (length c.allowed_labels) max_constraints

abbrev constrains_json : ValidationContract → Bool
constrains_json c =
    not (no_root c.root_type) || not (is_empty c.required_fields) || not (is_empty c.field_types)

abbrev constrains_fields : ValidationContract → Bool
constrains_fields c = not (is_empty c.required_fields) || not (is_empty c.field_types)

-- A label with space around it, or of space alone.
abbrev untrimmed : Text → Bool
untrimmed l = not (text_eq l (strip l)) || is_empty (strip l)

abbrev labels_agree : ValidationContract → Bool
labels_agree c =
    not (is_empty c.allowed_labels)
    && not (any untrimmed c.allowed_labels)
    && not (any (below_minimum c.min_characters) c.allowed_labels)

-- `ValidationContract.compatible_constraints`: true where it does not raise.
unfoldable pub compatible_constraints : ValidationContract → Bool
compatible_constraints c =
    not (not (is_json c.format) && constrains_json c)
    && not (constrains_fields c && not (object_root c.root_type))
    && ((is_label c.format && labels_agree c)
        || (not (is_label c.format) && is_empty c.allowed_labels))
    && all_distinct c.required_fields
    && all_distinct c.allowed_labels

pub data ValidationStatus : Type 0 where
  passed failed not_run error : ValidationStatus

pub data ValidationFailureCode : Type 0 where
  empty_response minimum_characters invalid_json root_type_mismatch : ValidationFailureCode
  missing_field field_type label_not_allowed output_truncated : ValidationFailureCode
  input_size_limit json_depth_limit validator_error : ValidationFailureCode

pub record ValidationFailure : Type 0 where
  pub code : ValidationFailureCode
  pub recoverable_by_escalation : Bool

-- `validator_version` has one value and is left out; `duration_ms` is in units of the clock.
pub record ValidationResult : Type 0 where
  pub status : ValidationStatus
  pub failures : List ValidationFailure
  pub duration_ms : ℕ

abbrev pub is_validator_error : ValidationFailureCode → Bool
is_validator_error validator_error = true
is_validator_error c = false

abbrev pub is_error : ValidationStatus → Bool
is_error error = true
is_error s = false

abbrev pub is_failed : ValidationStatus → Bool
is_failed failed = true
is_failed s = false

abbrev pub is_passed : ValidationStatus → Bool
is_passed passed = true
is_passed s = false

abbrev agrees : Bool → Bool → Bool
agrees true b = b
agrees false b = not b

-- `ValidationResult.consistent_status` and the bound on the failures: true where the result can be
-- constructed.
unfoldable pub consistent_status : ValidationResult → Bool
consistent_status r =
    leb (length r.failures) max_failures
    && agrees (is_failed r.status || is_error r.status) (not (is_empty r.failures))
    && not (is_error r.status && any (λ f. not (is_validator_error f.code)) r.failures)
    && not (not (is_error r.status) && any (λ f. is_validator_error f.code) r.failures)
