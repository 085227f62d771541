-- ===== src/Routing/Artifact.antt =====
-- routing/predictor.py: the loading of a trusted predictor artifact. The files, the JSON parser with
-- the schemas, SHA-256, pickle and the versions of the runtime are parameters.
pub mod Loader
pub mod Trusted
use route_llm.Prelude.{
  ℕ, ◌+◌, ◌*◌, ◌^◌, Bool, true, false, not, ◌&&◌, ◌||◌, Option, none, some, List, [], ◌∷◌, any, all,
  take, leb, ◌==◌, length, is_empty, if◌then◌else◌,
}
use route_llm.Prelude.Text.{Text, codes, text_eq, member, split_on, join_with}
use route_llm.Errors.{Result, ok, err}
use route_llm.Routing.Features.{
  RoutingCategory, value, classification, coding, extraction, structured_json, qa, reasoning,
  summarization,
}

-- The subclasses of `PredictorArtifactError`.
pub data ArtifactError : Type 0 where
  artifact_not_found corrupt incompatible_format incompatible_formulation : ArtifactError
  incompatible_schema incompatible_taxonomy checksum_mismatch : ArtifactError

pub record QualityPredictorArtifactMetadata : Type 0 where
  pub artifact_format_version : Text
  pub predictor_formulation_id : Text
  pub predictor_formulation_version : Text
  pub canonical_feature_schema_version : Text
  pub category_taxonomy_version : Text
  pub training_dataset_name : Text
  pub training_dataset_version : Text
  pub training_dataset_sha256 : Text
  pub foundation_v3_protocol_sha256 : Text
  pub formulation_evidence : Text
  pub valid_training_rows : ℕ
  pub missing_label_rows : ℕ
  pub known_candidate_ids : List Text
  pub known_categories : List RoutingCategory
  pub sklearn_version : Text
  pub python_version : Text
  pub preprocessing_id : Text
  pub build_entrypoint : Text
  pub model_filename : Text
  pub model_sha256 : Text

pub record ProductionRuntimeCompatibility : Type 0 where
  pub python_major_minor : Text
  pub scikit_learn_version : Text

pub record ProductionDeploymentApproval : Type 0 where
  pub decision : Text
  pub phase : Text
  pub statement : Text

pub record SourceValidationMetadata : Type 0 where
  pub artifact_format_version : Text
  pub deployment_status : Text
  pub missing_label_rows : ℕ
  pub source_run_id : Text
  pub split_sha256 : Text
  pub training_dataset_sha256 : Text
  pub valid_training_rows : ℕ

-- The threshold in the units of routing/policy.py.
pub record ProductionQualityPredictorArtifactMetadata : Type 0 where
  pub approved_quality_threshold : ℕ
  pub artifact_format_version : Text
  pub canonical_feature_schema_version : Text
  pub deployment_approval : ProductionDeploymentApproval
  pub known_candidate_ids : List Text
  pub known_categories : List RoutingCategory
  pub model_filename : Text
  pub predictor_formulation_id : Text
  pub predictor_formulation_version : Text
  pub predictor_sha256 : Text
  pub preprocessing_id : Text
  pub protocol_sha256 : Text
  pub protocol_version : Text
  pub runtime_compatibility : ProductionRuntimeCompatibility
  pub source_validation_metadata : SourceValidationMetadata

-- The constants that are compared.
abbrev pub production_format : Text
production_format = codes "routellm-production-router-v1"

abbrev pub production_predictor_sha256 : Text
production_predictor_sha256 =
    codes "502db83a54c4072c9741a8e4c406498ad88ec97e03bce1ddaf3e0a1b0001c0aa"

abbrev pub candidate_ids : List Text
candidate_ids =
    codes "candidate-claude-sonnet-5"
    ∷ codes "candidate-gemini-3-flash"
    ∷ codes "candidate-gpt-6-luna"
    ∷ codes "candidate-nemotron-3.5-lightning"
    ∷ []

-- 0.80, the double that is nearest to it.
abbrev pub production_quality_threshold : ℕ
production_quality_threshold = 7_205_759_403_792_794 * 2 ^ 1021

-- `tuple(a) == tuple(b)`
abbrev pub same_texts : List Text → List Text → Bool
same_texts [] [] = true
same_texts (a ∷ us) (b ∷ vs) = text_eq a b && same_texts us vs
same_texts us vs = false

abbrev all_categories : List RoutingCategory
all_categories =
    classification ∷ coding ∷ extraction ∷ structured_json ∷ qa ∷ reasoning ∷ summarization ∷ []

-- `set(categories) == set(RoutingCategory)`
abbrev pub covers : List RoutingCategory → Bool
covers cs = all (λ c. any (λ d. text_eq (value c) (value d)) cs) all_categories

abbrev is_hex : Text → Bool
is_hex = all (λ c. any (λ d. c == d) (codes "0123456789abcdef"))

-- The versions of the running process.
pub record Runtime : Type 0 where
  pub sklearn_version : Text
  pub python_version : Text

-- `version.split(".")[:2]`
abbrev major_minor : Text → List Text
major_minor version = take 2 (split_on 46 version)

module _ (runtime : Runtime) where
  -- `_validate_metadata`: nothing where it does not raise.
  unfoldable pub validate_metadata : QualityPredictorArtifactMetadata → Option ArtifactError
  validate_metadata m =
      if not (text_eq m.artifact_format_version (codes "1.0.0"))
      then some incompatible_format
      else if not (text_eq m.predictor_formulation_id (codes "INTERACTION_NO_PROVIDER_PIN"))
          || not (text_eq m.predictor_formulation_version (codes "1.0.0"))
      then some incompatible_formulation
      else if not (text_eq m.canonical_feature_schema_version (codes "1.0.0"))
      then some incompatible_schema
      else if not (text_eq m.category_taxonomy_version (codes "phase7-v1"))
      then some incompatible_taxonomy
      else if not (
            text_eq m.training_dataset_sha256
              (codes "64eda8e7388233f645906412a2524982ebfb9c848c42ee24a468ba04c31d16e6"))
          || not (
              text_eq m.foundation_v3_protocol_sha256
                (codes "973c46e2dfd7c5739f623ff1c7f2378dc3e77c80e5815e23c975816700d4b861"))
          || not (text_eq m.formulation_evidence (codes "PHASE_8C_0_PROVIDER_PIN_ABLATION"))
          || not (
              text_eq m.preprocessing_id
                (codes "interaction-no-provider-pin-column-transformer-v1"))
      then some corrupt
      else if not (same_texts m.known_candidate_ids candidate_ids)
      then some corrupt
      else if not (covers m.known_categories)
      then some corrupt
      else if not (text_eq m.training_dataset_name (codes "routellm-foundation-v3"))
          || not (text_eq m.training_dataset_version (codes "3.0.0"))
          || not (m.valid_training_rows == 216)
          || not (m.missing_label_rows == 8)
          || not (text_eq m.model_filename (codes "predictor.pkl"))
          || not (length m.model_sha256 == 64)
          || not (is_hex m.model_sha256)
      then some corrupt
      else if not (text_eq m.sklearn_version runtime.sklearn_version)
      then some incompatible_format
      else if not (same_texts (major_minor m.python_version) (major_minor runtime.python_version))
      then some incompatible_format
      else none

  -- What `_validate_production_metadata` tests of the approval and of the source.
  abbrev unapproved : ProductionDeploymentApproval → Bool
  unapproved a =
      not (text_eq a.decision (codes "APPROVED_FROZEN_PRODUCTION_ROUTER"))
      || not (text_eq a.phase (codes "12.1B"))
      || is_empty a.statement

  abbrev other_source : SourceValidationMetadata → Bool
  other_source s =
      not (text_eq s.artifact_format_version (codes "phase9-dev-candidate-v1"))
      || not (text_eq s.deployment_status (codes "DEV_VALIDATION_CANDIDATE_NOT_DEPLOYED"))
      || not (
          text_eq s.split_sha256
            (codes "98c639be29da4e11fdf48073d74e83805f16fdfb72b0102b5f5543213ab4960b"))
      || not (
          text_eq s.training_dataset_sha256
            (codes "1a9cadc2d557eacb4a7dce450100cdb495a2659c2862845ce9894cf0a7791005"))
      || not (text_eq s.source_run_id (codes "cc28470f-55ed-4a2f-a6ee-8d25cf93ecd2"))
      || not (s.valid_training_rows == 557)
      || not (s.missing_label_rows == 3)

  -- `python_major_minor != ".".join(python_version_tuple()[:2])`
  abbrev other_python : ProductionRuntimeCompatibility → Bool
  other_python r =
      not (text_eq r.python_major_minor (join_with 46 (major_minor runtime.python_version)))

  -- `_validate_production_metadata`
  unfoldable pub validate_production_metadata :
      ProductionQualityPredictorArtifactMetadata → Option ArtifactError
  validate_production_metadata m =
      if not (text_eq m.artifact_format_version production_format)
      then some incompatible_format
      else if not (text_eq m.predictor_sha256 production_predictor_sha256)
      then some checksum_mismatch
      else if not (text_eq m.canonical_feature_schema_version (codes "1.0.0"))
      then some incompatible_schema
      else if not (text_eq m.predictor_formulation_id (codes "INTERACTION_NO_PROVIDER_PIN"))
          || not (text_eq m.predictor_formulation_version (codes "1.0.0"))
          || not (
              text_eq m.preprocessing_id
                (codes "interaction-no-provider-pin-column-transformer-v1"))
      then some incompatible_formulation
      else if not (same_texts m.known_candidate_ids candidate_ids)
      then some corrupt
      else if not (covers m.known_categories)
      then some incompatible_taxonomy
      else if not (m.approved_quality_threshold == production_quality_threshold)
          || not (text_eq m.model_filename (codes "predictor.pkl"))
          || not (text_eq m.protocol_version (codes "1.7.0"))
          || not (
              text_eq m.protocol_sha256
                (codes "b4cde3954a8ccd1b54684dcb62da303e7bc806248306464ae536b9ff717a0bd8"))
      then some corrupt
      else if unapproved m.deployment_approval
      then some corrupt
      else if other_source m.source_validation_metadata
      then some corrupt
      else if not (text_eq m.runtime_compatibility.scikit_learn_version runtime.sklearn_version)
      then some incompatible_format
      else if other_python m.runtime_compatibility
      then some incompatible_format
      else none
