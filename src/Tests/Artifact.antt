-- ===== src/Tests/Artifact.antt =====
-- The loading of an artifact over texts: the digest of a text is the pinned one for the bytes "model",
-- and the text itself else; these bytes unpickle to a quality pipeline.
use route_llm.Prelude.{
  ℕ, ◌≡◌, refl, Bool, true, false, Option, none, some, List, [], ◌∷◌, if◌then◌else◌,
}
use route_llm.Prelude.Text.{Text, codes, text_eq}
use route_llm.Errors.{ok}
use route_llm.Routing.Features.{
  classification, coding, extraction, structured_json, qa, reasoning, summarization,
}
use route_llm.Routing.Artifact.{
  Runtime, ProductionQualityPredictorArtifactMetadata, production_format,
  production_predictor_sha256, candidate_ids, production_quality_threshold,
  validate_production_metadata,
}
use route_llm.Routing.Artifact.Loader.{
  missing, content, Directory, malformed, object, production, Library,
  load_trusted_quality_artifact,
}
use route_llm.Routing.Artifact.Trusted.{IsTrusted, load_trusted_quality_artifact-IsTrusted}

abbrev runtime : Runtime
runtime = record { sklearn_version = codes "1.7.2"; python_version = codes "3.12.4" }

abbrev metadata : ProductionQualityPredictorArtifactMetadata
metadata = record {
  approved_quality_threshold = production_quality_threshold;
  artifact_format_version = production_format;
  canonical_feature_schema_version = codes "1.0.0";
  deployment_approval = record {
    decision = codes "APPROVED_FROZEN_PRODUCTION_ROUTER";
    phase = codes "12.1B";
    statement = codes "Approved.";
  };
  known_candidate_ids = candidate_ids;
  known_categories =
      classification ∷ coding ∷ extraction ∷ structured_json ∷ qa ∷ reasoning ∷ summarization ∷ [];
  model_filename = codes "predictor.pkl";
  predictor_formulation_id = codes "INTERACTION_NO_PROVIDER_PIN";
  predictor_formulation_version = codes "1.0.0";
  predictor_sha256 = production_predictor_sha256;
  preprocessing_id = codes "interaction-no-provider-pin-column-transformer-v1";
  protocol_sha256 = codes "b4cde3954a8ccd1b54684dcb62da303e7bc806248306464ae536b9ff717a0bd8";
  protocol_version = codes "1.7.0";
  runtime_compatibility = record {
    python_major_minor = codes "3.12";
    scikit_learn_version = codes "1.7.2";
  };
  source_validation_metadata = record {
    artifact_format_version = codes "phase9-dev-candidate-v1";
    deployment_status = codes "DEV_VALIDATION_CANDIDATE_NOT_DEPLOYED";
    missing_label_rows = 3;
    source_run_id = codes "cc28470f-55ed-4a2f-a6ee-8d25cf93ecd2";
    split_sha256 = codes "98c639be29da4e11fdf48073d74e83805f16fdfb72b0102b5f5543213ab4960b";
    training_dataset_sha256 =
        codes "1a9cadc2d557eacb4a7dce450100cdb495a2659c2862845ce9894cf0a7791005";
    valid_training_rows = 557;
  };
}

-- A pipeline is its bytes.
abbrev library : Library
library = record {
  Pipeline = Text;
  parse = λ text.
      if text_eq text (codes "{}")
      then object (some production_format) (some metadata) none
      else malformed;
  sha256 = λ bytes. if text_eq bytes (codes "model") then production_predictor_sha256 else bytes;
  unpickle = λ bytes. some bytes;
  is_quality_pipeline = λ p. text_eq p (codes "model");
}

abbrev directory : Directory
directory = record {
  metadata = content (codes "{}");
  model = λ name. if text_eq name (codes "predictor.pkl") then content (codes "model") else missing;
}

load_trusted_quality_artifact_run :
    load_trusted_quality_artifact library runtime directory
    ≡ (codes "model" ∷ [], ok (codes "model", production metadata))
unfolding load_trusted_quality_artifact validate_production_metadata text_eq
    route_llm.Prelude.Text.split_on
load_trusted_quality_artifact_run = refl

load_trusted_quality_artifact-IsTrusted_example :
    IsTrusted library runtime directory (load_trusted_quality_artifact library runtime directory)
load_trusted_quality_artifact-IsTrusted_example =
    load_trusted_quality_artifact-IsTrusted library runtime directory
