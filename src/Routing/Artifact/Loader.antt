-- ===== src/Routing/Artifact/Loader.antt =====
-- `load_trusted_quality_artifact` of routing/predictor.py. Beside its result it tells the bytes that it
-- hands to `pickle.loads`, in order.
use route_llm.Prelude.{Bool, false, not, Option, none, some, List, [], ◌∷◌, if◌then◌else◌}
use route_llm.Prelude.Text.{Text, text_eq}
use route_llm.Errors.{Result, ok, err}
use route_llm.Routing.Artifact.{
  ArtifactError, artifact_not_found, corrupt, checksum_mismatch, Runtime, production_format,
  QualityPredictorArtifactMetadata, ProductionQualityPredictorArtifactMetadata, validate_metadata,
  validate_production_metadata,
}

-- A file: bytes are read as their text.
pub data File : Type 0 where
  missing unreadable : File
  content : Text → File

pub record Directory : Type 0 where
  pub metadata : File
  pub model : Text → File

-- What `json.loads` and the two schemas make of a text: no JSON object, or an object with its format
-- and what each schema makes of it.
pub data Parsed : Type 0 where
  malformed : Parsed
  object :
      Option Text
      → Option ProductionQualityPredictorArtifactMetadata
      → Option QualityPredictorArtifactMetadata
      → Parsed

pub data Metadata : Type 0 where
  production : ProductionQualityPredictorArtifactMetadata → Metadata
  development : QualityPredictorArtifactMetadata → Metadata

-- `unpickle` gives nothing where it raises.
pub record Library : Type 1 where
  pub Pipeline : Type 0
  pub parse : Text → Parsed
  pub sha256 : Text → Text
  pub unpickle : Text → Option Pipeline
  pub is_quality_pipeline : Pipeline → Bool

abbrev pub is_production : Option Text → Bool
is_production none = false
is_production (some version) = text_eq version production_format

module _ (lib : Library) (runtime : Runtime) (directory : Directory) where
  abbrev pub Loaded : Type 0
  Loaded = List Text × Result ArtifactError (lib.Pipeline × Metadata)

  abbrev pub unpickled :
      Metadata → Option lib.Pipeline → Result ArtifactError (lib.Pipeline × Metadata)
  unpickled m none = err corrupt
  unpickled m (some p) = if lib.is_quality_pipeline p then ok (p, m) else err corrupt

  -- What becomes of the model file, from the metadata and the expected checksum.
  abbrev pub opened : Metadata → Text → File → Loaded
  opened m expected missing = ([], err artifact_not_found)
  opened m expected unreadable = ([], err corrupt)
  opened m expected (content bytes) =
      if not (text_eq (lib.sha256 bytes) expected)
      then ([], err checksum_mismatch)
      else (bytes ∷ [], unpickled m (lib.unpickle bytes))

  abbrev pub validated : Metadata → Text → Text → Option ArtifactError → Loaded
  validated m filename expected (some e) = ([], err e)
  validated m filename expected none = opened m expected (directory.model filename)

  abbrev pub of_production : Option ProductionQualityPredictorArtifactMetadata → Loaded
  of_production none = ([], err corrupt)
  of_production (some m) =
      validated (production m) m.model_filename m.predictor_sha256
        (validate_production_metadata runtime m)

  abbrev pub of_development : Option QualityPredictorArtifactMetadata → Loaded
  of_development none = ([], err corrupt)
  of_development (some m) =
      validated (development m) m.model_filename m.model_sha256 (validate_metadata runtime m)

  abbrev pub parsed : Parsed → Loaded
  parsed malformed = ([], err corrupt)
  parsed (object version p d) = if is_production version then of_production p else of_development d

  abbrev pub read : File → Loaded
  read missing = ([], err artifact_not_found)
  read unreadable = ([], err corrupt)
  read (content text) = parsed (lib.parse text)

  -- `load_trusted_quality_artifact`
  unfoldable pub load_trusted_quality_artifact : Loaded
  load_trusted_quality_artifact = read directory.metadata
