-- ===== src/Routing/Artifact/Trusted.antt =====
-- What the loader of routing/predictor.py unpickles.
use route_llm.Prelude.{
  ◌≡◌, refl, ap, ◌∙◌, inl, inr, true, false, Option, none, some, List, [], ◌∷◌, ==_iff, &&-true,
  false, arith, Bool-cases, Option-cases,
}
use route_llm.Prelude.Text.{Text, text_eq, text_eq_iff}
use route_llm.Errors.{ok, err}
use route_llm.Routing.Artifact.{
  ArtifactError, corrupt, checksum_mismatch, Runtime, QualityPredictorArtifactMetadata,
  ProductionQualityPredictorArtifactMetadata, production_predictor_sha256,
  production_quality_threshold, candidate_ids, same_texts, validate_metadata,
  validate_production_metadata,
}
use route_llm.Routing.Artifact.Loader.{
  File, missing, unreadable, content, Directory, Parsed, malformed, object, Metadata, production,
  development, Library, Loaded, opened, of_production, of_development, parsed, read, is_production,
  unpickled, load_trusted_quality_artifact,
}

same_texts_iff : (us vs : List Text) → same_texts us vs ≡ true → us ≡ vs
same_texts_iff [] [] h = refl
same_texts_iff [] (v ∷ vs) h = cc
same_texts_iff (u ∷ us) [] h = cc
same_texts_iff (u ∷ us) (v ∷ vs) h =
    let (a, b) = &&-true _ _ h in
    ap (λ x. x ∷ us) ((text_eq_iff u v).0 a) ∙ ap (λ l. v ∷ l) (same_texts_iff us vs b)

module _ (lib : Library) (runtime : Runtime) where
  -- The metadata answers for the bytes: their checksum is the one that is pinned in the code, or for an
  -- artifact of development the one of the metadata; and the candidates are those of the code.
  abbrev pub Describes : Metadata → Text → Type 0
  Describes (production m) bytes =
      (lib.sha256 bytes ≡ production_predictor_sha256)
      × (m.known_candidate_ids ≡ candidate_ids)
      × (m.approved_quality_threshold ≡ production_quality_threshold)
  Describes (development m) bytes =
      (lib.sha256 bytes ≡ m.model_sha256) × (m.known_candidate_ids ≡ candidate_ids)

  validate_production_metadata-none :
      (m : ProductionQualityPredictorArtifactMetadata)
      → validate_production_metadata runtime m ≡ none
      → (m.predictor_sha256 ≡ production_predictor_sha256)
        × (m.known_candidate_ids ≡ candidate_ids)
        × (m.approved_quality_threshold ≡ production_quality_threshold)
  unfolding validate_production_metadata
  validate_production_metadata-none m h = (
    (text_eq_iff _ _).0 (ground arith),
    same_texts_iff _ _ (ground arith),
    (==_iff _ _).0 (ground arith),
  )

  validate_metadata-none :
      (m : QualityPredictorArtifactMetadata)
      → validate_metadata runtime m ≡ none
      → m.known_candidate_ids ≡ candidate_ids
  unfolding validate_metadata
  validate_metadata-none m h = same_texts_iff _ _ (ground arith)

module _ (lib : Library) (runtime : Runtime) (directory : Directory) where
  -- The metadata are those of the directory, valid, and the bytes are those of the model file.
  abbrev pub IsHeld : Metadata → Text → Type 0
  IsHeld (production m) bytes =
      (text : Text) × (version : Option Text) × (d : Option QualityPredictorArtifactMetadata)
      × (directory.metadata ≡ content text)
      × (lib.parse text ≡ object version (some m) d)
      × (is_production version ≡ true)
      × (validate_production_metadata runtime m ≡ none)
      × (directory.model m.model_filename ≡ content bytes)
  IsHeld (development m) bytes =
      (text : Text) × (version : Option Text) × (o : Option
        ProductionQualityPredictorArtifactMetadata)
      × (directory.metadata ≡ content text)
      × (lib.parse text ≡ object version o (some m))
      × (is_production version ≡ false)
      × (validate_metadata runtime m ≡ none)
      × (directory.model m.model_filename ≡ content bytes)

  abbrev pub Answers : Metadata → Text → Type 0
  Answers m bytes = IsHeld m bytes × Describes lib runtime m bytes

  -- How a loading ends: nothing is unpickled and it fails, or the bytes that the valid metadata describe
  -- are, once.
  pub data IsTrusted (x : Loaded lib runtime directory) : Type 0 where
    closed : (e : ArtifactError) → x ≡ ([], err e) → IsTrusted x
    spoilt :
        (m : Metadata) (bytes : Text)
        → Answers m bytes
        → x ≡ (bytes ∷ [], err corrupt)
        → IsTrusted x
    loaded :
        (m : Metadata) (bytes : Text) (p : lib.Pipeline)
        → Answers m bytes
        → lib.unpickle bytes ≡ some p
        → lib.is_quality_pipeline p ≡ true
        → x ≡ (bytes ∷ [], ok (p, m))
        → IsTrusted x

  unpickled-IsTrusted :
      (m : Metadata) (bytes : Text)
      → Answers m bytes
      → IsTrusted (bytes ∷ [], unpickled lib runtime directory m (lib.unpickle bytes))
  unpickled-IsTrusted m bytes d = elim (Option-cases (lib.unpickle bytes)) [
    | inl e ↦ spoilt m bytes d (rw e refl)
    | inr (p, e) ↦ elim (Bool-cases (lib.is_quality_pipeline p)) [
      | inl t ↦ loaded m bytes p d e t (rw (e, t) refl)
      | inr t ↦ spoilt m bytes d (rw (e, t) refl)
    ]
  ]

  opened-IsTrusted :
      (m : Metadata) (expected : Text)
      → (f : File)
      → ((bytes : Text) → f ≡ content bytes → lib.sha256 bytes ≡ expected → Answers m bytes)
      → IsTrusted (opened lib runtime directory m expected f)
  opened-IsTrusted m expected missing d = closed _ refl
  opened-IsTrusted m expected unreadable d = closed _ refl
  opened-IsTrusted m expected (content bytes) d =
      elim (Bool-cases (text_eq (lib.sha256 bytes) expected)) [
        | inl t ↦ rw t (unpickled-IsTrusted m bytes (d bytes refl ((text_eq_iff _ _).0 t)))
        | inr t ↦ closed checksum_mismatch (rw t refl)
      ]

  module _ (text : Text) (stored : directory.metadata ≡ content text) (version : Option Text) where
    of_production-IsTrusted :
        (o : Option ProductionQualityPredictorArtifactMetadata)
        (d : Option QualityPredictorArtifactMetadata)
        → lib.parse text ≡ object version o d
        → is_production version ≡ true
        → IsTrusted (of_production lib runtime directory o)
    of_production-IsTrusted none d h v = closed _ refl
    of_production-IsTrusted (some m) d h v =
        elim (Option-cases (validate_production_metadata runtime m)) [
          | inl e ↦
              let (a, b, c) = validate_production_metadata-none lib runtime m e in
              rw e (
                opened-IsTrusted (production m) m.predictor_sha256
                  (directory.model m.model_filename)
                  (λ bytes f k. ((text, version, d, stored, h, v, e, f), (k ∙ a, b, c))))
          | inr (x, e) ↦ closed x (rw e refl)
        ]

    of_development-IsTrusted :
        (d : Option QualityPredictorArtifactMetadata)
        (o : Option ProductionQualityPredictorArtifactMetadata)
        → lib.parse text ≡ object version o d
        → is_production version ≡ false
        → IsTrusted (of_development lib runtime directory d)
    of_development-IsTrusted none o h v = closed _ refl
    of_development-IsTrusted (some m) o h v = elim (Option-cases (validate_metadata runtime m)) [
      | inl e ↦ rw e (
          opened-IsTrusted (development m) m.model_sha256 (directory.model m.model_filename)
            (λ bytes f k. (
              (text, version, o, stored, h, v, e, f),
              (k, validate_metadata-none lib runtime m e),
            )))
      | inr (x, e) ↦ closed x (rw e refl)
    ]

  parsed-IsTrusted :
      (text : Text)
      → directory.metadata ≡ content text
      → (p : Parsed) → lib.parse text ≡ p
      → IsTrusted (parsed lib runtime directory p)
  parsed-IsTrusted text stored malformed h = closed _ refl
  parsed-IsTrusted text stored (object version p d) h = elim (Bool-cases (is_production version)) [
    | inl e ↦ rw e (of_production-IsTrusted text stored version p d h e)
    | inr e ↦ rw e (of_development-IsTrusted text stored version d p h e)
  ]

  read-IsTrusted : (f : File) → directory.metadata ≡ f → IsTrusted (read lib runtime directory f)
  read-IsTrusted missing h = closed _ refl
  read-IsTrusted unreadable h = closed _ refl
  read-IsTrusted (content text) h = parsed-IsTrusted text h (lib.parse text) refl

  -- Whatever the files hold, at most one text is unpickled: that of the model file which the metadata of
  -- the directory name, after these were validated. Its checksum is for a production artifact the one
  -- that the code pins and for a development artifact the one in the metadata, and the candidates are
  -- those of the code, as is the threshold of a production artifact. A pipeline is returned only with
  -- these metadata, if the text unpickles to it and it is a quality pipeline.
  pub load_trusted_quality_artifact-IsTrusted :
      IsTrusted (load_trusted_quality_artifact lib runtime directory)
  unfolding load_trusted_quality_artifact
  load_trusted_quality_artifact-IsTrusted = read-IsTrusted directory.metadata refl
