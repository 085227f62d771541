-- ===== src/Routing.antt =====
-- routing/: the pre-generation routing of a request to a model.
pub mod Threshold
pub mod Policy
pub mod Features
pub mod Allowance
pub mod Service
pub mod Artifact
pub mod Canonical
pub mod Predictor
