-- ===== src/Validation.antt =====
-- validation/: opt-in deterministic checks of a generated response.
pub mod Contract
pub mod Json
pub mod Depth
pub mod Validator
