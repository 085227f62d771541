-- ===== src/Tests.antt =====
-- The theorems at concrete inputs.
mod Sample
mod Routing
mod Validation
mod Server
mod RateLimit
mod Requests
mod Application
mod Chat
mod Gateway
mod Api
mod Telemetry
mod Artifact
mod Predictor
