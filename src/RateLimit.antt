-- ===== src/RateLimit.antt =====
-- rate_limit.py: admission control of paid inference on a shared Redis.
pub mod Redis
pub mod Script
pub mod Settings
pub mod Idle
pub mod Admission
