-- ===== src/Application.antt =====
-- application/: the services that answer a request, over the world they run in.
pub mod World
pub mod Inference
pub mod Adaptive
pub mod Activity
pub mod Chat
pub mod Configured
