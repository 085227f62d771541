-- ===== src/Providers.antt =====
-- providers/: the adapter of the gateway with its settings, the portfolio of models, and the offline
-- adapter; bootstrap.py, which registers them.
pub mod Body
pub mod Vercel
pub mod Portfolio
pub mod Bootstrap
