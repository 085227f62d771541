-- ===== src/Telemetry.antt =====
-- telemetry/query.py and the query of chat activity in persistence/repository.py.
pub mod Cursor
pub mod Pages
