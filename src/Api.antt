-- ===== src/Api.antt =====
-- api/: the HTTP interface. What the framework does before a handler runs (matching a route, parsing a
-- body against its schema) is no part of the model; a handler is an action of its request.
pub mod Responses
pub mod Correlation
pub mod Schemas
pub mod Routes
pub mod Operations
