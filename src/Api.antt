-- ===== src/Api.antt =====
-- src/mirenai/api: the checks of the requests and the handlers.
pub mod Queries
pub mod Schemas
pub mod Routes
