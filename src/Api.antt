-- ===== src/Api.antt =====
-- src/api: the errors, the responses and the two handlers.
pub mod Error
pub mod Response
pub mod Handler
pub mod Route
pub mod Router
pub mod Guards
pub mod Served
pub mod Track
pub mod Consistent
