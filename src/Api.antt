-- ===== src/Api.antt =====
-- dike-services/src/api.
pub mod Validation
pub mod Queries
pub mod Authorization
pub mod Rights
mod Tests
