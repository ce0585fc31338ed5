-- ===== src/Observability.antt =====
-- Metrics and health: dike-services/src/observability.
pub mod Metrics
pub mod Bus
