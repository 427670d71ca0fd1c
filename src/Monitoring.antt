-- ===== src/Monitoring.antt =====
-- internal/monitoring/service.go: metrics and health checks.
pub mod State
pub mod Checks
pub mod Metrics
pub mod Counting
pub mod Health
pub mod Serving
