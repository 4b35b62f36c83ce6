-- ===== src/Api.antt =====
-- internal/api.
pub mod RateLimit
pub mod Bound
pub mod Demo
pub mod Batch
pub mod Counts
pub mod Dashboard
pub mod Metrics
