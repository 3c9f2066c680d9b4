-- ===== src/Retention.antt =====
-- Retention periods and the purge of what has expired
-- (services/api/internal/database/retention.go and retention_expiry.go).
pub mod Policy
pub mod Expiry
pub mod Sweep
pub mod Worker
