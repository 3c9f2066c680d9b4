-- ===== src/Pipeline.antt =====
-- services/api/internal/database/pipeline.go: artifacts, submission and validation jobs.
pub mod Artifacts
pub mod Backoff
pub mod Jobs
pub mod Lease
pub mod Outcome
pub mod Queue
