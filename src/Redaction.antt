-- ===== src/Redaction.antt =====
-- services/api/internal/database/redaction.go: redaction plans and the jobs that carry them out.
pub mod Document
pub mod Plans
pub mod Jobs
