-- ===== src/Erasure.antt =====
-- Legal holds and deletion of sessions (services/api/internal/database/erasure.go).
pub mod Holds
pub mod Requests
pub mod Worker
