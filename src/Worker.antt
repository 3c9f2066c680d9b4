-- ===== src/Worker.antt =====
-- The worker (services/api/internal/worker).
pub mod Purging
pub mod Unique
pub mod CrossReferences
pub mod Actions
pub mod Validator
pub mod Turn
