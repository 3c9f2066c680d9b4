-- ===== src/Domain.antt =====
-- services/api/internal/domain: the session state machine and the rows that the store keeps.
pub mod State
pub mod Errors
pub mod Session
pub mod Model
