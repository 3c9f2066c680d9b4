-- ===== src/System.antt =====
-- The operations together.
mod Rows
pub mod Consented
pub mod Calls
