-- ===== src/Examples.antt =====
-- The theorems at concrete databases.
mod Data
mod Capture
mod Validation
mod Reviewing
mod Redacting
mod Retaining
mod Working
mod Validating
mod Uploading
mod Erasing
mod Histories
