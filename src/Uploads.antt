-- ===== src/Uploads.antt =====
-- Uploads in parts (services/api/internal/httpapi/multipart_uploads.go and
-- services/api/internal/database/multipart_uploads.go).
pub mod Plan
pub mod Rows
