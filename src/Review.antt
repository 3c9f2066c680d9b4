-- ===== src/Review.antt =====
-- services/api/internal/database/review.go: claims of sessions by reviewers, and their reviews.
pub mod Claims
pub mod Submission
pub mod Calls
