-- ===== src/Store.antt =====
-- services/api/internal/database/store.go: the catalogue, assignments, consent and transitions.
pub mod Joins
pub mod Catalog
pub mod Sessions
