-- ===== src/Lib.antt =====
-- The control plane of DataTrains: a Go service that assigns recording tasks to contributors, takes
-- their sessions through consent, capture, upload, validation, review, redaction and release, and
-- erases them on request. Its state is a PostgreSQL database; each operation of
-- services/api/internal/database is one transaction on it. The development models those
-- transactions and proves what they guarantee.
--
-- Parts, with the paths of the code they model:
--   * Domain: the states of a session, the table of allowed transitions and `Session.Transition`
--     (services/api/internal/domain/session.go), the rows (services/api/internal/domain/model.go),
--     and the errors that the services return.
--   * Table and Db: a table is the list of its rows, and an SQL statement is a function on it. A
--     transaction is a function from a database to an error or to a value and a new database; one
--     that fails leaves no database, as a rollback does.
--   * Store: what an administrator creates, assignments, consent and transitions
--     (services/api/internal/database/store.go).
--   * Pipeline: artifacts, submission, and the queue of validation jobs with leases, backoff and
--     dead letters, with histories of the calls that write to it
--     (services/api/internal/database/pipeline.go).
--   * Review: the review queue, exclusive claims with histories of the calls that write them, and the
--     submission of a review, which may carry a redaction document and may start a rework session
--     (services/api/internal/database/review.go).
--   * Redaction: documents with their canonical form, plans made once for a request, and jobs
--     (services/api/internal/database/redaction.go).
--   * Erasure: legal holds, deletion requests with the keys of the stored objects, and the worker's
--     side (services/api/internal/database/erasure.go).
--   * Retention: policies, the sweep that queues purges of what has expired, and the worker's side
--     (services/api/internal/database/retention.go and retention_expiry.go).
--   * Uploads: uploads in parts, their plan and their rows
--     (services/api/internal/httpapi/multipart_uploads.go and
--     services/api/internal/database/multipart_uploads.go).
--   * Worker: the validation of a session's files, with the checks of its trajectory and its videos
--     and the normalization of the actions (services/api/internal/worker/validator.go), and the
--     turns of the processor that validate a session and that erase and purge objects
--     (services/api/internal/worker/processor.go).
--   * System: the operations from the assignment of a session to its erasure, and those of
--     retention, as calls of one machine (`Call`, `run`, `run_all`), where a call that fails leaves
--     the database as it was.
--   * Examples: the theorems at concrete databases.
-- Review and Redaction share `insert_plan`; Erasure reads the jobs of Redaction, and Redaction the
-- requests of Erasure; Retention reads the holds. Worker takes jobs from Pipeline and requests from
-- Erasure and Retention, and writes or purges the objects that these name. All move a session by
-- `Session.Transition` and write audit events.
--
-- Conventions. The name of an operation is the Go method's in snake case. A point of time is the
-- number of nanoseconds since Go's zero time, which is read back from the database as it was
-- written; that holds for whole microseconds, which are what a timestamptz keeps. A duration of 0
-- stands for all that are not positive. The identifiers that the code draws at random are
-- arguments, and an insert refuses one that is taken, as the primary key does; so do the unique
-- indexes, checks and foreign keys of services/api/migrations that a modelled statement meets.
-- Parameters are what the code takes from elsewhere: the collation of the database's texts,
-- float64 arithmetic, JSON encoding and SHA-256, the test that a JSON text is an object with a
-- field, the reading of a JSON number as an int64, the blob store's `Put` and `Purge`, and what
-- the validator asks of the blob store, the schema and the media inspector (`Files`). Recursion
-- is structural on lists, so no fuel is needed. Arithmetic that can wrap keeps its 64 bits: the
-- backoff, the time between two pointer movements, and the number of an upload's parts.
-- Columns that no modelled statement reads, such as `updated_at` of deletion requests, are left
-- out, and transactions run one after the other: they lock the rows they read or are
-- serializable. No row is then locked by another transaction, and SKIP LOCKED passes over none;
-- claims that run at the same time, of which one passes over the row that the other is taking,
-- are not modelled.
--
-- Not modelled: identity and invitations, dataset releases, the handlers of uploads, the redaction
-- turn of the worker and the order in which it tries its queues, and the operations that only list
-- rows for display. The rest of the HTTP layer, the blob stores, configuration and commands are input
-- and output; the console, the collector, scripts and infrastructure are other programs.
pub mod Base
pub mod Domain
pub mod Table
pub mod Db
pub mod Store
pub mod Redaction
pub mod Review
pub mod Pipeline
pub mod Erasure
pub mod Retention
pub mod Uploads
pub mod Worker
pub mod System
mod Examples
