-- ===== src/System/Calls.antt =====
-- The operations as one machine: a call, what it does to the database, and a history of calls.
-- A call that fails leaves the database as it was.
pub mod Kept
pub mod Worked
pub mod Reviewed
pub mod Untouched
pub mod Spared
pub mod Always
pub mod Guarded
pub mod Held
pub mod Retained
use data_trains.Base.{ℕ, String, Bool, List, [], ◌∷◌}
use data_trains.Domain.State.{SessionState}
use data_trains.Domain.Model.{Time, Artifact, ValidationResult}
use data_trains.Db.{Db, RetentionPolicy, after}
use data_trains.Store.Catalog.{assign_task}
use data_trains.Store.Sessions.{accept_consent, transition_session}
use data_trains.Pipeline.Artifacts.{register_artifact}
use data_trains.Pipeline.Jobs.{submit_session}
use data_trains.Pipeline.Lease.{claim_validation_job}
use data_trains.Pipeline.Outcome.{
  complete_validation_job, requeue_validation_job, retry_dead_letter_job,
}
use data_trains.Review.Claims.{claim_review, release_review}
use data_trains.Review.Submission.{Review, ReviewIds, submit_review}
use data_trains.Redaction.Document.{Floats, RedactionDocument}
use data_trains.Redaction.Plans.{Encoding, create_redaction_plan}
use data_trains.Redaction.Jobs.{
  claim_redaction_job, complete_redaction_job, requeue_redaction_job,
  retry_dead_letter_redaction_job,
}
use data_trains.Erasure.Holds.{place_legal_hold, release_legal_hold}
use data_trains.Erasure.Requests.{request_session_deletion}
use data_trains.Erasure.Worker.{
  claim_deletion_request, complete_deletion_request, requeue_deletion_request,
  retry_dead_letter_deletion_request,
}
use data_trains.Retention.Policy.{upsert_retention_policy}
use data_trains.Retention.Sweep.{queue_expired_retention}
use data_trains.Retention.Worker.{
  claim_retention_purge, complete_retention_purge, requeue_retention_purge,
  retry_dead_letter_retention_purge,
}

-- The operations on a session from its assignment to its erasure, with their arguments.
pub data Call (N : Type 0) : Type 0 where
  assign :
      (task_id contributor_id assignment_id session_id actor request_id : String) (now : Time)
      → Call N
  accept :
      (session_id contributor_id document_id version new_id actor request_id : String) (now : Time)
      → Call N
  move : (session_id : String) (to : SessionState) (actor request_id : String) (now : Time) → Call N
  register : (artifact : Artifact) (new_id actor request_id : String) (now : Time) → Call N
  submit : (session_id job_id actor request_id : String) (now : Time) → Call N
  claim_job : (worker_id : String) (duration : ℕ) (now : Time) → Call N
  complete_job :
      (job_id worker_id : String) (given : ValidationResult) (result_id : String) (now : Time)
      → Call N
  requeue_job : (job_id worker_id error : String) (max_attempts : ℕ) (now : Time) → Call N
  retry_job : (job_id actor request_id : String) (now : Time) → Call N
  claim_session :
      (session_id reviewer_id actor request_id : String) (lease : ℕ) (now : Time) → Call N
  release_session : (session_id reviewer_id actor request_id : String) (now : Time) → Call N
  review : (given : Review N) (ids : ReviewIds) (actor request_id : String) (now : Time) → Call N
  place_hold : (session_id reason hold_id actor request_id : String) (now : Time) → Call N
  release_hold : (session_id hold_id actor request_id : String) (now : Time) → Call N
  request_deletion : (session_id reason new_id actor request_id : String) (now : Time) → Call N
  claim_deletion : (worker_id : String) (duration : ℕ) (now : Time) → Call N
  complete_deletion : (deletion_id worker_id : String) (now : Time) → Call N
  requeue_deletion : (deletion_id worker_id error : String) (max_attempts : ℕ) (now : Time) → Call N
  retry_deletion : (deletion_id actor request_id : String) (now : Time) → Call N
  plan_redaction :
      (document : RedactionDocument N) (session_id reviewer_id actor : String)
      (ids : String × String) (request_id : String) (now : Time)
      → Call N
  claim_redaction : (worker_id : String) (duration : ℕ) (now : Time) → Call N
  complete_redaction : (job_id worker_id key : String) (now : Time) → Call N
  requeue_redaction : (job_id worker_id error : String) (max_attempts : ℕ) (now : Time) → Call N
  retry_redaction : (job_id actor request_id : String) (now : Time) → Call N
  set_policy : (given : RetentionPolicy) (actor request_id : String) (now : Time) → Call N
  sweep : (new_id : ℕ → String) (actor : String) (now : Time) (limit : ℕ) → Call N
  claim_purge : (worker_id : String) (duration : ℕ) (now : Time) → Call N
  complete_purge : (request_id worker_id : String) (now : Time) → Call N
  requeue_purge : (request_id worker_id error : String) (max_attempts : ℕ) (now : Time) → Call N
  retry_purge : (request_id actor audit_request_id : String) (now : Time) → Call N

module _ {N : Type 0} (f : Floats N) (encoding : Encoding N) (collate : String → String → Bool)
    (valid_scores : String → Bool) where
  unfoldable pub run : Call N → Db → Db
  unfolding after
  run (assign t c a s actor request now) = after (assign_task t c a s actor request now)
  run (accept s c d v new actor request now) = after (accept_consent s c d v new actor request now)
  run (move s to actor request now) = after (transition_session s to actor request now)
  run (register a new actor request now) = after (register_artifact a new actor request now)
  run (submit s j actor request now) = after (submit_session s j actor request now)
  run (claim_job w duration now) = after (claim_validation_job collate w duration now)
  run (complete_job j w given new now) = after (complete_validation_job j w given new now)
  run (requeue_job j w error max now) = after (requeue_validation_job j w error max now)
  run (retry_job j actor request now) = after (retry_dead_letter_job j actor request now)
  run (claim_session s v actor request lease now) = after (claim_review s v actor request lease now)
  run (release_session s v actor request now) = after (release_review s v actor request now)
  run (review given ids actor request now) =
      after (submit_review f encoding collate valid_scores given ids actor request now)
  run (place_hold s reason new actor request now) =
      after (place_legal_hold s reason new actor request now)
  run (release_hold s h actor request now) = after (release_legal_hold s h actor request now)
  run (request_deletion s reason new actor request now) =
      after (request_session_deletion collate s reason new actor request now)
  run (claim_deletion w duration now) = after (claim_deletion_request collate w duration now)
  run (complete_deletion d w now) = after (complete_deletion_request d w now)
  run (requeue_deletion d w error max now) = after (requeue_deletion_request d w error max now)
  run (retry_deletion d actor request now) =
      after (retry_dead_letter_deletion_request d actor request now)
  run (plan_redaction document s v actor ids request now) =
      after (create_redaction_plan f encoding collate document s v actor ids request now)
  run (claim_redaction w duration now) = after (claim_redaction_job collate w duration now)
  run (complete_redaction j w key now) = after (complete_redaction_job j w key now)
  run (requeue_redaction j w error max now) = after (requeue_redaction_job j w error max now)
  run (retry_redaction j actor request now) =
      after (retry_dead_letter_redaction_job j actor request now)
  run (set_policy given actor request now) = after (upsert_retention_policy given actor request now)
  run (sweep new_id actor now limit) =
      after (queue_expired_retention collate new_id actor now limit)
  run (claim_purge w duration now) = after (claim_retention_purge collate w duration now)
  run (complete_purge q w now) = after (complete_retention_purge q w now)
  run (requeue_purge q w error max now) = after (requeue_retention_purge q w error max now)
  run (retry_purge q actor request now) =
      after (retry_dead_letter_retention_purge q actor request now)

  -- A history, the first call first.
  unfoldable pub run_all : List (Call N) → Db → Db
  run_all [] db = db
  run_all (c ∷ cs) db = run_all cs (run c db)
