-- ===== src/Pipeline/Queue.antt =====
-- The operations that write to the table of validation jobs, as calls: those of
-- services/api/internal/database/pipeline.go, and the end of an erasure, which deletes the jobs of a
-- session (services/api/internal/database/erasure.go).
pub mod Kept
pub mod Leased
pub mod Completed
use data_trains.Base.{ℕ, String, Bool, List, [], ◌∷◌}
use data_trains.Domain.Model.{Time, ValidationResult}
use data_trains.Db.{Db, after}
use data_trains.Pipeline.Jobs.{submit_session}
use data_trains.Pipeline.Lease.{claim_validation_job}
use data_trains.Pipeline.Outcome.{
  complete_validation_job, requeue_validation_job, retry_dead_letter_job,
}
use data_trains.Erasure.Worker.{complete_deletion_request}

pub data JobCall : Type 0 where
  submit : (session_id job_id actor request_id : String) (now : Time) → JobCall
  claim : (worker_id : String) (duration : ℕ) (now : Time) → JobCall
  complete :
      (job_id worker_id : String) (given : ValidationResult) (result_id : String) (now : Time)
      → JobCall
  requeue : (job_id worker_id error : String) (max_attempts : ℕ) (now : Time) → JobCall
  retry : (job_id actor request_id : String) (now : Time) → JobCall
  erase : (deletion_id worker_id : String) (now : Time) → JobCall

module _ (collate : String → String → Bool) where
  -- A call that fails leaves the database as it was.
  unfoldable pub run_job : JobCall → Db → Db
  unfolding after
  run_job (submit s j actor request now) = after (submit_session s j actor request now)
  run_job (claim w duration now) = after (claim_validation_job collate w duration now)
  run_job (complete j w given new now) = after (complete_validation_job j w given new now)
  run_job (requeue j w error max now) = after (requeue_validation_job j w error max now)
  run_job (retry j actor request now) = after (retry_dead_letter_job j actor request now)
  run_job (erase d w now) = after (complete_deletion_request d w now)

  -- A history, the first call first.
  unfoldable pub run_jobs : List JobCall → Db → Db
  unfolding run_job
  run_jobs [] db = db
  run_jobs (c ∷ cs) db = run_jobs cs (run_job c db)
