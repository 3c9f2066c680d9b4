-- ===== src/Pipeline/Lease/Exclusive.antt =====
-- Who holds a validation job.
use data_trains.Base.{ℕ, ◌+◌, String, Bool, ◌==◌, some, ◌≡◌, arith, ◌⊎◌}
use data_trains.Domain.State.{submitted, processing}
use data_trains.Domain.Errors.{ok}
use data_trains.Domain.Model.{Time, ProcessingJob}
use data_trains.Table.{update_where, first_by}
use data_trains.Db.{Db, SessionRow, find_session}
use data_trains.Pipeline.Lease.{claim_validation_job, claimable, claim_order, lease_job}

module _ (collate : String → String → Bool) where
  -- A claim that succeeds took the first claimable job, leased it to the worker with one more
  -- attempt, and left the session of the job submitted or processing before.
  pub claim_validation_job-ok :
      (worker_id : String) (duration : ℕ) (now : Time) (db db' : Db) (job : ProcessingJob)
      → claim_validation_job collate worker_id duration now db ≡ ok (job, db')
      → (j : ProcessingJob) × (first_by (claim_order collate) (claimable now) db.jobs ≡ some j)
        × (job.id ≡ j.id)
        × (job.attempt ≡ j.attempt + 1)
        × (db'.jobs
            ≡ update_where
                (λ k. k.id == j.id)
                (lease_job (j.attempt + 1) worker_id (now + duration) now)
                db.jobs)
        × (r : SessionRow) × (find_session j.session_id db ≡ some r)
        × ((r.state ≡ submitted) ⊎ (r.state ≡ processing))
  unfolding claim_validation_job
  claim_validation_job-ok worker_id duration now db db' job h = ground arith
