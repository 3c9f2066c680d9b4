-- ===== src/Pipeline/Outcome/Settled.antt =====
-- A job is settled once, by the worker that holds its lease.
use data_trains.Base.{
  ℕ, ◌<◌, ◌≤◌, String, true, false, ◌&&◌, ◌==◌, some, ◌≡◌, refl, arith, eq_iff, ltb, leb,
  if◌then◌else◌,
}
use data_trains.Domain.State.{ready_for_review, failed, allowed_transition}
use data_trains.Domain.Errors.{ok}
use data_trains.Domain.Model.{
  Time, ProcessingJob, ValidationResult, is_leased, is_queued, is_dead_letter,
}
use data_trains.Table.{update_where}
use data_trains.Table.Laws.{find-some, find-update_self}
use data_trains.Db.{Db, SessionRow, find_session}
use data_trains.Domain.Session.{Session}
use data_trains.Pipeline.Lease.{claimable}
use data_trains.Pipeline.Backoff.{backoff}
use data_trains.Pipeline.Outcome.{
  complete_validation_job, requeue_validation_job, find_job, owner, complete_job, requeue_job,
  bury_job,
}

-- A result is taken only from the worker that holds the lease; it moves the session, by an allowed
-- transition, to review if it is valid and to failed if not, and completes the job.
pub complete_validation_job-ok :
    (job_id worker_id result_id : String) (given : ValidationResult) (now : Time) (db db' : Db)
    (s : Session)
    → complete_validation_job job_id worker_id given result_id now db ≡ ok (s, db')
    → (j : ProcessingJob) × (find_job job_id db ≡ some j)
      × (is_leased j.state ≡ true)
      × ((owner j.leased_by == worker_id) ≡ true)
      × (r : SessionRow) × (find_session j.session_id db ≡ some r)
      × (allowed_transition r.state s.state ≡ true)
      × (s.state ≡ (if given.valid then ready_for_review else failed))
      × (db'.jobs ≡ update_where (λ k. k.id == job_id) (complete_job now) db.jobs)
unfolding complete_validation_job
complete_validation_job-ok job_id worker_id result_id given now db db' s h = ground arith

-- What a requeue does, on its two branches.
pub requeue_validation_job-ok :
    (job_id worker_id error : String) (max_attempts : ℕ) (now : Time) (db db' : Db)
    → requeue_validation_job job_id worker_id error max_attempts now db ≡ ok (tt, db')
    → (j : ProcessingJob) × (find_job job_id db ≡ some j)
      × (is_leased j.state ≡ true)
      × ((owner j.leased_by == worker_id) ≡ true)
      × (db'.jobs
          ≡ update_where
              (λ k. k.id == j.id)
              (if ltb j.attempt max_attempts
                then requeue_job (backoff now j.attempt) now error
                else bury_job now error)
              db.jobs)
unfolding requeue_validation_job
requeue_validation_job-ok job_id worker_id error max_attempts now db db' h = ground arith

found_after :
    (job_id : String) (f : ProcessingJob → ProcessingJob) (db db' : Db) (j : ProcessingJob)
    → find_job job_id db ≡ some j
    → ((k : ProcessingJob) → (f k).id ≡ k.id)
    → db'.jobs ≡ update_where (λ k. k.id == job_id) f db.jobs
    → find_job job_id db' ≡ some (f j)
found_after job_id f db db' j h same e = rw e (
    find-update_self (λ k. k.id == job_id) f db.jobs j
      (rw same (find-some (λ k. k.id == job_id) db.jobs j h)) h)

id_of_found :
    (job_id : String) (db : Db) (j : ProcessingJob) → find_job job_id db ≡ some j → j.id ≡ job_id
id_of_found job_id db j h = (eq_iff j.id job_id).0 (find-some (λ k. k.id == job_id) db.jobs j h)

-- A job that is given up before its last attempt keeps its attempts, and can be claimed again
-- exactly from the end of its backoff on, if it is a trajectory validation.
pub requeue_validation_job-backoff :
    (job_id worker_id error : String) (max_attempts : ℕ) (now : Time) (db db' : Db)
    (j : ProcessingJob)
    → requeue_validation_job job_id worker_id error max_attempts now db ≡ ok (tt, db')
    → find_job job_id db ≡ some j
    → j.attempt < max_attempts
    → (k : ProcessingJob) × (find_job job_id db' ≡ some k)
      × (k.attempt ≡ j.attempt)
      × ((t : Time)
          → claimable t k ≡ (j.job_type == "validate_trajectory" && leb (backoff now j.attempt) t))
unfolding claimable is_queued is_leased
requeue_validation_job-backoff job_id worker_id error max_attempts now db db' j h f lt =
    let a = requeue_validation_job-ok job_id worker_id error max_attempts now db db' h in
    let same : a.0 ≡ j = ground arith in
    let later = requeue_job (backoff now j.attempt) now error in
    (
      later j,
      found_after job_id later db db' j f (λ k. refl) (ground (arith, id_of_found job_id db j f)),
      refl,
      λ t. ground arith,
    )

-- A job that is given up at its last attempt is dead-lettered: no worker can claim it at any time.
pub requeue_validation_job-bury :
    (job_id worker_id error : String) (max_attempts : ℕ) (now : Time) (db db' : Db)
    (j : ProcessingJob)
    → requeue_validation_job job_id worker_id error max_attempts now db ≡ ok (tt, db')
    → find_job job_id db ≡ some j
    → max_attempts ≤ j.attempt
    → (k : ProcessingJob) × (find_job job_id db' ≡ some k)
      × (is_dead_letter k.state ≡ true)
      × ((t : Time) → claimable t k ≡ false)
unfolding claimable is_queued is_leased is_dead_letter
requeue_validation_job-bury job_id worker_id error max_attempts now db db' j h f le =
    let a = requeue_validation_job-ok job_id worker_id error max_attempts now db db' h in
    let same : a.0 ≡ j = ground arith in
    let buried = bury_job now error in
    (
      buried j,
      found_after job_id buried db db' j f (λ k. refl) (ground (arith, id_of_found job_id db j f)),
      refl,
      λ t. ground arith,
    )
