-- ===== src/Pipeline/Outcome.antt =====
-- The outcome of a leased validation job (services/api/internal/database/pipeline.go).
pub mod Settled
use data_trains.Base.{
  ℕ, ◌+◌, String, Bool, true, false, not, ◌&&◌, ◌||◌, ◌==◌, ltb, Option, none, some, List, [], ◌∷◌,
  ◌+++◌, if◌then◌else◌,
}
use data_trains.Domain.State.{SessionState, ready_for_review, failed, processing, state_eq}
use data_trains.Domain.Errors.{
  message, not_found, job_lease, job_not_dead_letter, wrong_state, constraint,
}
use data_trains.Domain.Model.{
  Time, ProcessingJob, ValidationResult, queued, completed, dead_letter, is_leased, is_dead_letter,
  text, number, flag, state,
}
use data_trains.Domain.Session.{Session, transition}
use data_trains.Table.{find, insert, exists}
use data_trains.Db.{
  Db, Tx, pure, ◌>>=◌, ◌>>◌, fail_if, fresh, fetch, row, write, lift, insert_audit, find_session,
  session_of, save_session, update_session, insert_last_audit, no_rows,
}
use data_trains.Pipeline.Jobs.{has_active_job, one_active_job}
use data_trains.Pipeline.Lease.{update_job}
use data_trains.Pipeline.Backoff.{backoff}

abbrev pub find_job : String → Db → Option ProcessingJob
find_job id db = find (λ j. j.id == id) db.jobs

-- COALESCE(leased_by,'')
abbrev pub owner : Option String → String
owner none = ""
owner (some w) = w

abbrev pub complete_job : Time → ProcessingJob → ProcessingJob
complete_job now j = record j {
  state = completed;
  finished_at = some now;
  updated_at = now;
  lease_expires_at = none;
  last_error = none;
}

-- `CompleteValidationJob`; `result_id` is what `id.New("validation")` returned. At most one result
-- is kept for a job.
unfoldable pub complete_validation_job :
    String → String → ValidationResult → String → Time → Tx Session
unfolding transition save_session insert_audit insert_last_audit
complete_validation_job job_id worker_id given result_id now = do
  fail_if
      (given.schema_version == ""
        || given.validator_version == ""
        || (given.valid && given.normalized_key == ""))
      (message "validation result is incomplete")
  job ← row (find_job job_id) not_found
  fail_if (not (is_leased job.state) || not (owner job.leased_by == worker_id)) job_lease
  found ← row (find_session job.session_id) no_rows
  session ← lift (
      transition (session_of found) (record {
        to = if given.valid then ready_for_review else failed;
        actor = worker_id;
        request_id = job_id;
        timestamp = now;
      }))
  fresh (λ db. db.results) (λ q. q.id == result_id) "validation_results_pkey"
  repeated ← fetch (λ db. exists (λ r. r.job_id == job_id) db.results)
  fail_if repeated (constraint "validation_results_job_id_key")
  let result = record given {
    id = result_id;
    job_id = job_id;
    session_id = job.session_id;
    normalized_key = if given.valid then given.normalized_key else "";
    created_at = now;
    purged_at = none;
  }
  write (λ db. record db { results = insert result db.results })
  update_job job_id (complete_job now)
  save_session session
  insert_audit (record {
    actor = worker_id;
    action = "validation.completed";
    resource = "session/" +++ job.session_id;
    timestamp = now;
    request_id = job_id;
    metadata = ("valid", flag given.valid) ∷ ("result_id", text result_id) ∷ [];
  })
  insert_last_audit session
  pure session

abbrev pub requeue_job : Time → Time → String → ProcessingJob → ProcessingJob
requeue_job available now error j = record j {
  state = queued;
  available_at = available;
  leased_by = none;
  lease_expires_at = none;
  updated_at = now;
  last_error = some error;
}

abbrev pub bury_job : Time → String → ProcessingJob → ProcessingJob
bury_job now error j = record j {
  state = dead_letter;
  finished_at = some now;
  dead_lettered_at = some now;
  updated_at = now;
  leased_by = none;
  lease_expires_at = none;
  last_error = some error;
}

abbrev job_failure : String → String → ProcessingJob → String → Time → Tx (Unit {0})
job_failure action worker_id job error now = insert_audit (record {
  actor = worker_id;
  action = action;
  resource = "processing-job/" +++ job.id;
  timestamp = now;
  request_id = job.id;
  metadata = ("attempt", number job.attempt) ∷ ("error", text error) ∷ [];
})

-- The last attempt has failed: the job is dead-lettered and its session has failed.
dead_letter_job : ProcessingJob → String → String → Time → Tx (Unit {0})
dead_letter_job job worker_id error now = do
  update_job job.id (bury_job now error)
  found ← row (find_session job.session_id) no_rows
  session ← lift (
      transition (session_of found)
        (record { to = failed; actor = worker_id; request_id = job.id; timestamp = now }))
  save_session session
  job_failure "processing_job.dead_lettered" worker_id job error now
  insert_last_audit session

-- The job is queued anew, after the backoff.
retry_later : ProcessingJob → String → String → Time → Tx (Unit {0})
retry_later job worker_id error now = do
  update_job job.id (requeue_job (backoff now job.attempt) now error)
  job_failure "processing_job.requeued" worker_id job error now

-- `RequeueValidationJob`. 0 attempts stands for every number that is not positive.
unfoldable pub requeue_validation_job : String → String → String → ℕ → Time → Tx (Unit {0})
unfolding retry_later dead_letter_job transition save_session insert_audit insert_last_audit
requeue_validation_job job_id worker_id error max_attempts now = do
  fail_if (ltb max_attempts 1) (message "max attempts must be positive")
  job ← row (find_job job_id) not_found
  fail_if (not (is_leased job.state) || not (owner job.leased_by == worker_id)) job_lease
  if ltb job.attempt max_attempts
      then retry_later job worker_id error now
      else dead_letter_job job worker_id error now

abbrev pub revive_job : Time → ProcessingJob → ProcessingJob
revive_job now j = record j {
  state = queued;
  attempt = 0;
  available_at = now;
  leased_by = none;
  lease_expires_at = none;
  finished_at = none;
  dead_lettered_at = none;
  last_error = none;
  manual_requeues = j.manual_requeues + 1;
  updated_at = now;
}

-- `RetryDeadLetterJob`; the job is read again at the end, after the transaction.
unfoldable pub retry_dead_letter_job : String → String → String → Time → Tx ProcessingJob
unfolding insert_audit
retry_dead_letter_job job_id actor request_id now = do
  job ← row (find_job job_id) not_found
  fail_if (not (is_dead_letter job.state)) job_not_dead_letter
  found ← row (find_session job.session_id) no_rows
  fail_if (not (state_eq found.state failed)) (wrong_state found.state)
  active ← fetch (has_active_job job.session_id job.job_type)
  fail_if active one_active_job
  update_job job_id (revive_job now)
  update_session job.session_id (λ r. record r { state = processing; updated_at = now })
  insert_audit (record {
    actor = actor;
    action = "processing_job.manual_retry";
    resource = "processing-job/" +++ job_id;
    timestamp = now;
    request_id = request_id;
    metadata = ("previous_attempts", number job.attempt) ∷ ("session_id", text job.session_id) ∷ [];
  })
  insert_audit (record {
    actor = actor;
    action = "session.processing_recovered";
    resource = "session/" +++ job.session_id;
    timestamp = now;
    request_id = request_id;
    metadata = ("from", state failed) ∷ ("to", state processing) ∷ ("job_id", text job_id) ∷ [];
  })
  row (find_job job_id) not_found
