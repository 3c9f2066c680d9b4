-- ===== src/Pipeline/Jobs.antt =====
-- Submission of a session, which queues its validation (services/api/internal/database/pipeline.go).
pub mod Submission
use data_trains.Base.{
  ℕ, String, Bool, true, false, not, ◌&&◌, ◌||◌, ◌==◌, Option, none, some, List, [], ◌∷◌, ◌+++◌,
  if◌then◌else◌,
}
use data_trains.Domain.State.{SessionState, uploading, submitted, state_eq}
use data_trains.Domain.Errors.{Error, constraint, not_found, wrong_state, artifacts_missing}
use data_trains.Domain.Model.{Time, ProcessingJob, queued, is_queued, is_leased, text}
use data_trains.Domain.Session.{Session, transition}
use data_trains.Table.{exists, find, insert}
use data_trains.Db.{
  Db, Tx, pure, ◌>>=◌, ◌>>◌, fail_if, fresh, fetch, row, write, lift, insert_audit, find_session,
  session_of, save_session, insert_last_audit,
}

-- The aggregate query: a trajectory, a video and an event file are registered for the session.
unfoldable pub has_required_artifacts : String → Db → Bool
has_required_artifacts session_id db =
    exists
      (λ a.
        a.session_id == session_id
        && a.key == "raw/sessions/" +++ session_id +++ "/trajectory.json")
      db.artifacts
    && exists (λ a. a.session_id == session_id && a.media_type == "video/mp4") db.artifacts
    && exists (λ a. a.session_id == session_id && a.media_type == "application/x-ndjson")
        db.artifacts

-- A new row of `processing_jobs`.
abbrev pub new_job : String → String → Time → ProcessingJob
new_job job_id session_id now = record {
  id = job_id;
  session_id = session_id;
  job_type = "validate_trajectory";
  state = queued;
  attempt = 0;
  available_at = now;
  leased_by = none;
  lease_expires_at = none;
  last_error = none;
  manual_requeues = 0;
  started_at = none;
  finished_at = none;
  dead_lettered_at = none;
  updated_at = now;
}

-- The unique index `processing_jobs_one_active_type_per_session`.
unfoldable pub has_active_job : String → String → Db → Bool
has_active_job session_id job_type db =
    exists
      (λ j.
        j.session_id == session_id
        && j.job_type == job_type
        && (is_queued j.state || is_leased j.state))
      db.jobs

abbrev pub one_active_job : Error
one_active_job = constraint "processing_jobs_one_active_type_per_session"

-- `SubmitSession`; `job_id` is what `id.New("job")` returned.
unfoldable pub submit_session :
    String → String → String → String → Time → Tx (Session × ProcessingJob)
unfolding transition save_session insert_audit insert_last_audit
submit_session session_id job_id actor request_id now = do
  found ← row (find_session session_id) not_found
  fail_if (not (state_eq found.state uploading)) (wrong_state found.state)
  complete ← fetch (has_required_artifacts session_id)
  fail_if (not complete) artifacts_missing
  session ← lift (
      transition (session_of found)
        (record { to = submitted; actor = actor; request_id = request_id; timestamp = now }))
  save_session session
  let job = new_job job_id session.id now
  fresh (λ db. db.jobs) (λ q. q.id == job_id) "processing_jobs_pkey"
  active ← fetch (has_active_job session.id job.job_type)
  fail_if active one_active_job
  write (λ db. record db { jobs = insert job db.jobs })
  insert_last_audit session
  insert_audit (record {
    actor = actor;
    action = "processing_job.queued";
    resource = "processing-job/" +++ job.id;
    timestamp = now;
    request_id = request_id;
    metadata = ("session_id", text session.id) ∷ ("job_type", text job.job_type) ∷ [];
  })
  pure (session, job)
