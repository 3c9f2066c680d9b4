-- ===== src/Pipeline/Lease.antt =====
-- Leasing a validation job (services/api/internal/database/pipeline.go).
pub mod Exclusive
use data_trains.Base.{
  ℕ, ◌+◌, String, Bool, true, false, not, ◌&&◌, ◌||◌, ◌==◌, ltb, leb, eqb, is_blank, Option, none,
  some, List, [], ◌∷◌, ◌+++◌, if◌then◌else◌,
}
use data_trains.Domain.State.{SessionState, submitted, processing, state_eq}
use data_trains.Domain.Errors.{message, no_job_available, wrong_state}
use data_trains.Domain.Model.{Time, ProcessingJob, leased, is_queued, is_leased, text, number}
use data_trains.Domain.Session.{Session, transition}
use data_trains.Table.{first_by, update_where}
use data_trains.Db.{
  Db, Tx, pure, ◌>>=◌, ◌>>◌, raise, fail_if, row, write, lift, insert_audit, find_session,
  session_of, save_session, insert_last_audit, no_rows,
}

-- A lease time that has come: NULL never has.
abbrev pub reached : Option Time → Time → Bool
reached none now = false
reached (some t) now = leb t now

-- WHERE job_type='validate_trajectory' AND ((state='queued' AND available_at <= $1)
-- OR (state='leased' AND lease_expires_at <= $1))
unfoldable pub claimable : Time → ProcessingJob → Bool
claimable now j =
    j.job_type == "validate_trajectory"
    && ((is_queued j.state && leb j.available_at now)
        || (is_leased j.state && reached j.lease_expires_at now))

-- ORDER BY available_at, id, where `collate` is the order of the database's texts.
abbrev pub claim_order : (String → String → Bool) → ProcessingJob → ProcessingJob → Bool
claim_order collate j k =
    ltb j.available_at k.available_at || (eqb j.available_at k.available_at && collate j.id k.id)

abbrev pub update_job : String → (ProcessingJob → ProcessingJob) → Tx (Unit {0})
update_job id f = write (λ db. record db { jobs = update_where (λ j. j.id == id) f db.jobs })

abbrev coalesce : Option Time → Time → Option Time
coalesce none t = some t
coalesce (some s) t = some s

-- SET state='leased', attempt=$1, leased_by=$2, lease_expires_at=$3,
-- started_at=COALESCE(started_at,$4), updated_at=$4, error=NULL
abbrev pub lease_job : ℕ → String → Time → Time → ProcessingJob → ProcessingJob
lease_job attempt worker_id expires now j = record j {
  state = leased;
  attempt = attempt;
  leased_by = some worker_id;
  lease_expires_at = some expires;
  started_at = coalesce j.started_at now;
  updated_at = now;
  last_error = none;
}

-- The session of a leased job is moved to `processing`, or is there already.
start_processing : Session → String → String → Time → Tx (Unit {0})
start_processing found worker_id job_id now =
    if state_eq found.state submitted
    then (do
      session ← lift (
          transition found
            (record { to = processing; actor = worker_id; request_id = job_id; timestamp = now }))
      save_session session
      insert_last_audit session)
    else fail_if (not (state_eq found.state processing)) (wrong_state found.state)

-- `ClaimValidationJob`; no row is locked by another transaction, so SKIP LOCKED passes over none. A lease duration of 0 stands for all that are not positive.
module _ (collate : String → String → Bool) where
  unfoldable pub claim_validation_job : String → ℕ → Time → Tx ProcessingJob
  unfolding is_blank start_processing transition save_session insert_audit insert_last_audit
  claim_validation_job worker_id lease_duration now = do
    fail_if (is_blank worker_id || eqb lease_duration 0)
        (message "worker ID and positive lease duration are required")
    job ← row (λ db. first_by (claim_order collate) (claimable now) db.jobs) no_job_available
    let attempt = job.attempt + 1
    let expires = now + lease_duration
    update_job job.id (lease_job attempt worker_id expires now)
    found ← row (find_session job.session_id) no_rows
    start_processing (session_of found) worker_id job.id now
    insert_audit (record {
      actor = worker_id;
      action = "processing_job.leased";
      resource = "processing-job/" +++ job.id;
      timestamp = now;
      request_id = job.id;
      metadata = ("attempt", number attempt) ∷ [];
    })
    pure (record job {
      state = leased;
      attempt = attempt;
      leased_by = some worker_id;
      lease_expires_at = some expires;
    })
