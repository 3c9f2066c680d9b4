-- ===== src/Redaction/Jobs.antt =====
-- Redaction jobs: lease, completion, requeue, recovery
-- (services/api/internal/database/redaction.go).
pub mod Gates
use data_trains.Base.{
  ℕ, ◌+◌, ◌*◌, String, Bool, true, false, not, ◌&&◌, ◌||◌, ◌==◌, ltb, leb, eqb, is_blank, Option,
  none, some, List, [], ◌∷◌, ◌+++◌, if◌then◌else◌,
}
use data_trains.Domain.State.{SessionState, accepted, state_eq}
use data_trains.Domain.Errors.{
  message, not_found, wrong_state, deletion_pending, no_redaction_job, redaction_job_lease,
  redaction_not_dead,
}
use data_trains.Domain.Model.{
  Time, RedactionJob, leased, queued, completed, dead_letter, is_queued, is_leased, is_dead_letter,
  text, number,
}
use data_trains.Table.{find, first_by, update_where}
use data_trains.Db.{
  Db, Tx, SessionRow, pure, ◌>>=◌, ◌>>◌, fail_if, fetch, row, write, insert_audit, find_session,
  no_rows,
}
use data_trains.Store.Catalog.{event}
use data_trains.Pipeline.Lease.{reached}
use data_trains.Pipeline.Backoff.{backoff}
use data_trains.Pipeline.Outcome.{owner}
use data_trains.Redaction.Plans.{has_pending_deletion}

-- WHERE (state='queued' AND available_at <= $1) OR (state='leased' AND lease_expires_at <= $1)
unfoldable pub redactable : Time → RedactionJob → Bool
redactable now j =
    (is_queued j.state && leb j.available_at now)
    || (is_leased j.state && reached j.lease_expires_at now)

abbrev pub redaction_order : (String → String → Bool) → RedactionJob → RedactionJob → Bool
redaction_order collate j k =
    ltb j.available_at k.available_at || (eqb j.available_at k.available_at && collate j.id k.id)

abbrev pub find_redaction_job : String → Db → Option RedactionJob
find_redaction_job id db = find (λ j. j.id == id) db.redaction_jobs

abbrev update_redaction_job : String → (RedactionJob → RedactionJob) → Tx (Unit {0})
update_redaction_job id f =
    write (λ db. record db { redaction_jobs = update_where (λ j. j.id == id) f db.redaction_jobs })

-- What a claim and a recovery ask of the session.
require_accepted : RedactionJob → Tx (Unit {0})
require_accepted job = do
  session ← row (find_session job.session_id) no_rows
  fail_if (not (state_eq session.state accepted)) (wrong_state session.state)
  pending ← fetch (has_pending_deletion job.session_id)
  fail_if pending deletion_pending

abbrev pub lease_redaction : ℕ → String → Time → Time → RedactionJob → RedactionJob
lease_redaction attempt worker_id expires now j = record j {
  state = leased;
  attempt = attempt;
  leased_by = some worker_id;
  lease_expires_at = some expires;
  updated_at = now;
  last_error = none;
}

-- `ClaimRedactionJob`, SKIP LOCKED as for a validation job
unfoldable pub claim_redaction_job : (String → String → Bool) → String → ℕ → Time → Tx RedactionJob
unfolding require_accepted insert_audit is_blank
claim_redaction_job collate worker_id lease_duration now = do
  fail_if (is_blank worker_id || eqb lease_duration 0)
      (message "worker ID and positive lease duration are required")
  job ←
      row (λ db. first_by (redaction_order collate) (redactable now) db.redaction_jobs)
        no_redaction_job
  require_accepted job
  let attempt = job.attempt + 1
  let lease = lease_redaction attempt worker_id (now + lease_duration) now
  update_redaction_job job.id lease
  insert_audit (
      event worker_id "redaction_job.leased" ("redaction-job/" +++ job.id) now job.id (
        ("session_id", text job.session_id)
        ∷ ("plan_id", text job.plan_id)
        ∷ ("attempt", number attempt)
        ∷ []))
  pure (lease job)

-- The key of the manifest that a plan's job writes.
abbrev pub manifest_key : String → String → String
manifest_key session_id plan_id =
    "derived/sessions/" +++ session_id +++ "/redactions/" +++ plan_id +++ "/manifest.json"

abbrev pub complete_redaction : String → Time → RedactionJob → RedactionJob
complete_redaction key now j = record j {
  state = completed;
  output_manifest_key = some key;
  finished_at = some now;
  updated_at = now;
  leased_by = none;
  lease_expires_at = none;
  last_error = none;
}

-- `CompleteRedactionJob`
unfoldable pub complete_redaction_job : String → String → String → Time → Tx (Unit {0})
unfolding insert_audit
complete_redaction_job job_id worker_id output_manifest_key now = do
  fail_if (job_id == "" || worker_id == "" || output_manifest_key == "")
      (message "job, worker, and output manifest are required")
  job ← row (find_redaction_job job_id) not_found
  fail_if (not (is_leased job.state) || not (owner job.leased_by == worker_id)) redaction_job_lease
  fail_if (not (output_manifest_key == manifest_key job.session_id job.plan_id))
      (message "redaction output manifest key is outside its immutable plan prefix")
  update_redaction_job job_id (complete_redaction output_manifest_key now)
  insert_audit (
      event worker_id "redaction_job.completed" ("redaction-job/" +++ job_id) now job_id (
        ("session_id", text job.session_id)
        ∷ ("plan_id", text job.plan_id)
        ∷ ("output_manifest_key", text output_manifest_key)
        ∷ []))

abbrev pub requeue_redaction : Time → Time → String → RedactionJob → RedactionJob
requeue_redaction available now error j = record j {
  state = queued;
  available_at = available;
  updated_at = now;
  last_error = some error;
  leased_by = none;
  lease_expires_at = none;
}

abbrev bury_redaction : Time → String → RedactionJob → RedactionJob
bury_redaction now error j = record j {
  state = dead_letter;
  updated_at = now;
  finished_at = some now;
  dead_lettered_at = some now;
  last_error = some error;
  leased_by = none;
  lease_expires_at = none;
}

-- `RequeueRedactionJob`. 0 attempts stands for every number that is not positive.
unfoldable pub requeue_redaction_job : String → String → String → ℕ → Time → Tx (Unit {0})
unfolding insert_audit
requeue_redaction_job job_id worker_id error max_attempts now = do
  fail_if (ltb max_attempts 1) (message "max attempts must be positive")
  job ← row (find_redaction_job job_id) not_found
  fail_if (not (is_leased job.state) || not (owner job.leased_by == worker_id)) redaction_job_lease
  let again = ltb job.attempt max_attempts
  update_redaction_job job_id (
      if again
      then requeue_redaction (backoff now job.attempt) now error
      else bury_redaction now error)
  insert_audit (
      event worker_id (if again then "redaction_job.requeued" else "redaction_job.dead_lettered")
        ("redaction-job/" +++ job_id) now job_id
        (("attempt", number job.attempt) ∷ ("error", text error) ∷ []))

abbrev revive_redaction : Time → RedactionJob → RedactionJob
revive_redaction now j = record j {
  state = queued;
  attempt = 0;
  manual_requeues = j.manual_requeues + 1;
  available_at = now;
  leased_by = none;
  lease_expires_at = none;
  output_manifest_key = none;
  last_error = none;
  finished_at = none;
  dead_lettered_at = none;
  updated_at = now;
}

-- `RetryDeadLetterRedactionJob`
unfoldable pub retry_dead_letter_redaction_job : String → String → String → Time → Tx RedactionJob
unfolding require_accepted insert_audit
retry_dead_letter_redaction_job job_id actor request_id now = do
  job ← row (find_redaction_job job_id) not_found
  fail_if (not (is_dead_letter job.state)) redaction_not_dead
  require_accepted job
  update_redaction_job job.id (revive_redaction now)
  insert_audit (
      event actor "redaction_job.manual_retry" ("redaction-job/" +++ job.id) now request_id (
        ("session_id", text job.session_id)
        ∷ ("plan_id", text job.plan_id)
        ∷ ("previous_attempts", number job.attempt)
        ∷ []))
  pure (revive_redaction now job)
