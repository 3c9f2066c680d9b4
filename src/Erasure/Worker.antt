-- ===== src/Erasure/Worker.antt =====
-- The worker's side of a deletion (services/api/internal/database/erasure.go).
pub mod Erased
pub mod Leases
use data_trains.Base.{
  ℕ, ◌+◌, ◌*◌, String, Bool, true, false, not, ◌&&◌, ◌||◌, ◌==◌, ltb, leb, eqb, Option, none, some,
  List, [], ◌∷◌, ◌+++◌, if◌then◌else◌,
}
use data_trains.Domain.State.{SessionState, deleted, state_text}
use data_trains.Domain.Errors.{
  constraint, message, not_found, deletion_not_allowed, legal_hold_active, no_deletion_request,
  deletion_lease, deletion_not_dead,
}
use data_trains.Domain.Model.{
  Time, DeletionRequest, queued, leased, completed, blocked, dead_letter, is_queued, is_leased,
  is_dead_letter, text, number,
}
use data_trains.Table.{find, exists, first_by, update_where, delete_where}
use data_trains.Db.{
  Db, Tx, SessionRow, MultipartUpload, MultipartPartRow, pure, ◌>>=◌, ◌>>◌, fail_if, fetch, row,
  write, insert_audit, find_session, update_session, no_rows,
}
use data_trains.Store.Catalog.{event}
use data_trains.Pipeline.Lease.{reached}
use data_trains.Pipeline.Backoff.{backoff}
use data_trains.Pipeline.Outcome.{owner}
use data_trains.Erasure.Holds.{is_held}
use data_trains.Erasure.Requests.{deletable_session_state, is_open}

-- WHERE (d.state='queued' AND d.available_at <= $1)
-- OR (d.state='leased' AND d.lease_expires_at <= $1)
unfoldable pub deletion_claimable : Time → DeletionRequest → Bool
deletion_claimable now d =
    (is_queued d.state && leb d.available_at now)
    || (is_leased d.state && reached d.lease_expires_at now)

abbrev pub deletion_order : (String → String → Bool) → DeletionRequest → DeletionRequest → Bool
deletion_order collate d e =
    ltb d.available_at e.available_at || (eqb d.available_at e.available_at && collate d.id e.id)

abbrev pub find_deletion : String → Db → Option DeletionRequest
find_deletion id db = find (λ d. d.id == id) db.deletions

abbrev update_deletion : String → (DeletionRequest → DeletionRequest) → Tx (Unit {0})
update_deletion id f =
    write (λ db. record db { deletions = update_where (λ d. d.id == id) f db.deletions })

abbrev pub state_changed : SessionState → String
state_changed found = "session state changed to " +++ state_text found

abbrev pub refuse_deletion : String → DeletionRequest → DeletionRequest
refuse_deletion error d = record d {
  state = dead_letter;
  leased_by = none;
  lease_expires_at = none;
  last_error = some error;
}

abbrev pub block_deletion : DeletionRequest → DeletionRequest
block_deletion d = record d {
  state = blocked;
  leased_by = none;
  lease_expires_at = none;
  last_error = some "active legal hold";
}

abbrev pub lease_deletion : String → Time → DeletionRequest → DeletionRequest
lease_deletion worker_id expires d = record d {
  state = leased;
  attempt = d.attempt + 1;
  leased_by = some worker_id;
  lease_expires_at = some expires;
  last_error = none;
}

-- The session is not, or no longer, in a state that allows its deletion.
refuse_claim : DeletionRequest → SessionState → String → Time → Tx DeletionRequest
unfolding insert_audit state_text
refuse_claim d found worker_id now = do
  update_deletion d.id (refuse_deletion (state_changed found))
  insert_audit (
      event worker_id "session.deletion_dead_letter" ("deletion-request/" +++ d.id) now d.id
        (("session_id", text d.session_id) ∷ ("error", text (state_changed found)) ∷ []))
  pure (refuse_deletion (state_changed found) d)

block_claim : DeletionRequest → String → Time → Tx DeletionRequest
unfolding insert_audit
block_claim d worker_id now = do
  update_deletion d.id block_deletion
  insert_audit (
      event worker_id "session.deletion_blocked" ("deletion-request/" +++ d.id) now d.id
        (("session_id", text d.session_id) ∷ ("reason", text "active legal hold") ∷ []))
  pure (block_deletion d)

grant_claim : DeletionRequest → String → Time → Tx DeletionRequest
grant_claim d worker_id expires = do
  update_deletion d.id (lease_deletion worker_id expires)
  pure (lease_deletion worker_id expires d)

-- `ClaimDeletionRequest`; the join finds the session of every request, by its foreign key.
unfoldable pub claim_deletion_request :
    (String → String → Bool) → String → ℕ → Time → Tx DeletionRequest
unfolding refuse_claim block_claim grant_claim
claim_deletion_request collate worker_id lease_duration now = do
  d ←
      row (λ db. first_by (deletion_order collate) (deletion_claimable now) db.deletions)
        no_deletion_request
  session ← row (find_session d.session_id) no_deletion_request
  held ← fetch (is_held d.session_id)
  if not (deletable_session_state session.state)
      then refuse_claim d session.state worker_id now
      else if held
      then block_claim d worker_id now
      else grant_claim d worker_id (now + lease_duration)

abbrev pub requeue_deletion : Time → String → DeletionRequest → DeletionRequest
requeue_deletion available error d = record d {
  state = queued;
  available_at = available;
  leased_by = none;
  lease_expires_at = none;
  last_error = some error;
}

abbrev bury_deletion : Time → String → DeletionRequest → DeletionRequest
bury_deletion now error d = record d {
  state = dead_letter;
  available_at = now;
  leased_by = none;
  lease_expires_at = none;
  last_error = some error;
}

-- `RequeueDeletionRequest`
unfoldable pub requeue_deletion_request : String → String → String → ℕ → Time → Tx (Unit {0})
unfolding insert_audit
requeue_deletion_request deletion_id worker_id error max_attempts now = do
  d ← row (find_deletion deletion_id) not_found
  fail_if (not (is_leased d.state) || not (owner d.leased_by == worker_id)) deletion_lease
  let spent = leb max_attempts d.attempt
  update_deletion deletion_id
      (if spent then bury_deletion now error else requeue_deletion (backoff now d.attempt) error)
  insert_audit (
      event worker_id (if spent then "session.deletion_dead_letter" else "session.deletion_queued")
        ("deletion-request/" +++ deletion_id) now deletion_id
        (("session_id", text d.session_id)
          ∷ ("attempt", number d.attempt)
          ∷ ("error", text error)
          ∷ []))

-- UPDATE sessions SET state='DELETED', consent_acceptance_id=NULL, updated_at=$1
abbrev pub delete_session_row : Time → SessionRow → SessionRow
delete_session_row now s = record s {
  state = deleted;
  consent_acceptance_id = none;
  updated_at = now;
}

-- A part of an upload of the session.
pub is_part_of : String → List MultipartUpload → MultipartPartRow → Bool
is_part_of id uploads part = exists (λ u. u.id == part.upload_id && u.session_id == id) uploads

-- The eight statements that delete the rows of the session. The parts of an upload go with it (ON
-- DELETE CASCADE). The trigger on `redaction_plans` lets the fifth pass, since the session is
-- DELETED by then.
unfoldable pub erase_rows : String → Db → Db
erase_rows id db = record db {
  claims = delete_where (λ c. c.session_id == id) db.claims;
  reviews = delete_where (λ r. r.session_id == id) db.reviews;
  results = delete_where (λ r. r.session_id == id) db.results;
  redaction_jobs = delete_where (λ j. j.session_id == id) db.redaction_jobs;
  plans = delete_where (λ p. p.session_id == id) db.plans;
  parts = delete_where (is_part_of id db.uploads) db.parts;
  uploads = delete_where (λ u. u.session_id == id) db.uploads;
  artifacts = delete_where (λ a. a.session_id == id) db.artifacts;
  jobs = delete_where (λ j. j.session_id == id) db.jobs;
}

abbrev pub complete_deletion : Time → DeletionRequest → DeletionRequest
complete_deletion now d = record d {
  state = completed;
  completed_at = some now;
  leased_by = none;
  lease_expires_at = none;
  last_error = none;
}

-- `CompleteDeletionRequest`
unfoldable pub complete_deletion_request : String → String → Time → Tx (Unit {0})
unfolding insert_audit erase_rows
complete_deletion_request deletion_id worker_id now = do
  d ← row (find_deletion deletion_id) not_found
  fail_if (not (is_leased d.state) || not (owner d.leased_by == worker_id)) deletion_lease
  held ← fetch (is_held d.session_id)
  fail_if held legal_hold_active
  update_session d.session_id (delete_session_row now)
  write (erase_rows d.session_id)
  update_deletion deletion_id (complete_deletion now)
  insert_audit (
      event worker_id "session.deleted" ("session/" +++ d.session_id) now deletion_id
        (("deletion_request_id", text deletion_id) ∷ []))

abbrev revive_deletion : Time → DeletionRequest → DeletionRequest
revive_deletion now d = record d {
  state = queued;
  attempt = 0;
  manual_requeues = d.manual_requeues + 1;
  available_at = now;
  leased_by = none;
  lease_expires_at = none;
  last_error = none;
}

-- `RetryDeadLetterDeletionRequest`
unfoldable pub retry_dead_letter_deletion_request :
    String → String → String → Time → Tx DeletionRequest
unfolding insert_audit
retry_dead_letter_deletion_request deletion_id actor request_id now = do
  d ← row (find_deletion deletion_id) not_found
  fail_if (not (is_dead_letter d.state)) deletion_not_dead
  session ← row (find_session d.session_id) no_rows
  fail_if (not (deletable_session_state session.state)) deletion_not_allowed
  held ← fetch (is_held d.session_id)
  fail_if held legal_hold_active
  repeated ← fetch (λ db. exists (is_open d.session_id) db.deletions)
  fail_if repeated (constraint "deletion_requests_one_active_per_session")
  update_deletion deletion_id (revive_deletion now)
  insert_audit (
      event actor "session.deletion_manual_retry" ("deletion-request/" +++ deletion_id) now
        request_id
        (("session_id", text d.session_id) ∷ ("previous_attempts", number d.attempt) ∷ []))
  pure (revive_deletion now d)
