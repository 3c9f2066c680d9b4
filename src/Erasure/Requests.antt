-- ===== src/Erasure/Requests.antt =====
-- Requests for the deletion of a session (services/api/internal/database/erasure.go).
pub mod Keys
use data_trains.Base.{
  ℕ, String, Bool, true, false, not, ◌&&◌, ◌||◌, ◌==◌, Option, none, some, List, [], ◌∷◌, ◌++◌,
  ◌+++◌, map, if◌then◌else◌, trim_space, sort_by, length,
}
use data_trains.Domain.State.{
  SessionState, created, assigned, ready, ready_for_review, accepted, failed, rejected,
  rework_required, cancelled,
}
use data_trains.Domain.Errors.{
  constraint, message, not_found, deletion_not_allowed, legal_hold_active, deletion_pending,
  redaction_in_progress,
}
use data_trains.Domain.Model.{
  Time, DeletionRequest, RedactionJob, ValidationResult, JobState, queued, leased, completed,
  blocked, dead_letter, is_queued, is_leased, is_dead_letter, text, number,
}
use data_trains.Table.{select, exists, insert}
use data_trains.Db.{
  Db, Tx, RedactionPlanRow, pure, ◌>>=◌, ◌>>◌, fail_if, fresh, fetch, write, insert_audit,
}
use data_trains.Store.Catalog.{event}
use data_trains.Redaction.Document.{seen}
use data_trains.Redaction.Jobs.{manifest_key}
use data_trains.Store.Joins.{session_and_organization}
use data_trains.Erasure.Holds.{is_held, is_reason, is_refused_reason, is_blocked}

-- `deletableSessionState`
unfoldable pub deletable_session_state : SessionState → Bool
deletable_session_state created = true
deletable_session_state assigned = true
deletable_session_state ready = true
deletable_session_state ready_for_review = true
deletable_session_state accepted = true
deletable_session_state failed = true
deletable_session_state rejected = true
deletable_session_state rework_required = true
deletable_session_state cancelled = true
deletable_session_state _ = false

unfoldable pub is_unpurged : Option Time → Bool
is_unpurged none = true
is_unpurged (some _) = false

-- A redaction job that may have written derived objects.
has_output : String → RedactionJob → Bool
unfolding is_unpurged is_dead_letter
has_output plan_id j =
    j.plan_id == plan_id
    && (is_completed j.state || is_dead_letter j.state)
    && is_unpurged j.purged_at
  where
    is_completed : JobState → Bool
    is_completed completed = true
    is_completed _ = false

-- The key of a segment's redacted video.
abbrev pub segment_key : String → String → String → String
segment_key session_id plan_id segment_id =
    "derived/sessions/" +++ session_id +++ "/redactions/" +++ plan_id +++ "/" +++ segment_id
    +++ ".mp4"

plan_keys : String → Db → List RedactionPlanRow → List String
unfolding has_output
plan_keys session_id db [] = []
plan_keys session_id db (p ∷ ps) =
    let rest = plan_keys session_id db ps in
    if p.session_id == session_id && exists (has_output p.id) db.redaction_jobs
    then manifest_key session_id p.id ∷ map (segment_key session_id p.id) p.segment_ids ++ rest
    else rest

-- normalized_key IS NOT NULL: the text `""` stands for NULL.
normalized_keys : List ValidationResult → List String
normalized_keys [] = []
normalized_keys (r ∷ rs) =
    let rest = normalized_keys rs in
    if r.normalized_key == "" then rest else r.normalized_key ∷ rest

action_keys : String → Db → List String
action_keys session_id db =
    if exists (λ r. r.session_id == session_id && r.valid) db.results
    then ("derived/sessions/" +++ session_id +++ "/actions.jsonl") ∷ []
    else []

-- UNION keeps one copy of a text.
unfoldable pub distinct : List String → List String
unfolding seen
distinct [] = []
distinct (k ∷ ks) = let rest = distinct ks in if seen k rest then rest else k ∷ rest

-- `sessionObjectKeys`: every object that the tables know of the session.
unfoldable pub session_object_keys : (String → String → Bool) → String → Db → List String
unfolding distinct plan_keys normalized_keys action_keys
session_object_keys collate session_id db = sort_by collate (
    distinct (
      map (λ a. a.key) (select (λ a. a.session_id == session_id) db.artifacts)
      ++ normalized_keys (select (λ r. r.session_id == session_id) db.results)
      ++ action_keys session_id db
      ++ plan_keys session_id db db.plans))

-- The unique index `deletion_requests_one_active_per_session`: state IN
-- ('queued', 'leased', 'blocked').
pub is_open : String → DeletionRequest → Bool
unfolding is_blocked
is_open session_id d =
    d.session_id == session_id && (is_queued d.state || is_leased d.state || is_blocked d.state)

abbrev new_request :
    String → String → String → String → List String → String → Time → DeletionRequest
new_request id organization_id session_id reason keys actor now = record {
  id = id;
  organization_id = organization_id;
  session_id = session_id;
  reason = reason;
  object_keys = keys;
  state = queued;
  attempt = 0;
  manual_requeues = 0;
  available_at = now;
  leased_by = none;
  lease_expires_at = none;
  requested_by = actor;
  requested_at = now;
  completed_at = none;
  last_error = none;
}

-- A redaction of the session is queued or runs.
unfoldable pub is_being_redacted : String → Db → Bool
is_being_redacted session_id db =
    exists (λ j. j.session_id == session_id && (is_queued j.state || is_leased j.state))
      db.redaction_jobs

-- `RequestSessionDeletion`; `new_id` is what `newID("delete")` returned.
unfoldable pub request_session_deletion :
    (String → String → Bool)
    → String
    → String
    → String
    → String
    → String
    → Time
    → Tx DeletionRequest
unfolding insert_audit
request_session_deletion collate session_id reason new_id actor request_id now = do
  fail_if (not (is_reason reason)) (message "deletion reason must contain 3 to 2000 characters")
  found ← session_and_organization session_id
  fail_if (not (deletable_session_state found.0.state)) deletion_not_allowed
  held ← fetch (is_held session_id)
  fail_if held legal_hold_active
  redacting ← fetch (is_being_redacted session_id)
  fail_if redacting redaction_in_progress
  keys ← fetch (session_object_keys collate session_id)
  let request = new_request new_id found.1 session_id (trim_space reason) keys actor now
  fail_if (is_refused_reason request.reason) (constraint "deletion_requests_reason_check")
  fresh (λ db. db.deletions) (λ q. q.id == new_id) "deletion_requests_pkey"
  repeated ← fetch (λ db. exists (is_open session_id) db.deletions)
  fail_if repeated deletion_pending
  write (λ db. record db { deletions = insert request db.deletions })
  insert_audit (
      event actor "session.deletion_requested" ("deletion-request/" +++ new_id) now request_id (
        ("organization_id", text found.1)
        ∷ ("session_id", text session_id)
        ∷ ("reason", text (trim_space reason))
        ∷ ("object_count", number (length keys))
        ∷ []))
  pure request
