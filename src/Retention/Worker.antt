-- ===== src/Retention/Worker.antt =====
-- The worker's side of a retention purge (services/api/internal/database/retention_expiry.go).
pub mod Leases
pub mod Completed
use data_trains.Base.{
  ℕ, ◌+◌, String, Bool, true, false, not, ◌&&◌, ◌||◌, ◌==◌, ltb, leb, eqb, Option, none, some, List,
  [], ◌∷◌, ◌+++◌, if◌then◌else◌, sort_by,
}
use data_trains.Domain.Errors.{
  constraint, not_found, legal_hold_active, no_retention_purge, retention_lease, retention_not_dead,
}
use data_trains.Domain.Model.{
  Time, JobState, queued, leased, completed, blocked, dead_letter, cancelled, is_queued, is_leased,
  is_dead_letter, text, number, Artifact, ValidationResult, RedactionJob,
}
use data_trains.Table.{find, exists, first_by, update_where, select}
use data_trains.Db.{
  Db, Tx, SessionRow, ReleaseRow, ResourceType, session_raw, session_derived, release,
  RetentionPurge, RetentionPolicy, pure, ◌>>=◌, ◌>>◌, fail_if, fetch, row, write, insert_audit,
  find_session, no_rows,
}
use data_trains.Store.Catalog.{event}
use data_trains.Pipeline.Lease.{reached}
use data_trains.Pipeline.Backoff.{backoff}
use data_trains.Pipeline.Outcome.{owner}
use data_trains.Erasure.Requests.{is_unpurged}
use data_trains.Retention.Policy.{find_policy}
use data_trains.Retention.Expiry.{
  has_aged, raw_state, derived_state, policy_of, policy_of_release, has_artifacts, is_kept_result,
  is_kept_redaction, is_resource_held,
}
use data_trains.Retention.Sweep.{type_text, is_about, is_active}

-- WHERE (state='queued' AND available_at <= $1) OR (state='leased' AND lease_expires_at <= $1)
unfoldable pub purge_claimable : Time → RetentionPurge → Bool
purge_claimable now q =
    (is_queued q.state && leb q.available_at now)
    || (is_leased q.state && reached q.lease_expires_at now)

abbrev pub purge_order : (String → String → Bool) → RetentionPurge → RetentionPurge → Bool
purge_order collate q r =
    ltb q.available_at r.available_at || (eqb q.available_at r.available_at && collate q.id r.id)

abbrev pub find_purge : String → Db → Option RetentionPurge
find_purge id db = find (λ q. q.id == id) db.purges

abbrev update_purge : String → (RetentionPurge → RetentionPurge) → Tx (Unit {0})
update_purge id f = write (λ db. record db { purges = update_where (λ q. q.id == id) f db.purges })

-- The policy is that of the organization of the request.
abbrev of_organization : String → Option RetentionPolicy → Option RetentionPolicy
of_organization id none = none
of_organization id (some p) = if p.organization_id == id then some p else none

-- s.updated_at <= now - raw_days, in a state that lets raw data expire, with artifacts left.
raw_row : Db → Time → Option RetentionPolicy → SessionRow → Bool
raw_row db now none s = false
raw_row db now (some p) s =
    raw_state s.state && has_aged p.raw_days now s.updated_at && has_artifacts s.id db

-- vr.created_at <= now - derived_days for a valid result that is left.
derived_row : Db → Time → Option RetentionPolicy → SessionRow → Bool
derived_row db now none s = false
derived_row db now (some p) s =
    derived_state s.state
    && exists (λ r. is_kept_result s.id r && has_aged p.derived_days now r.created_at) db.results

release_row : Time → Option RetentionPolicy → ReleaseRow → Bool
release_row now none r = false
release_row now (some p) r = is_unpurged r.purged_at && has_aged p.release_days now r.created_at

-- The first query of `retentionStillEligible`; an identifier names one row.
unfoldable pub is_still_eligible : Time → RetentionPurge → Db → Bool
unfolding raw_row derived_row release_row policy_of policy_of_release
is_still_eligible now q db = elim q.resource_type [
  | session_raw ↦ elim (find_session q.resource_id db) [
    | none ↦ false
    | some s ↦ raw_row db now (of_organization q.organization_id (policy_of db s)) s
  ]
  | session_derived ↦ elim (find_session q.resource_id db) [
    | none ↦ false
    | some s ↦ derived_row db now (of_organization q.organization_id (policy_of db s)) s
  ]
  | release ↦ elim (find (λ (r : ReleaseRow). r.id == q.resource_id) db.releases) [
    | none ↦ false
    | some r ↦ release_row now (of_organization q.organization_id (policy_of_release db r)) r
  ]
]

abbrev pub end_purge : JobState → String → RetentionPurge → RetentionPurge
end_purge to reason q = record q {
  state = to;
  leased_by = none;
  lease_expires_at = none;
  last_error = some reason;
}

-- `finishRetentionWithoutPurge`; the caller returns the request as it was read.
finish_retention_without_purge :
    RetentionPurge → String → JobState → String → String → Time → Tx RetentionPurge
unfolding insert_audit type_text
finish_retention_without_purge q actor to action reason now = do
  update_purge q.id (end_purge to reason)
  insert_audit (
      event actor action ("retention-purge/" +++ q.id) now q.id (
        ("resource_type", text (type_text q.resource_type))
        ∷ ("resource_id", text q.resource_id)
        ∷ ("reason", text reason)
        ∷ []))
  pure q

abbrev pub lease_purge : String → Time → RetentionPurge → RetentionPurge
lease_purge worker_id expires q = record q {
  state = leased;
  attempt = q.attempt + 1;
  leased_by = some worker_id;
  lease_expires_at = some expires;
  last_error = none;
}

-- The returned request keeps the last error that was read.
grant_purge : RetentionPurge → String → Time → Tx RetentionPurge
grant_purge q worker_id expires = do
  update_purge q.id (lease_purge worker_id expires)
  pure (record q {
    state = leased;
    attempt = q.attempt + 1;
    leased_by = some worker_id;
    lease_expires_at = some expires;
  })

-- `ClaimRetentionPurge`
unfoldable pub claim_retention_purge :
    (String → String → Bool) → String → ℕ → Time → Tx RetentionPurge
unfolding finish_retention_without_purge grant_purge
claim_retention_purge collate worker_id lease_duration now = do
  q ← row (λ db. first_by (purge_order collate) (purge_claimable now) db.purges) no_retention_purge
  policy ← row (find_policy q.organization_id) no_rows
  eligible ← fetch (is_still_eligible now q)
  held ← fetch (is_resource_held q.resource_type q.resource_id)
  if not (eqb policy.updated_at q.policy_updated_at) || not eligible
      then finish_retention_without_purge q worker_id cancelled "retention.purge_cancelled"
          "retention policy or eligibility changed" now
      else if held
      then finish_retention_without_purge q worker_id blocked "retention.purge_blocked"
          "active legal hold" now
      else grant_purge q worker_id (now + lease_duration)

abbrev pub purge_artifact : Time → Artifact → Artifact
purge_artifact now a = record a { purged_at = some now }

abbrev pub purge_result : Time → ValidationResult → ValidationResult
purge_result now r = record r { purged_at = some now }

abbrev pub purge_redaction : Time → RedactionJob → RedactionJob
purge_redaction now j = record j { purged_at = some now }

abbrev pub purge_release : Time → ReleaseRow → ReleaseRow
purge_release now r = record r { purged_at = some now }

-- The rows whose objects are gone.
unfoldable pub mark_purged : ResourceType → String → Time → Db → Db
unfolding is_unpurged is_kept_redaction
mark_purged session_raw id now db = record db {
  artifacts =
      update_where (λ a. a.session_id == id && is_unpurged a.purged_at) (purge_artifact now)
        db.artifacts;
}
mark_purged session_derived id now db = record db {
  results =
      update_where (λ r. r.session_id == id && is_unpurged r.purged_at) (purge_result now)
        db.results;
  redaction_jobs = update_where (is_kept_redaction id) (purge_redaction now) db.redaction_jobs;
}
mark_purged release id now db = record db {
  releases =
      update_where (λ (r : ReleaseRow). r.id == id && is_unpurged r.purged_at) (purge_release now)
        db.releases;
}

abbrev pub complete_purge : Time → RetentionPurge → RetentionPurge
complete_purge now q = record q {
  state = completed;
  completed_at = some now;
  leased_by = none;
  lease_expires_at = none;
  last_error = none;
}

-- `CompleteRetentionPurge`
unfoldable pub complete_retention_purge : String → String → Time → Tx (Unit {0})
unfolding insert_audit mark_purged type_text
complete_retention_purge request_id worker_id now = do
  q ← row (find_purge request_id) not_found
  fail_if (not (is_leased q.state) || not (owner q.leased_by == worker_id)) retention_lease
  held ← fetch (is_resource_held q.resource_type q.resource_id)
  fail_if held legal_hold_active
  write (mark_purged q.resource_type q.resource_id now)
  update_purge request_id (complete_purge now)
  insert_audit (
      event worker_id "retention.purge_completed" ("retention-purge/" +++ request_id) now request_id
        (("resource_type", text (type_text q.resource_type))
          ∷ ("resource_id", text q.resource_id)
          ∷ []))

abbrev pub requeue_purge : Time → String → RetentionPurge → RetentionPurge
requeue_purge available error q = record q {
  state = queued;
  available_at = available;
  leased_by = none;
  lease_expires_at = none;
  last_error = some error;
}

abbrev pub bury_purge : Time → String → RetentionPurge → RetentionPurge
bury_purge now error q = record q {
  state = dead_letter;
  available_at = now;
  leased_by = none;
  lease_expires_at = none;
  last_error = some error;
}

-- `RequeueRetentionPurge`
unfoldable pub requeue_retention_purge : String → String → String → ℕ → Time → Tx (Unit {0})
unfolding insert_audit type_text
requeue_retention_purge request_id worker_id error max_attempts now = do
  q ← row (find_purge request_id) not_found
  fail_if (not (is_leased q.state) || not (owner q.leased_by == worker_id)) retention_lease
  let spent = leb max_attempts q.attempt
  update_purge request_id
      (if spent then bury_purge now error else requeue_purge (backoff now q.attempt) error)
  insert_audit (
      event worker_id (if spent then "retention.purge_dead_letter" else "retention.purge_queued")
        ("retention-purge/" +++ request_id) now request_id
        (("resource_type", text (type_text q.resource_type))
          ∷ ("resource_id", text q.resource_id)
          ∷ ("attempt", number q.attempt)
          ∷ ("error", text error)
          ∷ []))

-- `GetRetentionPurgeOrganization`
unfoldable pub get_retention_purge_organization : String → Tx String
get_retention_purge_organization request_id = do
  q ← row (find_purge request_id) not_found
  pure q.organization_id

abbrev pub revive_purge : Time → RetentionPurge → RetentionPurge
revive_purge now q = record q {
  state = queued;
  attempt = 0;
  available_at = now;
  leased_by = none;
  lease_expires_at = none;
  last_error = none;
}

-- `RetryDeadLetterRetentionPurge`; the unique index allows one active purge of a resource.
unfoldable pub retry_dead_letter_retention_purge :
    String → String → String → Time → Tx RetentionPurge
unfolding insert_audit is_about is_active type_text
retry_dead_letter_retention_purge request_id actor audit_request_id now = do
  q ← row (find_purge request_id) not_found
  fail_if (not (is_dead_letter q.state)) retention_not_dead
  repeated ←
      fetch (λ db.
        exists (λ r. is_about q.resource_type q.resource_id r && is_active r.state) db.purges)
  fail_if repeated (constraint "retention_purge_one_active_resource")
  update_purge request_id (revive_purge now)
  insert_audit (
      event actor "retention.purge_manual_retry" ("retention-purge/" +++ request_id) now
        audit_request_id
        (("resource_type", text (type_text q.resource_type))
          ∷ ("resource_id", text q.resource_id)
          ∷ ("previous_attempts", number q.attempt)
          ∷ []))
  pure (revive_purge now q)

-- WHERE $1::text[] IS NULL OR organization_id=ANY($1)
unfoldable pub may_see : Option (List String) → String → Bool
may_see none organization_id = true
may_see (some ids) organization_id = exists (λ id. id == organization_id) ids

-- ORDER BY requested_at DESC, id
abbrev list_order : (String → String → Bool) → RetentionPurge → RetentionPurge → Bool
list_order collate q r =
    ltb r.requested_at q.requested_at || (eqb q.requested_at r.requested_at && collate q.id r.id)

-- `ListRetentionPurgeRequests`
unfoldable pub list_retention_purge_requests :
    (String → String → Bool) → Option (List String) → Db → List RetentionPurge
unfolding may_see
list_retention_purge_requests collate organization_ids db =
    sort_by (list_order collate)
      (select (λ q. may_see organization_ids q.organization_id) db.purges)
