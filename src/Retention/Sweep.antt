-- ===== src/Retention/Sweep.antt =====
-- `QueueExpiredRetention` (services/api/internal/database/retention_expiry.go).
pub mod Due
pub mod Queued
pub mod Covered
use data_trains.Base.{
  ℕ, suc, ◌+◌, ◌-◌, String, Bool, true, false, not, ◌&&◌, ◌||◌, ◌==◌, ltb, Option, none, some, List,
  [], ◌∷◌, ◌+++◌, ◌++◌, map, if◌then◌else◌, sort_by, length, take,
}
use data_trains.Domain.Errors.{message}
use data_trains.Domain.Model.{
  Time, JobState, RedactionJob, ValidationResult, queued, is_queued, is_leased, number, text,
}
use data_trains.Table.{exists, select, insert}
use data_trains.Db.{
  Db, Tx, SessionRow, ReleaseRow, RedactionPlanRow, ResourceType, session_raw, session_derived,
  release, RetentionPurge, RetentionPolicy, pure, ◌>>=◌, ◌>>◌, fail_if, fetch, write, insert_audit,
}
use data_trains.Store.Catalog.{event}
use data_trains.Erasure.Holds.{is_blocked, is_held}
use data_trains.Erasure.Requests.{is_unpurged, distinct, segment_key}
use data_trains.Retention.Expiry.{
  has_aged, raw_state, derived_state, policy_of, policy_of_release, has_artifacts, is_kept_result,
  is_kept_redaction, derived_anchor, is_release_held, is_completed,
}

-- `retentionCandidate`
pub record Candidate : Type 0 where
  pub organization_id : String
  pub resource_type : ResourceType
  pub resource_id : String
  pub policy_updated_at : Time
  pub object_keys : List String

unfoldable pub type_eq : ResourceType → ResourceType → Bool
type_eq session_raw session_raw = true
type_eq session_derived session_derived = true
type_eq release release = true
type_eq _ _ = false

unfoldable pub is_about : ResourceType → String → RetentionPurge → Bool
unfolding type_eq
is_about kind id q = type_eq q.resource_type kind && q.resource_id == id

-- q.state IN ('queued','leased','blocked')
unfoldable pub is_active : JobState → Bool
unfolding is_blocked
is_active at = is_queued at || is_leased at || is_blocked at

-- A purge of the resource stands or is done.
unfoldable pub is_purged_already : ResourceType → String → Db → Bool
unfolding is_about is_active is_completed
is_purged_already kind id db =
    exists (λ q. is_about kind id q && (is_active q.state || is_completed q.state)) db.purges

-- A session's candidate, from the policy and the keys found.
session_candidate : ResourceType → SessionRow → RetentionPolicy → List String → Candidate
session_candidate kind s policy keys = record {
  organization_id = policy.organization_id;
  resource_type = kind;
  resource_id = s.id;
  policy_updated_at = policy.updated_at;
  object_keys = keys;
}

-- The manifests of the completed redactions; a NULL is left out.
manifest_keys : String → List RedactionJob → List String
unfolding is_kept_redaction
manifest_keys session_id [] = []
manifest_keys session_id (j ∷ js) =
    let rest = manifest_keys session_id js in
    if is_kept_redaction session_id j
    then elim j.output_manifest_key [ none ↦ rest | some key ↦ key ∷ rest ]
    else rest

module _ (db : Db) (now : Time) where
  raw_keys : SessionRow → List String
  unfolding is_unpurged
  raw_keys s =
      map (λ a. a.key) (select (λ a. a.session_id == s.id && is_unpurged a.purged_at) db.artifacts)

  -- The session's raw data has outlived its period and no hold keeps it.
  unfoldable pub raw_expired : SessionRow → RetentionPolicy → Bool
  raw_expired s policy =
      raw_state s.state
      && has_aged policy.raw_days now s.updated_at
      && has_artifacts s.id db
      && not (is_held s.id db)
      && not (is_purged_already session_raw s.id db)

  segment_keys : SessionRow → List RedactionPlanRow → List String
  unfolding is_completed is_unpurged
  segment_keys s [] = []
  segment_keys s (p ∷ ps) =
      let rest = segment_keys s ps in
      if p.session_id == s.id
        && exists (λ j. j.plan_id == p.id && is_completed j.state && is_unpurged j.purged_at)
            db.redaction_jobs
      then map (segment_key s.id p.id) p.segment_ids ++ rest
      else rest

  -- The result's data has outlived the period that the policy gives derived data.
  unfoldable pub result_expired : SessionRow → RetentionPolicy → ValidationResult → Bool
  result_expired s policy r =
      is_kept_result s.id r && has_aged policy.derived_days now (derived_anchor db s r)

  -- The text `""` stands for NULL.
  expired_result_keys : SessionRow → RetentionPolicy → List ValidationResult → List String
  unfolding result_expired
  expired_result_keys s policy [] = []
  expired_result_keys s policy (r ∷ rs) =
      let rest = expired_result_keys s policy rs in
      if result_expired s policy r && not (r.normalized_key == "")
      then r.normalized_key ∷ rest
      else rest

  unfoldable pub derived_expired : SessionRow → RetentionPolicy → Bool
  derived_expired s policy =
      derived_state s.state
      && exists (result_expired s policy) db.results
      && not (is_held s.id db)
      && not (is_purged_already session_derived s.id db)

  unfoldable pub release_expired : ReleaseRow → RetentionPolicy → Bool
  release_expired r policy =
      is_unpurged r.purged_at
      && has_aged policy.release_days now r.created_at
      && not (is_release_held r.id db)
      && not (is_purged_already release r.id db)

  unfoldable pub release_candidate : ReleaseRow → Option Candidate
  release_candidate r = elim (policy_of_release db r) [
    | none ↦ none
    | some policy ↦
        if release_expired r policy
        then some (record {
          organization_id = policy.organization_id;
          resource_type = release;
          resource_id = r.id;
          policy_updated_at = policy.updated_at;
          object_keys = r.object_keys;
        })
        else none
  ]

-- The candidates among the rows, in the rows' order.
unfoldable pub collect : {R : Type 0} → (R → Option Candidate) → List R → List Candidate
collect f [] = []
collect f (r ∷ rs) = let rest = collect f rs in elim (f r) [ none ↦ rest | some c ↦ c ∷ rest ]

-- `limit-len(candidates)`; a query that has no room left finds nothing.
abbrev room : ℕ → List Candidate → ℕ
room limit found = limit - length found

module _ (collate : String → String → Bool) (db : Db) (now : Time) where
  -- jsonb_agg(DISTINCT …)
  abbrev aggregate : List String → List String
  aggregate keys = sort_by collate (distinct keys)

  unfoldable pub raw_candidate : SessionRow → Option Candidate
  unfolding raw_keys session_candidate distinct
  raw_candidate s = elim (policy_of db s) [
    | none ↦ none
    | some policy ↦
        if raw_expired db now s policy
        then some (session_candidate session_raw s policy (aggregate (raw_keys db now s)))
        else none
  ]

  unfoldable pub derived_candidate : SessionRow → Option Candidate
  unfolding expired_result_keys manifest_keys segment_keys session_candidate distinct
  derived_candidate s = elim (policy_of db s) [
    | none ↦ none
    | some policy ↦
        if derived_expired db now s policy
        then some (
            session_candidate session_derived s policy (
              aggregate (
                expired_result_keys db now s policy db.results
                ++ ("derived/sessions/" +++ s.id +++ "/actions.jsonl")
                  ∷ manifest_keys s.id db.redaction_jobs
                ++ segment_keys db now s db.plans)))
        else none
  ]

  -- The three queries, each with the room that is left.
  unfoldable pub candidates : ℕ → List Candidate
  candidates limit =
      let sessions = sort_by (λ (s t : SessionRow). collate s.id t.id) db.sessions in
      let raw = take limit (collect raw_candidate sessions) in
      let both = raw ++ take (room limit raw) (collect derived_candidate sessions) in
      let releases = sort_by (λ (r q : ReleaseRow). collate r.id q.id) db.releases in
      both ++ take (room limit both) (collect (release_candidate db now) releases)

abbrev pub new_purge : String → Time → Candidate → RetentionPurge
new_purge id now c = record {
  id = id;
  organization_id = c.organization_id;
  resource_type = c.resource_type;
  resource_id = c.resource_id;
  object_keys = c.object_keys;
  state = queued;
  attempt = 0;
  policy_updated_at = c.policy_updated_at;
  available_at = now;
  requested_at = now;
  leased_by = none;
  lease_expires_at = none;
  completed_at = none;
  last_error = none;
}

-- The primary key and the unique index `retention_purge_one_active_resource`.
unfoldable pub conflicts : String → ResourceType → String → RetentionPurge → Bool
unfolding is_about is_active
conflicts id kind resource_id q = q.id == id || (is_about kind resource_id q && is_active q.state)

unfoldable pub type_text : ResourceType → String
type_text session_raw = "session_raw"
type_text session_derived = "session_derived"
type_text release = "release"

-- INSERT … ON CONFLICT DO NOTHING, and the audit event of an inserted row.
unfoldable pub queue_candidate : String → String → Time → Candidate → Tx ℕ
unfolding conflicts insert_audit type_text
queue_candidate actor id now c = do
  repeated ← fetch (λ db. exists (conflicts id c.resource_type c.resource_id) db.purges)
  if repeated then pure 0 else (do
    write (λ db. record db { purges = insert (new_purge id now c) db.purges })
    insert_audit (
        event actor "retention.purge_queued" ("retention-purge/" +++ id) now id (
          ("organization_id", text c.organization_id)
          ∷ ("resource_type", text (type_text c.resource_type))
          ∷ ("resource_id", text c.resource_id)
          ∷ ("object_count", number (length c.object_keys))
          ∷ []))
    pure 1)

-- The loop over the candidates; `new_id` gives the identifier of each.
unfoldable pub queue_candidates : (ℕ → String) → String → Time → ℕ → List Candidate → Tx ℕ
unfolding queue_candidate
queue_candidates new_id actor now index [] = pure 0
queue_candidates new_id actor now index (c ∷ cs) = do
  one ← queue_candidate actor (new_id index) now c
  others ← queue_candidates new_id actor now (suc index) cs
  pure (one + others)

-- `QueueExpiredRetention`; a limit of 0 stands for every limit that is not positive.
unfoldable pub queue_expired_retention :
    (String → String → Bool) → (ℕ → String) → String → Time → ℕ → Tx ℕ
unfolding candidates queue_candidates
queue_expired_retention collate new_id actor now limit = do
  fail_if (actor == "" || ltb limit 1 || ltb 1000 limit)
      (message "actor and a limit from 1 to 1000 are required")
  found ← fetch (λ db. candidates collate db now limit)
  queue_candidates new_id actor now 0 found
