-- ===== src/Redaction/Plans.antt =====
-- Redaction plans (services/api/internal/database/redaction.go).
pub mod Repeat
use data_trains.Base.{
  ℕ, ◌+◌, String, Bool, true, false, not, ◌&&◌, ◌||◌, ◌==◌, ltb, eqb, Option, none, some, List, [],
  ◌∷◌, ◌+++◌, map, if◌then◌else◌, sort_by, text_before,
}
use Prim.Native.Nat.{max}
use data_trains.Domain.State.{SessionState, accepted, state_eq}
use data_trains.Domain.Errors.{
  Result, ok, err, constraint, message, not_found, redaction_eligibility, redaction_conflict,
  deletion_pending, as_invalid_plan,
}
use data_trains.Domain.Model.{
  Time, Artifact, DeletionRequest, RedactionJob, JobState, queued, leased, blocked, dead_letter,
  text, number,
}
use data_trains.Table.{find, select, exists, insert}
use data_trains.Db.{
  Db, Tx, RedactionPlanRow, pure, ◌>>=◌, ◌>>◌, fail_if, fresh, fetch, row, write, lift,
  insert_audit, find_session,
}
use data_trains.Store.Catalog.{event}
use data_trains.Redaction.Document.{
  Floats, RedactionDocument, RedactionSegment, canonical_redaction_document,
}

-- state IN ('queued','leased','blocked','dead_letter')
is_pending : JobState → Bool
is_pending queued = true
is_pending leased = true
is_pending blocked = true
is_pending dead_letter = true
is_pending _ = false

-- A deletion request of the session is not completed.
unfoldable pub has_pending_deletion : String → Db → Bool
unfolding is_pending
has_pending_deletion session_id db =
    exists (λ d. d.session_id == session_id && is_pending d.state) db.deletions

abbrev is_unpurged : Option Time → Bool
is_unpurged none = true
is_unpurged (some _) = false

-- The keys of the session's videos, in the order of the database's texts.
unfoldable pub video_keys : (String → String → Bool) → String → Db → List String
video_keys collate session_id db = sort_by collate (
    map (λ a. a.key)
      (select
        (λ a. a.session_id == session_id && a.media_type == "video/mp4" && is_unpurged a.purged_at)
        db.artifacts))

abbrev same_texts : List String → List String → Bool
same_texts [] [] = true
same_texts (s ∷ ss) (t ∷ ts) = s == t && same_texts ss ts
same_texts _ _ = false

abbrev is_empty : List String → Bool
is_empty [] = true
is_empty (_ ∷ _) = false

-- There is a video, and the plan names exactly the videos: it compares the two sorted lists.
unfoldable pub covers_videos : {N : Type 0} → List String → List (RedactionSegment N) → Bool
covers_videos keys segments =
    not (is_empty keys) && same_texts keys (sort_by text_before (map (λ s. s.source_key) segments))

-- COALESCE(max(version),0)
unfoldable pub latest_version : String → List RedactionPlanRow → ℕ
latest_version session_id [] = 0
latest_version session_id (p ∷ ps) =
    let rest = latest_version session_id ps in
    if p.session_id == session_id then max p.version rest else rest

-- A new row of `redaction_jobs`.
abbrev pub new_redaction_job : String → String → String → Time → RedactionJob
new_redaction_job job_id plan_id session_id now = record {
  id = job_id;
  plan_id = plan_id;
  session_id = session_id;
  state = queued;
  attempt = 0;
  manual_requeues = 0;
  available_at = now;
  leased_by = none;
  lease_expires_at = none;
  output_manifest_key = none;
  last_error = none;
  created_at = now;
  updated_at = now;
  finished_at = none;
  dead_lettered_at = none;
  purged_at = none;
}

-- The plan and its job, with their audit events.
unfoldable pub insert_plan : RedactionPlanRow → String → String → Time → Tx RedactionJob
unfolding insert_audit
insert_plan plan job_id actor now = do
  let job = new_redaction_job job_id plan.id plan.session_id now
  fresh (λ db. db.plans) (λ p. p.id == plan.id) "redaction_plans_pkey"
  repeated ← fetch (λ db.
      exists (λ p. p.session_id == plan.session_id && p.request_id == plan.request_id) db.plans)
  fail_if repeated (constraint "redaction_plans_session_id_request_id_key")
  write (λ db. record db { plans = insert plan db.plans })
  fresh (λ db. db.redaction_jobs) (λ j. j.id == job_id) "redaction_jobs_pkey"
  fresh (λ db. db.redaction_jobs) (λ j. j.plan_id == plan.id) "redaction_jobs_plan_id_key"
  write (λ db. record db { redaction_jobs = insert job db.redaction_jobs })
  insert_audit (
      event actor "redaction_plan.approved" ("redaction-plan/" +++ plan.id) now plan.request_id (
        ("session_id", text plan.session_id)
        ∷ ("version", number plan.version)
        ∷ ("document_hash", text plan.document_hash)
        ∷ []))
  insert_audit (
      event actor "redaction_job.queued" ("redaction-job/" +++ job.id) now plan.request_id
        (("session_id", text plan.session_id) ∷ ("plan_id", text plan.id) ∷ []))
  pure job

-- The rows of the plan that the request made and of its job.
unfoldable pub plan_by_request : String → String → Db → Option (RedactionPlanRow × RedactionJob)
plan_by_request session_id request_id db =
    elim (find (λ p. p.session_id == session_id && p.request_id == request_id) db.plans) [
      | none ↦ none
      | some p ↦ elim (find (λ j. j.plan_id == p.id) db.redaction_jobs) [
        | none ↦ none
        | some j ↦ some (p, j)
      ]
    ]

-- Encoding, decoding and digest, which the program takes from the standard library; `unmarshal` reads
-- the fields of a document.
pub record Encoding (N : Type 0) : Type 0 where
  pub marshal : RedactionDocument N → String
  pub unmarshal : String → Result (RedactionDocument N)
  pub sha256 : String → String

-- A plan as it is returned: the columns of its row, and its document.
pub record Plan (N : Type 0) : Type 0 where
  pub columns : RedactionPlanRow
  pub document : RedactionDocument N

-- 'epoch', in nanoseconds since Go's zero time
abbrev pub epoch : Time
epoch = 62135596800000000000

-- COALESCE(t,'epoch'::timestamptz)
abbrev pub or_epoch : Option Time → Option Time
or_epoch none = some epoch
or_epoch (some t) = some t

-- A job as it is read back: a time that is not set is the epoch. In a job that was not read back,
-- `none` is Go's zero time; a text that is not set is empty in both.
abbrev pub with_epochs : RedactionJob → RedactionJob
with_epochs j = record j {
  lease_expires_at = or_epoch j.lease_expires_at;
  finished_at = or_epoch j.finished_at;
  dead_lettered_at = or_epoch j.dead_lettered_at;
}

-- The document of a plan is decoded from its row.
unfoldable pub decode_plan :
    {N : Type 0}
    → Encoding N
    → Option (RedactionPlanRow × RedactionJob)
    → Result (Option (Plan N × RedactionJob))
decode_plan encoding none = ok none
decode_plan encoding (some (plan, job)) = elim (encoding.unmarshal plan.document) [
  | ok document ↦ ok (some (record { columns = plan; document = document }, with_epochs job))
  | err e ↦ err e
]

-- `redactionByRequest`
unfoldable pub redaction_by_request :
    {N : Type 0} → Encoding N → String → String → Tx (Option (Plan N × RedactionJob))
unfolding decode_plan
redaction_by_request encoding session_id request_id = do
  made ← fetch (plan_by_request session_id request_id)
  lift (decode_plan encoding made)

module _ {N : Type 0} (f : Floats N) (encoding : Encoding N)
    (collate : String → String → Bool) where
  -- A plan for a canonical document, returned with the document that was given; `ids` are the new identifiers of the plan and of its job.
  unfoldable pub create_plan :
      RedactionDocument N
      → RedactionDocument N
      → String
      → String
      → String × String
      → String
      → Time
      → Tx (Plan N × RedactionJob)
  unfolding latest_version
  create_plan document canonical session_id reviewer_id ids request_id now = do
    session ← row (find_session session_id) not_found
    reviewed ← fetch (λ db.
        exists
          (λ r. r.session_id == session_id && r.decision == "accepted" && r.pii_review == "passed")
          db.reviews)
    fail_if (not (state_eq session.state accepted) || not reviewed) redaction_eligibility
    keys ← fetch (video_keys collate session_id)
    pending ← fetch (has_pending_deletion session_id)
    fail_if pending deletion_pending
    fail_if (not (covers_videos keys document.segments)) redaction_eligibility
    version ← fetch (λ db. latest_version session_id db.plans)
    let plan : RedactionPlanRow = record {
      id = ids.0;
      session_id = session_id;
      reviewer_id = reviewer_id;
      version = version + 1;
      document = encoding.marshal canonical;
      segment_ids = map (λ s. s.segment_id) canonical.segments;
      document_hash = encoding.sha256 (encoding.marshal canonical);
      request_id = request_id;
      created_at = now;
    }
    job ← insert_plan plan ids.1 reviewer_id now
    pure (record { columns = plan; document = document }, job)

  -- A request that made a plan before gets that plan, if it asks for the same.
  repeat_plan : RedactionDocument N → String → Plan N × RedactionJob → Tx (Plan N × RedactionJob)
  repeat_plan canonical reviewer_id (plan, job) = do
    fail_if
        (not (plan.columns.document_hash == encoding.sha256 (encoding.marshal canonical))
          || not (plan.columns.reviewer_id == reviewer_id))
        redaction_conflict
    pure (plan, job)

  create_or_repeat :
      RedactionDocument N
      → RedactionDocument N
      → String
      → String
      → String × String
      → String
      → Time
      → Option (Plan N × RedactionJob)
      → Tx (Plan N × RedactionJob)
  unfolding repeat_plan
  create_or_repeat document canonical session_id reviewer_id ids request_id now none =
      create_plan document canonical session_id reviewer_id ids request_id now
  create_or_repeat document canonical session_id reviewer_id ids request_id now (some made) =
      repeat_plan canonical reviewer_id made

  -- `CreateRedactionPlan`
  unfoldable pub create_redaction_plan :
      RedactionDocument N
      → String
      → String
      → String
      → String × String
      → String
      → Time
      → Tx (Plan N × RedactionJob)
  unfolding create_or_repeat redaction_by_request
  create_redaction_plan document session_id reviewer_id actor ids request_id now = do
    fail_if
        (session_id == "" || reviewer_id == "" || not (reviewer_id == actor) || request_id == "")
        (message "session, matching reviewer actor, and request ID are required")
    canonical ← lift (as_invalid_plan (canonical_redaction_document f document session_id))
    made ← redaction_by_request encoding session_id request_id
    create_or_repeat document canonical session_id reviewer_id ids request_id now made
