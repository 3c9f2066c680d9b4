-- ===== src/Review/Submission.antt =====
-- Submission of a review (services/api/internal/database/review.go).
pub mod Moved
pub mod Gate
use data_trains.Base.{
  ℕ, ◌+◌, String, Bool, true, false, not, ◌&&◌, ◌||◌, ◌==◌, ltb, leb, Option, none, some, List, [],
  ◌∷◌, ◌+++◌, map, if◌then◌else◌,
}
use data_trains.Domain.State.{
  SessionState, assigned, ready_for_review, accepted, rejected, rework_required, state_eq,
}
use data_trains.Domain.Errors.{
  Result, ok, err, message, constraint, not_found, wrong_state, review_lease, pii_gate,
  deletion_pending, redaction_eligibility, invalid_redaction_plan, as_invalid_plan,
}
use data_trains.Domain.Model.{Time, text}
use data_trains.Domain.Session.{Session, transition}
use data_trains.Table.{exists, insert}
use data_trains.Db.{
  Db, Tx, SessionRow, ReviewRow, RedactionPlanRow, pure, ◌>>=◌, ◌>>◌, raise, fail_if, fresh, fetch,
  row, write, lift, insert_audit, find_session, session_of, save_session, insert_last_audit,
}
use data_trains.Store.Catalog.{event, new_session}
use data_trains.Redaction.Document.{Floats, RedactionDocument, canonical_redaction_document}
use data_trains.Redaction.Plans.{
  Encoding, insert_plan, video_keys, covers_videos, has_pending_deletion, latest_version,
}
use data_trains.Review.Claims.{find_claim, delete_claim}

-- A review as it is submitted.
pub record Review (N : Type 0) : Type 0 where
  pub session_id : String
  pub reviewer_id : String
  pub rubric_version : String
  pub scores : String
  pub comments : String
  pub decision : String
  pub pii_review : String
  pub redaction_document : Option (RedactionDocument N)

-- The identifiers that `id.New` returned.
pub record ReviewIds : Type 0 where
  pub review : String
  pub plan : String
  pub job : String
  pub rework : String

-- The state that a decision leads to; any other text is refused before.
unfoldable pub decision_state : String → SessionState
decision_state decision =
    if decision == "accepted"
    then accepted
    else if decision == "rejected"
    then rejected
    else rework_required

-- rework_of_session_id=$1
unfoldable pub is_successor_of : String → SessionRow → Bool
is_successor_of id s = elim s.rework_of_session_id [ none ↦ false | some o ↦ o == id ]

-- A reviewer's session for another attempt, and its audit event.
start_rework : Session → String → String → String → String → Time → Tx (Unit {0})
unfolding insert_audit
start_rework session rework_id review_id actor request_id now = do
  fresh (λ db. db.sessions) (λ q. q.id == rework_id) "sessions_pkey"
  repeated ← fetch (λ db. exists (is_successor_of session.id) db.sessions)
  fail_if repeated (constraint "sessions_one_rework_successor")
  let successor : SessionRow = record (new_session rework_id session.assignment_id assigned now) {
    rework_of_session_id = some session.id;
  }
  write (λ db. record db { sessions = insert successor db.sessions })
  insert_audit (
      event actor "session.rework_assigned" ("session/" +++ rework_id) now request_id (
        ("assignment_id", text session.assignment_id)
        ∷ ("rework_of_session_id", text session.id)
        ∷ ("review_id", text review_id)
        ∷ []))

-- `valid_scores` tells a JSON object with a field at least.
module _ {N : Type 0} (f : Floats N) (encoding : Encoding N) (collate : String → String → Bool)
    (valid_scores : String → Bool) where
  -- The checks of the review that read no table.
  unfoldable pub check_review : Review N → String → Result (Unit {0})
  check_review r actor =
      if r.session_id == ""
        || r.reviewer_id == ""
        || not (r.reviewer_id == actor)
        || r.rubric_version == ""
      then err (message "session, reviewer, matching actor, and rubric version are required")
      else if not (r.decision == "accepted")
          && not (r.decision == "rejected")
          && not (r.decision == "rework_required")
      then err (message "unsupported review decision")
      else if not (r.pii_review == "pending")
          && not (r.pii_review == "passed")
          && not (r.pii_review == "failed")
      then err (message "unsupported PII review state")
      else if r.decision == "accepted" && not (r.pii_review == "passed")
      then err pii_gate
      else ok tt

  -- The document that comes with the review, if one does, and its canonical form.
  unfoldable pub check_document :
      Review N
      → Option (RedactionDocument N)
      → Result (Option (RedactionDocument N × RedactionDocument N))
  check_document r none = ok none
  check_document r (some document) =
      if not (r.decision == "accepted") || not (r.pii_review == "passed")
      then err invalid_redaction_plan
      else elim (as_invalid_plan (canonical_redaction_document f document r.session_id)) [
        | ok canonical ↦ ok (some (document, canonical))
        | err e ↦ err e
      ]

  -- The plan for the document.
  plan_redaction :
      Review N
      → Option (RedactionDocument N × RedactionDocument N)
      → ReviewIds
      → String
      → Time
      → Tx (Unit {0})
  unfolding insert_plan latest_version
  plan_redaction r none ids request_id now = pure tt
  plan_redaction r (some (document, canonical)) ids request_id now = do
    pending ← fetch (has_pending_deletion r.session_id)
    fail_if pending deletion_pending
    keys ← fetch (video_keys collate r.session_id)
    fail_if (not (covers_videos keys document.segments)) redaction_eligibility
    version ← fetch (λ db. latest_version r.session_id db.plans)
    let plan : RedactionPlanRow = record {
      id = ids.plan;
      session_id = r.session_id;
      reviewer_id = r.reviewer_id;
      version = version + 1;
      document = encoding.marshal canonical;
      segment_ids = map (λ s. s.segment_id) canonical.segments;
      document_hash = encoding.sha256 (encoding.marshal canonical);
      request_id = request_id;
      created_at = now;
    }
    job ← insert_plan plan ids.job r.reviewer_id now
    pure tt

  -- What is written once the session has been moved on.
  unfoldable pub settle_review :
      Review N
      → Option (RedactionDocument N × RedactionDocument N)
      → Session
      → ReviewIds
      → String
      → String
      → Time
      → Tx (Unit {0})
  unfolding plan_redaction start_rework save_session insert_audit insert_last_audit
  settle_review r documents session ids actor request_id now = do
    let review : ReviewRow = record {
      id = ids.review;
      session_id = r.session_id;
      reviewer_id = r.reviewer_id;
      rubric_version = r.rubric_version;
      scores = r.scores;
      comments = r.comments;
      decision = r.decision;
      pii_review = r.pii_review;
      created_at = now;
    }
    fresh (λ db. db.reviews) (λ q. q.id == ids.review) "reviews_pkey"
    write (λ db. record db { reviews = insert review db.reviews })
    save_session session
    plan_redaction r documents ids request_id now
    if r.decision == "rework_required"
        then start_rework session ids.rework ids.review actor request_id now
        else pure tt
    delete_claim r.session_id
    insert_audit (
        event actor "review.submitted" ("review/" +++ ids.review) now request_id (
          ("session_id", text r.session_id)
          ∷ ("decision", text r.decision)
          ∷ ("pii_review", text r.pii_review)
          ∷ ("rubric_version", text r.rubric_version)
          ∷ []))
    insert_last_audit session

  -- The row of the review's session, if it waits for a review and the reviewer's claim is live.
  unfoldable pub claimed_session : Review N → Time → Tx SessionRow
  claimed_session r now = do
    found ← row (find_session r.session_id) not_found
    fail_if (not (state_eq found.state ready_for_review)) (wrong_state found.state)
    claim ← row (find_claim r.session_id) review_lease
    fail_if (not (claim.reviewer_id == r.reviewer_id) || leb claim.expires_at now) review_lease
    pure found

  -- The session, moved on to what was decided.
  unfoldable pub move_session : Review N → String → String → Time → SessionRow → Tx Session
  unfolding transition
  move_session r actor request_id now found = lift (
      transition (session_of found) (record {
        to = decision_state r.decision;
        actor = actor;
        request_id = request_id;
        timestamp = now;
      }))

  -- `SubmitReview`
  unfoldable pub submit_review : Review N → ReviewIds → String → String → Time → Tx Session
  submit_review r ids actor request_id now = do
    lift (check_review r actor)
    documents ← lift (check_document r r.redaction_document)
    fail_if (not (valid_scores r.scores)) (message "scores must be a non-empty JSON object")
    found ← claimed_session r now
    session ← move_session r actor request_id now found
    settle_review r documents session ids actor request_id now
    pure session
