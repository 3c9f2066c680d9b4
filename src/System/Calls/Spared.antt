-- ===== src/System/Calls/Spared.antt =====
-- The operations that write neither to the artifacts nor to the legal holds.
use data_trains.Base.{List, ℕ, String, Bool, ◌≡◌, arith, none, some, Option, Option-cases, inl, inr}
use data_trains.Domain.State.{SessionState}
use data_trains.Domain.Errors.{Result-cases, ok}
use data_trains.Domain.Session.{Session}
use data_trains.Domain.Model.{
  Time, Artifact, LegalHold, ReviewClaim, RedactionJob, DeletionRequest, Assignment,
  ConsentAcceptance, ProcessingJob, ValidationResult,
}
use data_trains.Db.{Db}
use data_trains.Store.Joins.{session_and_organization}
use data_trains.Store.Catalog.{assign_task}
use data_trains.Store.Sessions.{accept_consent, transition_session}
use data_trains.Pipeline.Jobs.{submit_session}
use data_trains.Pipeline.Lease.{claim_validation_job}
use data_trains.Pipeline.Outcome.{
  complete_validation_job, requeue_validation_job, retry_dead_letter_job,
}
use data_trains.Review.Claims.{claim_review, release_review}
use data_trains.Review.Submission.{Review, ReviewIds, submit_review, settle_review}
use data_trains.Review.Submission.Gate.{submitted-ok}
use data_trains.Redaction.Document.{Floats, RedactionDocument}
use data_trains.Redaction.Plans.{
  Encoding, create_redaction_plan, create_plan, insert_plan, plan_by_request, Plan,
}
use data_trains.Redaction.Jobs.{
  claim_redaction_job, complete_redaction_job, requeue_redaction_job,
  retry_dead_letter_redaction_job,
}
use data_trains.Erasure.Requests.{request_session_deletion}
use data_trains.Erasure.Worker.{
  claim_deletion_request, requeue_deletion_request, retry_dead_letter_deletion_request,
}

-- The artifacts and the legal holds.
abbrev pub evidence : Db → List Artifact × List LegalHold
evidence db = (db.artifacts, db.holds)

module _ (db db' : Db) where
  pub assign_task-evidence :
      (t k n s actor request : String) (now : Time) (a : Assignment × Session)
      → assign_task t k n s actor request now db ≡ ok (a, db')
      → evidence db' ≡ evidence db
  unfolding assign_task
  assign_task-evidence t k n s actor request now a h = ground arith

  pub accept_consent-evidence :
      (s k d v new actor request : String) (now : Time) (a : ConsentAcceptance)
      → accept_consent s k d v new actor request now db ≡ ok (a, db')
      → evidence db' ≡ evidence db
  unfolding accept_consent
  accept_consent-evidence s k d v new actor request now a h = ground arith

  pub transition_session-evidence :
      (s : String) (to : SessionState) (actor request : String) (now : Time) (a : Session)
      → transition_session s to actor request now db ≡ ok (a, db')
      → evidence db' ≡ evidence db
  unfolding transition_session
  transition_session-evidence s to actor request now a h = ground arith

  pub submit_session-evidence :
      (s j actor request : String) (now : Time) (a : Session × ProcessingJob)
      → submit_session s j actor request now db ≡ ok (a, db')
      → evidence db' ≡ evidence db
  unfolding submit_session
  submit_session-evidence s j actor request now a h = ground arith

  pub claim_validation_job-evidence :
      (collate : String → String → Bool) (w : String) (duration : ℕ) (now : Time)
      (a : ProcessingJob)
      → claim_validation_job collate w duration now db ≡ ok (a, db')
      → evidence db' ≡ evidence db
  unfolding claim_validation_job
  claim_validation_job-evidence collate w duration now a h = ground arith

  pub complete_validation_job-evidence :
      (j w : String) (given : ValidationResult) (new : String) (now : Time) (a : Session)
      → complete_validation_job j w given new now db ≡ ok (a, db')
      → evidence db' ≡ evidence db
  unfolding complete_validation_job
  complete_validation_job-evidence j w given new now a h = ground arith

  pub requeue_validation_job-evidence :
      (j w error : String) (max : ℕ) (now : Time) (a : Unit {0})
      → requeue_validation_job j w error max now db ≡ ok (a, db')
      → evidence db' ≡ evidence db
  unfolding requeue_validation_job
  requeue_validation_job-evidence j w error max now a h = ground arith

  pub retry_dead_letter_job-evidence :
      (j actor request : String) (now : Time) (a : ProcessingJob)
      → retry_dead_letter_job j actor request now db ≡ ok (a, db')
      → evidence db' ≡ evidence db
  unfolding retry_dead_letter_job
  retry_dead_letter_job-evidence j actor request now a h = ground arith

  pub claim_review-evidence :
      (s v actor request : String) (lease : ℕ) (now : Time) (a : ReviewClaim)
      → claim_review s v actor request lease now db ≡ ok (a, db')
      → evidence db' ≡ evidence db
  unfolding claim_review
  claim_review-evidence s v actor request lease now a h = ground arith

  pub release_review-evidence :
      (s v actor request : String) (now : Time) (a : Unit {0})
      → release_review s v actor request now db ≡ ok (a, db')
      → evidence db' ≡ evidence db
  unfolding release_review
  release_review-evidence s v actor request now a h = ground arith

  pub request_session_deletion-evidence :
      (collate : String → String → Bool) (s reason new actor request : String) (now : Time)
      (a : DeletionRequest)
      → request_session_deletion collate s reason new actor request now db ≡ ok (a, db')
      → evidence db' ≡ evidence db
  unfolding request_session_deletion session_and_organization
  request_session_deletion-evidence collate s reason new actor request now a h = ground arith

  pub claim_deletion_request-evidence :
      (collate : String → String → Bool) (w : String) (duration : ℕ) (now : Time)
      (a : DeletionRequest)
      → claim_deletion_request collate w duration now db ≡ ok (a, db')
      → evidence db' ≡ evidence db
  unfolding claim_deletion_request
  claim_deletion_request-evidence collate w duration now a h = ground arith

  pub requeue_deletion_request-evidence :
      (d w error : String) (max : ℕ) (now : Time) (a : Unit {0})
      → requeue_deletion_request d w error max now db ≡ ok (a, db')
      → evidence db' ≡ evidence db
  unfolding requeue_deletion_request
  requeue_deletion_request-evidence d w error max now a h = ground arith

  pub retry_dead_letter_deletion_request-evidence :
      (d actor request : String) (now : Time) (a : DeletionRequest)
      → retry_dead_letter_deletion_request d actor request now db ≡ ok (a, db')
      → evidence db' ≡ evidence db
  unfolding retry_dead_letter_deletion_request
  retry_dead_letter_deletion_request-evidence d actor request now a h = ground arith

  pub claim_redaction_job-evidence :
      (collate : String → String → Bool) (w : String) (duration : ℕ) (now : Time) (a : RedactionJob)
      → claim_redaction_job collate w duration now db ≡ ok (a, db')
      → evidence db' ≡ evidence db
  unfolding claim_redaction_job
  claim_redaction_job-evidence collate w duration now a h = ground arith

  pub complete_redaction_job-evidence :
      (j w key : String) (now : Time) (a : Unit {0})
      → complete_redaction_job j w key now db ≡ ok (a, db')
      → evidence db' ≡ evidence db
  unfolding complete_redaction_job
  complete_redaction_job-evidence j w key now a h = ground arith

  pub requeue_redaction_job-evidence :
      (j w error : String) (max : ℕ) (now : Time) (a : Unit {0})
      → requeue_redaction_job j w error max now db ≡ ok (a, db')
      → evidence db' ≡ evidence db
  unfolding requeue_redaction_job
  requeue_redaction_job-evidence j w error max now a h = ground arith

  pub retry_dead_letter_redaction_job-evidence :
      (j actor request : String) (now : Time) (a : RedactionJob)
      → retry_dead_letter_redaction_job j actor request now db ≡ ok (a, db')
      → evidence db' ≡ evidence db
  unfolding retry_dead_letter_redaction_job
  retry_dead_letter_redaction_job-evidence j actor request now a h = ground arith

  module _ {N : Type 0} (f : Floats N) (encoding : Encoding N) (collate : String → String → Bool)
      (valid_scores : String → Bool) where
    pub create_redaction_plan-evidence :
        (document : RedactionDocument N) (s v actor : String) (ids : String × String)
        (request : String) (now : Time) (a : Plan N × RedactionJob)
        → create_redaction_plan f encoding collate document s v actor ids request now db
          ≡ ok (a, db')
        → evidence db' ≡ evidence db
    unfolding create_redaction_plan create_plan insert_plan
    create_redaction_plan-evidence document s v actor ids request now a h =
        elim (Option-cases (plan_by_request s request db)) [
          | inl e ↦ ground arith
          | inr ((p, j), e) ↦ elim (Result-cases (encoding.unmarshal p.document)) [
            | inl (d, k) ↦ ground arith
            | inr (x, k) ↦ ground arith
          ]
        ]

    settle_review-evidence :
        (r : Review N) (documents : Option (RedactionDocument N × RedactionDocument N))
        (session : Session) (ids : ReviewIds) (actor request_id : String) (now : Time)
        → settle_review f encoding collate valid_scores r documents session ids actor request_id now
            db
          ≡ ok (tt, db')
        → evidence db' ≡ evidence db
    unfolding settle_review insert_plan
    settle_review-evidence r none session ids actor request_id now h = ground arith
    settle_review-evidence r (some (d, c)) session ids actor request_id now h = ground arith

    pub submit_review-evidence :
        (r : Review N) (ids : ReviewIds) (actor request_id : String) (now : Time) (s : Session)
        → submit_review f encoding collate valid_scores r ids actor request_id now db ≡ ok (s, db')
        → evidence db' ≡ evidence db
    submit_review-evidence r ids actor request_id now s h =
        let a =
          submitted-ok f encoding collate valid_scores r ids actor request_id now db db' s h in
        settle_review-evidence r a.2 s ids actor request_id now a.5
