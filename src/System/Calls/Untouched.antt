-- ===== src/System/Calls/Untouched.antt =====
-- The operations that leave the table of sessions as it is.
use data_trains.Base.{ℕ, String, Bool, ◌≡◌, arith, Option-cases, inl, inr}
use data_trains.Domain.Errors.{Result-cases, ok}
use data_trains.Domain.Model.{Time, ReviewClaim, RedactionJob, DeletionRequest}
use data_trains.Db.{Db}
use data_trains.Review.Claims.{claim_review, release_review}
use data_trains.Redaction.Document.{Floats, RedactionDocument}
use data_trains.Redaction.Plans.{
  Encoding, create_redaction_plan, create_plan, insert_plan, plan_by_request, Plan,
}
use data_trains.Redaction.Jobs.{
  claim_redaction_job, complete_redaction_job, requeue_redaction_job,
  retry_dead_letter_redaction_job,
}
use data_trains.Erasure.Worker.{requeue_deletion_request, retry_dead_letter_deletion_request}

module _ (db db' : Db) where
  pub claim_review-sessions :
      (s v actor request : String) (lease : ℕ) (now : Time) (a : ReviewClaim)
      → claim_review s v actor request lease now db ≡ ok (a, db')
      → db'.sessions ≡ db.sessions
  unfolding claim_review
  claim_review-sessions s v actor request lease now a h = ground arith

  pub release_review-sessions :
      (s v actor request : String) (now : Time) (a : Unit {0})
      → release_review s v actor request now db ≡ ok (a, db')
      → db'.sessions ≡ db.sessions
  unfolding release_review
  release_review-sessions s v actor request now a h = ground arith

  pub claim_redaction_job-sessions :
      (collate : String → String → Bool) (w : String) (duration : ℕ) (now : Time) (a : RedactionJob)
      → claim_redaction_job collate w duration now db ≡ ok (a, db')
      → db'.sessions ≡ db.sessions
  unfolding claim_redaction_job
  claim_redaction_job-sessions collate w duration now a h = ground arith

  pub complete_redaction_job-sessions :
      (j w key : String) (now : Time) (a : Unit {0})
      → complete_redaction_job j w key now db ≡ ok (a, db')
      → db'.sessions ≡ db.sessions
  unfolding complete_redaction_job
  complete_redaction_job-sessions j w key now a h = ground arith

  pub requeue_redaction_job-sessions :
      (j w error : String) (max : ℕ) (now : Time) (a : Unit {0})
      → requeue_redaction_job j w error max now db ≡ ok (a, db')
      → db'.sessions ≡ db.sessions
  unfolding requeue_redaction_job
  requeue_redaction_job-sessions j w error max now a h = ground arith

  pub retry_dead_letter_redaction_job-sessions :
      (j actor request : String) (now : Time) (a : RedactionJob)
      → retry_dead_letter_redaction_job j actor request now db ≡ ok (a, db')
      → db'.sessions ≡ db.sessions
  unfolding retry_dead_letter_redaction_job
  retry_dead_letter_redaction_job-sessions j actor request now a h = ground arith

  pub requeue_deletion_request-sessions :
      (d w error : String) (max : ℕ) (now : Time) (a : Unit {0})
      → requeue_deletion_request d w error max now db ≡ ok (a, db')
      → db'.sessions ≡ db.sessions
  unfolding requeue_deletion_request
  requeue_deletion_request-sessions d w error max now a h = ground arith

  pub retry_dead_letter_deletion_request-sessions :
      (d actor request : String) (now : Time) (a : DeletionRequest)
      → retry_dead_letter_deletion_request d actor request now db ≡ ok (a, db')
      → db'.sessions ≡ db.sessions
  unfolding retry_dead_letter_deletion_request
  retry_dead_letter_deletion_request-sessions d actor request now a h = ground arith

  pub create_redaction_plan-sessions :
      {N : Type 0} (f : Floats N) (encoding : Encoding N) (collate : String → String → Bool)
      (document : RedactionDocument N) (s v actor : String) (ids : String × String)
      (request : String) (now : Time) (a : Plan N × RedactionJob)
      → create_redaction_plan f encoding collate document s v actor ids request now db ≡ ok (a, db')
      → db'.sessions ≡ db.sessions
  unfolding create_redaction_plan create_plan insert_plan
  create_redaction_plan-sessions f encoding collate document s v actor ids request now a h =
      elim (Option-cases (plan_by_request s request db)) [
        | inl e ↦ ground arith
        | inr ((p, j), e) ↦ elim (Result-cases (encoding.unmarshal p.document)) [
          | inl (d, k) ↦ ground arith
          | inr (x, k) ↦ ground arith
        ]
      ]
