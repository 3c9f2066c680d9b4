-- ===== src/Worker/Turn/Reviewable.antt =====
-- What stands behind a session that a validation sends to review
-- (services/api/internal/worker/processor.go).
use data_trains.Base.{
  String, ◌≡◌, ◌≢◌, arith, true, false, none, [], ◌∷◌, ◌++◌, ◌+++◌, ◌⊎◌, inl, inr, if◌then◌else◌,
  Option-cases,
}
use data_trains.Domain.State.{ready_for_review, failed}
use data_trains.Domain.Errors.{Error, ok, no_job_available, Result-cases}
use data_trains.Domain.Model.{Time, ProcessingJob, ValidationResult}
use data_trains.Domain.Session.{Session}
use data_trains.Db.{Db}
use data_trains.Pipeline.Artifacts.{list_artifacts}
use data_trains.Pipeline.Lease.{claim_validation_job}
use data_trains.Pipeline.Outcome.{complete_validation_job, requeue_validation_job}
use data_trains.Pipeline.Outcome.Settled.{complete_validation_job-ok}
use data_trains.Worker.Validator.{Seconds, Files, normalized, problems, validate}
use data_trains.Worker.Validator.Accepted.{Accepted, validate-Accepted}
use data_trains.Worker.Purging.{Processor}
use data_trains.Worker.Turn.{
  claim_failed, Storage, Stored, ended, given_result, normalized_key, actions_key, actions_jsonl,
  retry_validation, complete_validation, write_actions, write_derived, validate_claimed,
  process_validation,
}

module _ {B N : Type 0} (files : Files B N) (s : Seconds N) (storage : Storage B) where
  abbrev Completion : String → Time → ProcessingJob → ValidationResult → Db → Db → Session → Type 0
  Completion worker_id done job result before after t =
      complete_validation_job job.id worker_id result storage.result_id done before ≡ ok (t, after)

  -- The bytes were accepted, and they and their actions were written.
  abbrev Acceptance : ProcessingJob → Db → Stored B → Stored B → Type 0
  Acceptance job db w w' =
      (bytes : B) × (actions : B) × Accepted files s job.session_id
        (list_artifacts storage.collate job.session_id db) bytes
      × (actions_jsonl files s storage bytes ≡ ok actions)
      × (w'.written
          ≡ (w.written ++ (normalized_key job.session_id, bytes) ∷ [])
            ++ (actions_key job.session_id, actions) ∷ [])

  -- The job was completed: its session waits for a review, or has failed and nothing was written.
  abbrev pub Settlement : String → Time → ProcessingJob → Stored B → Stored B → Type 0
  Settlement worker_id done job w w' =
      (result : ValidationResult) × (t : Session) × Completion worker_id done job result w.db w'.db
        t
      × (((t.state ≡ ready_for_review) × Acceptance job w.db w w')
          ⊎ ((t.state ≡ failed) × (w'.written ≡ w.written)))

  module _ (processor : Processor) (worker_id : String) (done : Time) where
    abbrev Ends : ProcessingJob → ValidationResult → Stored B → Stored B → Type 0
    Ends job result w w' =
        (t : Session) × (t.state ≡ (if result.valid then ready_for_review else failed))
        × (w'.written ≡ w.written)
        × Completion worker_id done job result w.db w'.db t

    complete_validation-ended :
        (job : ProcessingJob) (result : ValidationResult) (w w' : Stored B)
        → complete_validation files s storage processor worker_id done job result w
          ≡ ended true w' none
        → Ends job result w w'
    unfolding complete_validation
    complete_validation-ended job result w w' h =
        elim (Result-cases
          (complete_validation_job job.id worker_id result storage.result_id done w.db)) [
            | inl ((t, db), e) ↦
                let a =
                  complete_validation_job-ok job.id worker_id storage.result_id result done w.db db
                    t e in
                (t, a.7, ground arith, ground arith)
            | inr (x, e) ↦ absurd (ground arith)
          ]

    retry_validation-ended :
        (job : ProcessingJob) (w w' : Stored B) (cause : String)
        → retry_validation files s storage processor worker_id done job w cause ≢ ended true w' none
    unfolding retry_validation
    retry_validation-ended job w w' cause h =
        elim (Result-cases
          (requeue_validation_job job.id worker_id cause processor.max_attempts done w.db)) [
            | inl (a, e) ↦ ground arith
            | inr (x, e) ↦ ground arith
          ]

    write_actions-ended :
        (job : ProcessingJob) (bytes : B) (w w' : Stored B)
        → write_actions files s storage processor worker_id done job bytes w ≡ ended true w' none
        → (actions : B) × (actions_jsonl files s storage bytes ≡ ok actions)
          × (w'.written ≡ w.written ++ (actions_key job.session_id, actions) ∷ [])
          × (t : Session) × (t.state ≡ ready_for_review)
          × Completion worker_id done job
              (given_result true [] (normalized_key job.session_id))
              w.db
              w'.db
              t
    unfolding write_actions
    write_actions-ended job bytes w w' h =
        elim (Result-cases (actions_jsonl files s storage bytes)) [
          | inr (x, e) ↦ absurd (
              retry_validation-ended job w w' ("encode normalized actions: " +++ files.error_text x)
                (ground arith))
          | inl (actions, e) ↦
              elim (Option-cases (storage.put_error (actions_key job.session_id) actions)) [
                | inr (x, f) ↦ absurd (
                    retry_validation-ended job w w'
                      ("write normalized actions: " +++ files.error_text x) (ground arith))
                | inl f ↦
                    let a =
                      complete_validation-ended job
                        (given_result true [] (normalized_key job.session_id))
                        (record w {
                          written = w.written ++ (actions_key job.session_id, actions) ∷ [];
                        })
                        w' (ground arith) in
                    (actions, e, a.2, a.0, a.1, a.3)
              ]
        ]

    write_derived-ended :
        (job : ProcessingJob) (bytes : B) (w w' : Stored B)
        → Accepted files s job.session_id (list_artifacts storage.collate job.session_id w.db) bytes
        → write_derived files s storage processor worker_id done job bytes w ≡ ended true w' none
        → Settlement worker_id done job w w'
    unfolding write_derived
    write_derived-ended job bytes w w' accepted h =
        elim (Option-cases (storage.put_error (normalized_key job.session_id) bytes)) [
          | inr (x, f) ↦ absurd (
              retry_validation-ended job w w'
                ("write normalized trajectory: " +++ files.error_text x) (ground arith))
          | inl f ↦
              let a =
                write_actions-ended job bytes
                  (record w { written = w.written ++ (normalized_key job.session_id, bytes) ∷ [] })
                  w' (ground arith) in
              (_, a.3, a.5, inl (a.4, (bytes, a.0, accepted, a.1, a.2)))
        ]

    validate_claimed-ended :
        (job : ProcessingJob) (w w' : Stored B)
        → validate_claimed files s storage processor worker_id done job w ≡ ended true w' none
        → Settlement worker_id done job w w'
    unfolding validate_claimed
    validate_claimed-ended job w w' h =
        let artifacts = list_artifacts storage.collate job.session_id w.db in
        elim (Result-cases (validate files s job.session_id artifacts)) [
          | inr (x, e) ↦
              absurd (retry_validation-ended job w w' (files.error_text x) (ground arith))
          | inl (normalized bytes, e) ↦
              write_derived-ended job bytes w w'
                (validate-Accepted files s job.session_id artifacts bytes e) (ground arith)
          | inl (problems texts, e) ↦
              let a =
                complete_validation-ended job (given_result false texts "") w w' (ground arith) in
              (_, a.0, a.3, inr (a.1, a.2))
        ]

  claim_failed-ended :
      (w w' : Stored B) (e : Error) → claim_failed files s storage w e ≢ ended true w' none
  claim_failed-ended w w' no_job_available h = ground arith
  claim_failed-ended w w' e h = ground arith

  -- If a turn of the worker handles a validation job and reports no failure, then it had claimed the
  -- job and completed it. Either the session waits for a review: then `Validate` accepted the
  -- artifacts that the database lists for it, and the accepted bytes and the lines of their actions
  -- are the objects written, in this order. Or the session has failed, and no object was written.
  pub process_validation-Settlement :
      (processor : Processor) (worker_id : String) (now done : Time) (w w' : Stored B)
      → process_validation files s storage processor worker_id now done w ≡ ended true w' none
      → (job : ProcessingJob) × (db : Db) × (claim_validation_job storage.collate worker_id
            processor.lease now w.db
          ≡ ok (job, db))
        × Settlement worker_id done job (record w { db = db }) w'
  unfolding process_validation
  process_validation-Settlement processor worker_id now done w w' h =
      elim (Result-cases
        (claim_validation_job storage.collate worker_id processor.lease now w.db)) [
          | inl ((job, db), e) ↦ (
            job,
            db,
            e,
            validate_claimed-ended processor worker_id done job (record w { db = db }) w'
                (ground arith),
          )
          | inr (x, e) ↦ absurd (claim_failed-ended w w' x (ground arith))
        ]
