-- ===== src/Worker/Turn.antt =====
-- How the worker validates a session (services/api/internal/worker/processor.go).
pub mod Reviewable
use data_trains.Base.{ℕ, String, Bool, true, false, Option, none, some, List, [], ◌∷◌, ◌++◌, ◌+++◌}
use data_trains.Domain.Errors.{Error, Result, ok, err, no_job_available}
use data_trains.Domain.Model.{Time, Artifact, ProcessingJob, ValidationResult}
use data_trains.Db.{Db}
use data_trains.Pipeline.Artifacts.{list_artifacts}
use data_trains.Pipeline.Lease.{claim_validation_job}
use data_trains.Pipeline.Outcome.{complete_validation_job, requeue_validation_job}
use data_trains.Worker.Validator.{Seconds, Files, Verdict, normalized, problems, validate}
use data_trains.Worker.Purging.{Processor}

-- What a validation turn uses and does not implement, on bytes `B`: the blob store's `Put`, which may
-- fail, the decoding of the actions of a trajectory as pieces of its text, the joining of texts, the
-- order of the database's texts and the identifier of the result.
pub record Storage (B : Type 0) : Type 0 where
  pub put_error : String → B → Option Error
  pub raw_actions : B → Result (List B)
  pub no_bytes : B
  pub newline : B
  pub join : B → B → B
  pub collate : String → String → Bool
  pub result_id : String

-- The database, and the objects that were put into the store, in order.
pub record Stored (B : Type 0) : Type 0 where
  pub db : Db
  pub written : List (String × B)

-- `no_job` is `ErrNoJobAvailable`, after which the other queues are tried; otherwise the turn has
-- ended with this error or without one.
pub data Turn (B : Type 0) : Type 0 where
  no_job : Turn B
  ended : Bool → Stored B → Option String → Turn B

abbrev pub validator_version : String
validator_version = "trajectory-validator/0.2.0"

abbrev pub normalized_key : String → String
normalized_key session_id = "derived/sessions/" +++ session_id +++ "/trajectory.json"

abbrev pub actions_key : String → String
actions_key session_id = "derived/sessions/" +++ session_id +++ "/actions.jsonl"

-- The result that the worker hands in; the store fills in the other columns.
abbrev pub given_result : Bool → List String → String → ValidationResult
given_result valid errors key = record {
  id = "";
  job_id = "";
  session_id = "";
  valid = valid;
  errors = errors;
  normalized_key = key;
  schema_version = "trajectory/v1";
  validator_version = validator_version;
  created_at = 0;
  purged_at = none;
}

module _ {B N : Type 0} (files : Files B N) (s : Seconds N) (storage : Storage B) where
  -- Each action with a line break.
  unfoldable pub lines : List B → B
  lines [] = storage.no_bytes
  lines (a ∷ rest) = storage.join a (storage.join storage.newline (lines rest))

  unfoldable pub actions_jsonl : B → Result B
  unfolding lines
  actions_jsonl trajectory = elim (storage.raw_actions trajectory) [
    | ok found ↦ ok (lines found)
    | err e ↦ err e
  ]

  module _ (processor : Processor) (worker_id : String) (done : Time) where
    unfoldable pub retry_validation : ProcessingJob → Stored B → String → Turn B
    retry_validation job w cause =
        elim (requeue_validation_job job.id worker_id cause processor.max_attempts done w.db) [
          | ok (_, db) ↦ ended true (record w { db = db }) (some cause)
          | err e ↦
              ended true w (some (cause +++ "; requeue validation job: " +++ files.error_text e))
        ]

    unfoldable pub complete_validation : ProcessingJob → ValidationResult → Stored B → Turn B
    complete_validation job result w =
        elim (complete_validation_job job.id worker_id result storage.result_id done w.db) [
          | ok (_, db) ↦ ended true (record w { db = db }) none
          | err e ↦ ended true w (some ("complete validation job: " +++ files.error_text e))
        ]

    -- The actions of the normalized trajectory, once that is written.
    unfoldable pub write_actions : ProcessingJob → B → Stored B → Turn B
    unfolding actions_jsonl retry_validation complete_validation
    write_actions job bytes w = elim (actions_jsonl bytes) [
      | err e ↦ retry_validation job w ("encode normalized actions: " +++ files.error_text e)
      | ok actions ↦ elim (storage.put_error (actions_key job.session_id) actions) [
        | some e ↦ retry_validation job w ("write normalized actions: " +++ files.error_text e)
        | none ↦
            complete_validation job (given_result true [] (normalized_key job.session_id))
              (record w { written = w.written ++ (actions_key job.session_id, actions) ∷ [] })
      ]
    ]

    unfoldable pub write_derived : ProcessingJob → B → Stored B → Turn B
    unfolding write_actions retry_validation
    write_derived job bytes w = elim (storage.put_error (normalized_key job.session_id) bytes) [
      | some e ↦ retry_validation job w ("write normalized trajectory: " +++ files.error_text e)
      | none ↦
          write_actions job bytes
            (record w { written = w.written ++ (normalized_key job.session_id, bytes) ∷ [] })
    ]

    -- A claimed job. The list of problems that `validate` gives is never empty.
    unfoldable pub validate_claimed : ProcessingJob → Stored B → Turn B
    unfolding write_derived retry_validation complete_validation
    validate_claimed job w =
        elim (validate files s job.session_id
          (list_artifacts storage.collate job.session_id w.db)) [
            | err e ↦ retry_validation job w (files.error_text e)
            | ok (normalized bytes) ↦ write_derived job bytes w
            | ok (problems texts) ↦ complete_validation job (given_result false texts "") w
          ]

  abbrev pub claim_failed : Stored B → Error → Turn B
  claim_failed w no_job_available = no_job
  claim_failed w e = ended false w (some ("claim validation job: " +++ files.error_text e))

  -- `ProcessNext` as far as the queue of validations; `now` is the time of the claim and `done` that
  -- of the outcome.
  unfoldable pub process_validation : Processor → String → Time → Time → Stored B → Turn B
  unfolding validate_claimed
  process_validation processor worker_id now done w =
      elim (claim_validation_job storage.collate worker_id processor.lease now w.db) [
        | ok (job, db) ↦ validate_claimed processor worker_id done job (record w { db = db })
        | err e ↦ claim_failed w e
      ]
