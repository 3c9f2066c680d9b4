-- ===== src/Examples/Validation.antt =====
-- The theorems on validation jobs at concrete queues.
use data_trains.Base.{
  String, ℕ, List, All, ◌+◌, ◌*◌, none, some, [], ◌∷◌, ◌≡◌, ◌≢◌, refl, arith, true, ◌==◌, ◌&&◌, leb,
}
use data_trains.Domain.State.{SessionState-discrete, submitted, processing, allowed_transition}
use data_trains.Domain.Errors.{ok}
use data_trains.Domain.Model.{
  completed, Time, ProcessingJob, ValidationResult, is_queued, is_leased,
}
use data_trains.Domain.Session.{Session}
use data_trains.Table.{find, first_by, exists, update_where}
use data_trains.Db.{Db, after}
use data_trains.Pipeline.Jobs.{new_job}
use data_trains.Pipeline.Backoff.{backoff, backoff_lem, second}
use data_trains.Pipeline.Lease.{claim_validation_job, claimable, lease_job}
use data_trains.Pipeline.Outcome.{complete_validation_job, requeue_validation_job, find_job}
use data_trains.Pipeline.Outcome.Settled.{requeue_validation_job-backoff}
use data_trains.Pipeline.Queue.{JobCall, claim, requeue, retry, run_jobs, run_job}
use data_trains.Pipeline.Queue.Leased.{lease_exclusive, leaves}
use data_trains.Pipeline.Queue.Completed.{complete_validation_job-final, draws_other}
use data_trains.Examples.Data.{db_at, session_row, collate}

-- Two submitted sessions, each with its job.
abbrev two_jobs : Db
two_jobs = record (db_at submitted) {
  sessions = session_row submitted ∷ record (session_row submitted) { id = "s2" } ∷ [];
  jobs = new_job "j1" "s1" 2 ∷ new_job "j2" "s2" 3 ∷ [];
}

abbrev leased_db : Db
leased_db = after (claim_validation_job collate "w1" 100 10) two_jobs

abbrev held_job : ProcessingJob
held_job = lease_job 1 "w1" 110 10 (new_job "j1" "s1" 2)

-- The worker w1 has leased the job j1 of the session s1.
abbrev held_db : Db
held_db = record (db_at processing) { jobs = held_job ∷ [] }

abbrev verdict : ValidationResult
verdict = record {
  id = "";
  job_id = "";
  session_id = "";
  valid = true;
  errors = [];
  normalized_key = "derived/sessions/s1/trajectory.json";
  schema_version = "v1";
  validator_version = "v1";
  created_at = 0;
  purged_at = none;
}

abbrev settled_db : Db
settled_db = after (complete_validation_job "j1" "w1" verdict "r1" 20) held_db

-- A third session waits too; between the two claims the second job is leased, and its
-- worker tries to give up the first.
abbrev three_jobs : Db
three_jobs = record two_jobs {
  sessions =
      session_row submitted
      ∷ record (session_row submitted) { id = "s2" }
      ∷ record (session_row submitted) { id = "s3" }
      ∷ [];
  jobs = new_job "j1" "s1" 2 ∷ new_job "j2" "s2" 3 ∷ new_job "j3" "s3" 4 ∷ [];
}

abbrev first_db : Db
first_db = after (claim_validation_job collate "w1" 100 10) three_jobs

abbrev between : List JobCall
between = claim "w2" 100 20 ∷ requeue "j1" "w2" "crash" 3 30 ∷ []

lease_exclusive_example : (new_job "j3" "s3" 4).id ≢ held_job.id
unfolding claim_validation_job find first_by exists after update_where SessionState-discrete
    allowed_transition claimable is_queued is_leased leaves run_jobs run_job requeue_validation_job
lease_exclusive_example =
    lease_exclusive collate "w1" "w3" 100 100 10 50 three_jobs first_db _ _ _ between refl
      (refl, (refl, tt)) (omega arith) refl

abbrev later_calls : List JobCall
later_calls = retry "j1" "admin" "r2" 30 ∷ requeue "j1" "w1" "late" 3 40 ∷ []

complete_validation_job-final_example :
    (j : ProcessingJob) × (find_job "j1" settled_db ≡ some j)
    × (j.state ≡ completed)
    × All
        (λ k. k.id == "j1" ≡ true → k.state ≡ completed)
        (run_jobs collate later_calls settled_db).jobs
    × ((other : String) (duration : ℕ) (later : Time) (k : ProcessingJob) (db'' : Db)
        → claim_validation_job collate other duration later
            (run_jobs collate later_calls settled_db)
          ≡ ok (k, db'')
        → k.id ≢ "j1")
    × ((other new_id : String) (again : ValidationResult) (later : Time) (t : Session) (db'' : Db)
        → complete_validation_job "j1" other again new_id later
            (run_jobs collate later_calls settled_db)
          ≢ ok (t, db''))
    × ((other error : String) (max_attempts : ℕ) (later : Time) (db'' : Db)
        → requeue_validation_job "j1" other error max_attempts later
            (run_jobs collate later_calls settled_db)
          ≢ ok (tt, db''))
unfolding complete_validation_job find exists after update_where SessionState-discrete
    allowed_transition is_leased draws_other
complete_validation_job-final_example =
    complete_validation_job-final collate "j1" "w1" "r1" verdict 20 held_db settled_db _ later_calls
      refl (refl, (refl, tt))

requeue_validation_job-backoff_example :
    (k : ProcessingJob) × (find_job "j1"
        (after (requeue_validation_job "j1" "w1" "crash" 3 20) held_db)
      ≡ some k)
    × (k.attempt ≡ 1)
    × ((t : Time)
        → claimable t k ≡ ("validate_trajectory" == "validate_trajectory" && leb (backoff 20 1) t))
unfolding requeue_validation_job find after update_where is_leased
requeue_validation_job-backoff_example =
    requeue_validation_job-backoff "j1" "w1" "crash" 3 20 held_db _ held_job refl refl (omega arith)

backoff_lem_example : backoff 20 3 ≡ 20 + 3 * 3 * second
backoff_lem_example = backoff_lem 20 3 (omega arith)
