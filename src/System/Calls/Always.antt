-- ===== src/System/Calls/Always.antt =====
-- What holds after every history of calls.
use data_trains.Store.Catalog.{assign_task}
use data_trains.Store.Sessions.{accept_consent, transition_session}
use data_trains.Pipeline.Artifacts.{register_artifact}
use data_trains.Pipeline.Artifacts.Registered.{register_artifact-ok}
use data_trains.Pipeline.Jobs.{submit_session}
use data_trains.Pipeline.Lease.{claim_validation_job}
use data_trains.Pipeline.Outcome.{
  complete_validation_job, requeue_validation_job, retry_dead_letter_job,
}
use data_trains.Review.Claims.{claim_review, release_review}
use data_trains.Review.Submission.{submit_review}
use data_trains.Redaction.Jobs.{
  claim_redaction_job, complete_redaction_job, requeue_redaction_job,
  retry_dead_letter_redaction_job,
}
use data_trains.Erasure.Holds.{place_legal_hold, release_legal_hold}
use data_trains.Erasure.Requests.{request_session_deletion}
use data_trains.Erasure.Worker.{
  claim_deletion_request, complete_deletion_request, requeue_deletion_request,
  retry_dead_letter_deletion_request,
}
use data_trains.Retention.Policy.{upsert_retention_policy}
use data_trains.Retention.Sweep.{queue_expired_retention}
use data_trains.Retention.Worker.{
  claim_retention_purge, complete_retention_purge, requeue_retention_purge,
  retry_dead_letter_retention_purge,
}
use data_trains.System.Calls.Retained.{
  upsert_retention_policy-IsRetained, queue_expired_retention-IsRetained,
  claim_retention_purge-IsRetained, requeue_retention_purge-IsRetained,
  retry_dead_letter_retention_purge-IsRetained,
}
use data_trains.Retention.Worker.Completed.{complete_retention_purge-ok}
use data_trains.Base.{String, Bool, List, [], ◌∷◌, ◌≡◌, subst, sym, inl, inr}
use data_trains.Domain.Errors.{ok, Result-cases}
use data_trains.Db.{Db, Tx, after}
use data_trains.Redaction.Document.{Floats}
use data_trains.Redaction.Plans.{Encoding, create_redaction_plan}
use data_trains.Erasure.Holds.Placed.{place_legal_hold-ok, release_legal_hold-ok}
use data_trains.Erasure.Requests.Keys.{request_session_deletion-ok}
use data_trains.Erasure.Worker.Leases.{claim_deletion_request-ok}
use data_trains.System.Consented.{IsConsented}
use data_trains.System.Calls.{
  Call, run, run_all, assign, accept, move, register, submit, claim_job, complete_job, requeue_job,
  retry_job, claim_session, release_session, review, place_hold, release_hold, request_deletion,
  claim_deletion, complete_deletion, requeue_deletion, retry_deletion, plan_redaction,
  claim_redaction, complete_redaction, requeue_redaction, retry_redaction, set_policy, sweep,
  claim_purge, complete_purge, requeue_purge, retry_purge,
}
use data_trains.System.Calls.Kept.{
  assign_task-IsConsented, accept_consent-IsConsented, transition_session-IsConsented,
  submit_session-IsConsented, complete_deletion_request-IsConsented,
}
use data_trains.System.Calls.Worked.{
  claim_validation_job-IsConsented, complete_validation_job-IsConsented,
  requeue_validation_job-IsConsented, retry_dead_letter_job-IsConsented,
}
use data_trains.System.Calls.Reviewed.{submit_review-IsConsented}
use data_trains.System.Calls.Untouched.{
  claim_review-sessions, release_review-sessions, claim_redaction_job-sessions,
  complete_redaction_job-sessions, requeue_redaction_job-sessions,
  retry_dead_letter_redaction_job-sessions, requeue_deletion_request-sessions,
  retry_dead_letter_deletion_request-sessions, create_redaction_plan-sessions,
}

after-IsConsented :
    {A : Type 0} (m : Tx A) (db : Db)
    → ((a : A) (db' : Db) → m db ≡ ok (a, db') → IsConsented db'.sessions)
    → IsConsented db.sessions
    → IsConsented (after m db).sessions
unfolding after
after-IsConsented m db k c = elim (Result-cases (m db)) [
  | inl ((a, db'), e) ↦ rw (after, e) (k a db' e)
  | inr (x, e) ↦ rw (after, e) c
]

-- An operation that does not write to the table.
untouched-IsConsented :
    {A : Type 0} (m : Tx A) (db : Db)
    → ((a : A) (db' : Db) → m db ≡ ok (a, db') → db'.sessions ≡ db.sessions)
    → IsConsented db.sessions
    → IsConsented (after m db).sessions
untouched-IsConsented m db k c =
    after-IsConsented m db (λ a db' h. subst IsConsented (sym (k a db' h)) c) c

module _ {N : Type 0} (f : Floats N) (encoding : Encoding N) (collate : String → String → Bool)
    (valid_scores : String → Bool) where
  run-IsConsented :
      (call : Call N) (db : Db)
      → IsConsented db.sessions
      → IsConsented (run f encoding collate valid_scores call db).sessions
  unfolding run
  run-IsConsented (assign t k a s actor request now) db c =
      after-IsConsented (assign_task t k a s actor request now) db
        (λ b db' h. assign_task-IsConsented db db' c t k a s actor request now b h) c
  run-IsConsented (accept s k d v new actor request now) db c =
      after-IsConsented (accept_consent s k d v new actor request now) db
        (λ b db' h. accept_consent-IsConsented db db' c s k d v new actor request now b h) c
  run-IsConsented (move s to actor request now) db c =
      after-IsConsented (transition_session s to actor request now) db
        (λ b db' h. transition_session-IsConsented db db' c s to actor request now b h) c
  run-IsConsented (register a new actor request now) db c =
      untouched-IsConsented (register_artifact a new actor request now) db
        (λ b db' h. (register_artifact-ok a new actor request now db db' b h).0) c
  run-IsConsented (submit s j actor request now) db c =
      after-IsConsented (submit_session s j actor request now) db
        (λ b db' h. submit_session-IsConsented db db' c s j actor request now b.0 b.1 h) c
  run-IsConsented (claim_job w duration now) db c =
      after-IsConsented (claim_validation_job collate w duration now) db
        (λ b db' h. claim_validation_job-IsConsented db db' c collate w duration now b h) c
  run-IsConsented (complete_job j w given new now) db c =
      after-IsConsented (complete_validation_job j w given new now) db
        (λ b db' h. complete_validation_job-IsConsented db db' c j w given new now b h) c
  run-IsConsented (requeue_job j w error max now) db c =
      after-IsConsented (requeue_validation_job j w error max now) db
        (λ b db' h. requeue_validation_job-IsConsented db db' c j w error max now h) c
  run-IsConsented (retry_job j actor request now) db c =
      after-IsConsented (retry_dead_letter_job j actor request now) db
        (λ b db' h. retry_dead_letter_job-IsConsented db db' c j actor request now b h) c
  run-IsConsented (claim_session s v actor request lease now) db c =
      untouched-IsConsented (claim_review s v actor request lease now) db
        (λ b db' h. claim_review-sessions db db' s v actor request lease now b h) c
  run-IsConsented (release_session s v actor request now) db c =
      untouched-IsConsented (release_review s v actor request now) db
        (λ b db' h. release_review-sessions db db' s v actor request now b h) c
  run-IsConsented (review given ids actor request now) db c =
      after-IsConsented (submit_review f encoding collate valid_scores given ids actor request now)
        db
        (λ b db' h.
          submit_review-IsConsented f encoding collate valid_scores given ids actor request now db
            db' b c h)
        c
  run-IsConsented (place_hold s reason new actor request now) db c =
      untouched-IsConsented (place_legal_hold s reason new actor request now) db
        (λ b db' h. (place_legal_hold-ok s reason new actor request now db db' b h).9) c
  run-IsConsented (release_hold s k actor request now) db c =
      untouched-IsConsented (release_legal_hold s k actor request now) db
        (λ b db' h. (release_legal_hold-ok s k actor request now db db' h).4) c
  run-IsConsented (request_deletion s reason new actor request now) db c =
      untouched-IsConsented (request_session_deletion collate s reason new actor request now) db
        (λ b db' h.
          (request_session_deletion-ok collate s reason new actor request now db db' b h).8)
        c
  run-IsConsented (claim_deletion w duration now) db c =
      untouched-IsConsented (claim_deletion_request collate w duration now) db
        (λ b db' h. (claim_deletion_request-ok collate w duration now db db' b h).5) c
  run-IsConsented (complete_deletion d w now) db c =
      after-IsConsented (complete_deletion_request d w now) db
        (λ b db' h. complete_deletion_request-IsConsented db db' c d w now h) c
  run-IsConsented (requeue_deletion d w error max now) db c =
      untouched-IsConsented (requeue_deletion_request d w error max now) db
        (λ b db' h. requeue_deletion_request-sessions db db' d w error max now b h) c
  run-IsConsented (retry_deletion d actor request now) db c =
      untouched-IsConsented (retry_dead_letter_deletion_request d actor request now) db
        (λ b db' h. retry_dead_letter_deletion_request-sessions db db' d actor request now b h) c
  run-IsConsented (plan_redaction document s v actor ids request now) db c =
      untouched-IsConsented
        (create_redaction_plan f encoding collate document s v actor ids request now) db
        (λ b db' h.
          create_redaction_plan-sessions db db' f encoding collate document s v actor ids request
            now b h)
        c
  run-IsConsented (claim_redaction w duration now) db c =
      untouched-IsConsented (claim_redaction_job collate w duration now) db
        (λ b db' h. claim_redaction_job-sessions db db' collate w duration now b h) c
  run-IsConsented (complete_redaction j w key now) db c =
      untouched-IsConsented (complete_redaction_job j w key now) db
        (λ b db' h. complete_redaction_job-sessions db db' j w key now b h) c
  run-IsConsented (requeue_redaction j w error max now) db c =
      untouched-IsConsented (requeue_redaction_job j w error max now) db
        (λ b db' h. requeue_redaction_job-sessions db db' j w error max now b h) c
  run-IsConsented (retry_redaction j actor request now) db c =
      untouched-IsConsented (retry_dead_letter_redaction_job j actor request now) db
        (λ b db' h. retry_dead_letter_redaction_job-sessions db db' j actor request now b h) c
  run-IsConsented (set_policy given actor request now) db c =
      untouched-IsConsented (upsert_retention_policy given actor request now) db
        (λ b db' h. (upsert_retention_policy-IsRetained db db' given actor request now b h).0) c
  run-IsConsented (sweep new_id actor now limit) db c =
      untouched-IsConsented (queue_expired_retention collate new_id actor now limit) db
        (λ b db' h.
          (queue_expired_retention-IsRetained db db' collate new_id actor now limit b h).0)
        c
  run-IsConsented (claim_purge w duration now) db c =
      untouched-IsConsented (claim_retention_purge collate w duration now) db
        (λ b db' h. (claim_retention_purge-IsRetained db db' collate w duration now b h).0) c
  run-IsConsented (complete_purge q w now) db c =
      untouched-IsConsented (complete_retention_purge q w now) db
        (λ b db' h. (complete_retention_purge-ok q w now db db' h).7) c
  run-IsConsented (requeue_purge q w error max now) db c =
      untouched-IsConsented (requeue_retention_purge q w error max now) db
        (λ b db' h. (requeue_retention_purge-IsRetained db db' q w error max now b h).0) c
  run-IsConsented (retry_purge q actor request now) db c =
      untouched-IsConsented (retry_dead_letter_retention_purge q actor request now) db
        (λ b db' h. (retry_dead_letter_retention_purge-IsRetained db db' q actor request now b h).0)
        c

  -- After any calls of the listed operations, failed ones included, on a database whose session
  -- identifiers are distinct and whose sessions have the consent that their states need, the
  -- identifiers are distinct, and a session that is anything but created, assigned, cancelled or
  -- deleted names a consent acceptance.
  pub run_all-IsConsented :
      (calls : List (Call N)) (db : Db)
      → IsConsented db.sessions
      → IsConsented (run_all f encoding collate valid_scores calls db).sessions
  unfolding run_all
  run_all-IsConsented [] db c = c
  run_all-IsConsented (call ∷ calls) db c =
      run_all-IsConsented calls (run f encoding collate valid_scores call db)
        (run-IsConsented call db c)
