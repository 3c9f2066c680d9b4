-- ===== src/System/Calls/Held.antt =====
-- While a session is under a legal hold, its artifacts stay, whatever is called.
use data_trains.Store.Catalog.{assign_task}
use data_trains.Store.Sessions.{accept_consent, transition_session}
use data_trains.Pipeline.Artifacts.{register_artifact}
use data_trains.Pipeline.Jobs.{submit_session}
use data_trains.Pipeline.Lease.{claim_validation_job}
use data_trains.Pipeline.Outcome.{
  complete_validation_job, requeue_validation_job, retry_dead_letter_job,
}
use data_trains.Review.Claims.{claim_review, release_review}
use data_trains.Review.Submission.{submit_review}
use data_trains.Redaction.Jobs.{
  claim_redaction_job, complete_redaction_job, requeue_redaction_job,
  retry_dead_letter_redaction_job,
}
use data_trains.Erasure.Holds.{place_legal_hold, release_legal_hold}
use data_trains.Erasure.Requests.{request_session_deletion}
use data_trains.Erasure.Worker.{
  claim_deletion_request, complete_deletion_request, requeue_deletion_request,
  retry_dead_letter_deletion_request,
}
use data_trains.Retention.Policy.{upsert_retention_policy}
use data_trains.Retention.Sweep.{queue_expired_retention}
use data_trains.Retention.Worker.{
  claim_retention_purge, complete_retention_purge, requeue_retention_purge,
  retry_dead_letter_retention_purge,
}
use data_trains.System.Calls.Retained.{
  upsert_retention_policy-IsRetained, queue_expired_retention-IsRetained,
  claim_retention_purge-IsRetained, requeue_retention_purge-IsRetained,
  retry_dead_letter_retention_purge-IsRetained, complete_retention_purge-IsGuarded,
}
use data_trains.Base.{String, Bool, true, not, ◌==◌, List, [], ◌∷◌, ◌≡◌, refl, arith, All, ◌∙◌}
use data_trains.Db.{Db}
use data_trains.Redaction.Document.{Floats}
use data_trains.Redaction.Plans.{Encoding, create_redaction_plan}
use data_trains.System.Calls.{
  Call, run, run_all, assign, accept, move, register, submit, claim_job, complete_job, requeue_job,
  retry_job, claim_session, release_session, review, place_hold, release_hold, request_deletion,
  claim_deletion, complete_deletion, requeue_deletion, retry_deletion, plan_redaction,
  claim_redaction, complete_redaction, requeue_redaction, retry_redaction, set_policy, sweep,
  claim_purge, complete_purge, requeue_purge, retry_purge,
}
use data_trains.Erasure.Holds.{is_held}
use data_trains.System.Calls.Spared.{
  assign_task-evidence, accept_consent-evidence, transition_session-evidence,
  submit_session-evidence, claim_validation_job-evidence, complete_validation_job-evidence,
  requeue_validation_job-evidence, retry_dead_letter_job-evidence, claim_review-evidence,
  release_review-evidence, request_session_deletion-evidence, claim_deletion_request-evidence,
  requeue_deletion_request-evidence, retry_dead_letter_deletion_request-evidence,
  claim_redaction_job-evidence, complete_redaction_job-evidence, requeue_redaction_job-evidence,
  retry_dead_letter_redaction_job-evidence, create_redaction_plan-evidence, submit_review-evidence,
}
use data_trains.System.Calls.Guarded.{
  IsGuarded, after-IsGuarded, evidence-IsGuarded, place_legal_hold-IsGuarded,
  register_artifact-IsGuarded, release_legal_hold-IsGuarded, complete_deletion_request-IsGuarded,
}

-- The call neither releases a hold of the session nor registers an artifact for it.
unfoldable pub spares : {N : Type 0} → String → Call N → Bool
spares s (release_hold t h actor request now) = not (t == s)
spares s (register a new actor request now) = not (a.session_id == s)
spares s _ = true

module _ {N : Type 0} (f : Floats N) (encoding : Encoding N) (collate : String → String → Bool)
    (valid_scores : String → Bool) where
  run-IsGuarded :
      (s0 : String) (call : Call N) (db : Db)
      → spares s0 call ≡ true
      → is_held s0 db ≡ true
      → IsGuarded s0 db (run f encoding collate valid_scores call db)
  unfolding run spares
  run-IsGuarded s0 (assign t k a s actor request now) db n c =
      after-IsGuarded s0 (assign_task t k a s actor request now) db
        (λ b db' h.
          evidence-IsGuarded s0 db db' (assign_task-evidence db db' t k a s actor request now b h)
            c)
        c
  run-IsGuarded s0 (accept s k d v new actor request now) db n c =
      after-IsGuarded s0 (accept_consent s k d v new actor request now) db
        (λ b db' h.
          evidence-IsGuarded s0 db db'
            (accept_consent-evidence db db' s k d v new actor request now b h) c)
        c
  run-IsGuarded s0 (move s to actor request now) db n c =
      after-IsGuarded s0 (transition_session s to actor request now) db
        (λ b db' h.
          evidence-IsGuarded s0 db db'
            (transition_session-evidence db db' s to actor request now b h) c)
        c
  run-IsGuarded s0 (register a new actor request now) db n c =
      after-IsGuarded s0 (register_artifact a new actor request now) db
        (λ b db' h.
          register_artifact-IsGuarded s0 new actor request a now db db' b (ground arith) h c)
        c
  run-IsGuarded s0 (submit s j actor request now) db n c =
      after-IsGuarded s0 (submit_session s j actor request now) db
        (λ b db' h.
          evidence-IsGuarded s0 db db' (submit_session-evidence db db' s j actor request now b h) c)
        c
  run-IsGuarded s0 (claim_job w duration now) db n c =
      after-IsGuarded s0 (claim_validation_job collate w duration now) db
        (λ b db' h.
          evidence-IsGuarded s0 db db'
            (claim_validation_job-evidence db db' collate w duration now b h) c)
        c
  run-IsGuarded s0 (complete_job j w given new now) db n c =
      after-IsGuarded s0 (complete_validation_job j w given new now) db
        (λ b db' h.
          evidence-IsGuarded s0 db db'
            (complete_validation_job-evidence db db' j w given new now b h) c)
        c
  run-IsGuarded s0 (requeue_job j w error max now) db n c =
      after-IsGuarded s0 (requeue_validation_job j w error max now) db
        (λ b db' h.
          evidence-IsGuarded s0 db db'
            (requeue_validation_job-evidence db db' j w error max now b h) c)
        c
  run-IsGuarded s0 (retry_job j actor request now) db n c =
      after-IsGuarded s0 (retry_dead_letter_job j actor request now) db
        (λ b db' h.
          evidence-IsGuarded s0 db db'
            (retry_dead_letter_job-evidence db db' j actor request now b h) c)
        c
  run-IsGuarded s0 (claim_session s v actor request lease now) db n c =
      after-IsGuarded s0 (claim_review s v actor request lease now) db
        (λ b db' h.
          evidence-IsGuarded s0 db db'
            (claim_review-evidence db db' s v actor request lease now b h) c)
        c
  run-IsGuarded s0 (release_session s v actor request now) db n c =
      after-IsGuarded s0 (release_review s v actor request now) db
        (λ b db' h.
          evidence-IsGuarded s0 db db' (release_review-evidence db db' s v actor request now b h) c)
        c
  run-IsGuarded s0 (review given ids actor request now) db n c =
      after-IsGuarded s0 (submit_review f encoding collate valid_scores given ids actor request now)
        db
        (λ b db' h.
          evidence-IsGuarded s0 db db'
            (submit_review-evidence db db' f encoding collate valid_scores given ids actor request
              now b h)
            c)
        c
  run-IsGuarded s0 (place_hold s reason new actor request now) db n c =
      after-IsGuarded s0 (place_legal_hold s reason new actor request now) db
        (λ b db' h. place_legal_hold-IsGuarded s0 s reason new actor request now db db' b h c) c
  run-IsGuarded s0 (release_hold s k actor request now) db n c =
      after-IsGuarded s0 (release_legal_hold s k actor request now) db
        (λ b db' h. release_legal_hold-IsGuarded s0 s k actor request now db db' (ground arith) h c)
        c
  run-IsGuarded s0 (request_deletion s reason new actor request now) db n c =
      after-IsGuarded s0 (request_session_deletion collate s reason new actor request now) db
        (λ b db' h.
          evidence-IsGuarded s0 db db'
            (request_session_deletion-evidence db db' collate s reason new actor request now b h) c)
        c
  run-IsGuarded s0 (claim_deletion w duration now) db n c =
      after-IsGuarded s0 (claim_deletion_request collate w duration now) db
        (λ b db' h.
          evidence-IsGuarded s0 db db'
            (claim_deletion_request-evidence db db' collate w duration now b h) c)
        c
  run-IsGuarded s0 (complete_deletion d w now) db n c =
      after-IsGuarded s0 (complete_deletion_request d w now) db
        (λ b db' h. complete_deletion_request-IsGuarded s0 d w now db db' h c) c
  run-IsGuarded s0 (requeue_deletion d w error max now) db n c =
      after-IsGuarded s0 (requeue_deletion_request d w error max now) db
        (λ b db' h.
          evidence-IsGuarded s0 db db'
            (requeue_deletion_request-evidence db db' d w error max now b h) c)
        c
  run-IsGuarded s0 (retry_deletion d actor request now) db n c =
      after-IsGuarded s0 (retry_dead_letter_deletion_request d actor request now) db
        (λ b db' h.
          evidence-IsGuarded s0 db db'
            (retry_dead_letter_deletion_request-evidence db db' d actor request now b h) c)
        c
  run-IsGuarded s0 (plan_redaction document s v actor ids request now) db n c =
      after-IsGuarded s0
        (create_redaction_plan f encoding collate document s v actor ids request now) db
        (λ b db' h.
          evidence-IsGuarded s0 db db'
            (create_redaction_plan-evidence db db' f encoding collate valid_scores document s v
              actor ids request now b h)
            c)
        c
  run-IsGuarded s0 (claim_redaction w duration now) db n c =
      after-IsGuarded s0 (claim_redaction_job collate w duration now) db
        (λ b db' h.
          evidence-IsGuarded s0 db db'
            (claim_redaction_job-evidence db db' collate w duration now b h) c)
        c
  run-IsGuarded s0 (complete_redaction j w key now) db n c =
      after-IsGuarded s0 (complete_redaction_job j w key now) db
        (λ b db' h.
          evidence-IsGuarded s0 db db' (complete_redaction_job-evidence db db' j w key now b h) c)
        c
  run-IsGuarded s0 (requeue_redaction j w error max now) db n c =
      after-IsGuarded s0 (requeue_redaction_job j w error max now) db
        (λ b db' h.
          evidence-IsGuarded s0 db db' (requeue_redaction_job-evidence db db' j w error max now b h)
            c)
        c
  run-IsGuarded s0 (retry_redaction j actor request now) db n c =
      after-IsGuarded s0 (retry_dead_letter_redaction_job j actor request now) db
        (λ b db' h.
          evidence-IsGuarded s0 db db'
            (retry_dead_letter_redaction_job-evidence db db' j actor request now b h) c)
        c
  run-IsGuarded s0 (set_policy given actor request now) db n c =
      after-IsGuarded s0 (upsert_retention_policy given actor request now) db
        (λ b db' h.
          evidence-IsGuarded s0 db db'
            (upsert_retention_policy-IsRetained db db' given actor request now b h).1 c)
        c
  run-IsGuarded s0 (sweep new_id actor now limit) db n c =
      after-IsGuarded s0 (queue_expired_retention collate new_id actor now limit) db
        (λ b db' h.
          evidence-IsGuarded s0 db db'
            (queue_expired_retention-IsRetained db db' collate new_id actor now limit b h).1 c)
        c
  run-IsGuarded s0 (claim_purge w duration now) db n c =
      after-IsGuarded s0 (claim_retention_purge collate w duration now) db
        (λ b db' h.
          evidence-IsGuarded s0 db db'
            (claim_retention_purge-IsRetained db db' collate w duration now b h).1 c)
        c
  run-IsGuarded s0 (complete_purge q w now) db n c =
      after-IsGuarded s0 (complete_retention_purge q w now) db
        (λ b db' h. complete_retention_purge-IsGuarded s0 q w now db db' h c) c
  run-IsGuarded s0 (requeue_purge q w error max now) db n c =
      after-IsGuarded s0 (requeue_retention_purge q w error max now) db
        (λ b db' h.
          evidence-IsGuarded s0 db db'
            (requeue_retention_purge-IsRetained db db' q w error max now b h).1 c)
        c
  run-IsGuarded s0 (retry_purge q actor request now) db n c =
      after-IsGuarded s0 (retry_dead_letter_retention_purge q actor request now) db
        (λ b db' h.
          evidence-IsGuarded s0 db db'
            (retry_dead_letter_retention_purge-IsRetained db db' q actor request now b h).1 c)
        c

  -- Whatever calls follow, failed ones included, as long as none of them releases a hold of the
  -- session or registers an artifact for it: a session that is under a legal hold stays so and keeps exactly its artifacts.
  pub run_all-IsGuarded :
      (s : String) (calls : List (Call N)) (db : Db)
      → All (λ call. spares s call ≡ true) calls
      → is_held s db ≡ true
      → IsGuarded s db (run_all f encoding collate valid_scores calls db)
  unfolding run_all
  run_all-IsGuarded s [] db n c = (c, refl)
  run_all-IsGuarded s (call ∷ calls) db n c =
      let one = run-IsGuarded s call db n.0 c in
      let rest =
        run_all-IsGuarded s calls (run f encoding collate valid_scores call db) n.1 one.0 in
      (rest.0, rest.1 ∙ one.1)
