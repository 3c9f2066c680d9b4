-- ===== src/Pipeline/Queue/Kept.antt =====
-- What the calls on validation jobs keep of the rows of one job.
use data_trains.Base.{
  String, Bool, true, false, ◌&&◌, ◌==◌, ltb, List, [], ◌∷◌, some, ◌+◌, ◌≡◌, refl, sym, subst,
  arith, All, if◌then◌else◌, eq_iff, inl, inr, Bool-cases,
}
use data_trains.Domain.Errors.{ok, Result-cases}
use data_trains.Domain.Model.{Time, ProcessingJob, is_leased, is_dead_letter}
use data_trains.Table.{update_where, delete_where}
use data_trains.Table.Laws.{
  All-update, All-insert, find-All, find-some, first_by-All, first_by-some,
}
use data_trains.Db.{Db, Tx, after}
use data_trains.Pipeline.Jobs.{submit_session}
use data_trains.Pipeline.Jobs.Submission.{submit_session-ok}
use data_trains.Pipeline.Lease.{claim_validation_job, claimable, claim_order, lease_job}
use data_trains.Pipeline.Lease.Exclusive.{claim_validation_job-ok}
use data_trains.Pipeline.Backoff.{backoff}
use data_trains.Pipeline.Outcome.{
  complete_validation_job, requeue_validation_job, retry_dead_letter_job, find_job, owner,
  complete_job, requeue_job, bury_job, revive_job,
}
use data_trains.Pipeline.Outcome.Settled.{complete_validation_job-ok, requeue_validation_job-ok}
use data_trains.Erasure.Worker.{complete_deletion_request, erase_rows}
use data_trains.Erasure.Worker.Erased.{complete_deletion_request-ok}
use data_trains.Pipeline.Queue.{
  JobCall, submit, claim, complete, requeue, retry, erase, run_job, run_jobs,
}

-- Every row of the job has the property.
abbrev pub Rows : (ProcessingJob → Type 0) → String → List ProcessingJob → Type 0
Rows P id rows = All (λ k. k.id == id ≡ true → P k) rows

-- A call that a row with the property of the job `id` does not let through.
abbrev pub Refuses : (ProcessingJob → Type 0) → String → JobCall → Type 0
Refuses P id (submit s j actor request now) = (j == id) ≡ false
Refuses P id (claim w duration now) = (k : ProcessingJob) → P k → claimable now k ≡ false
Refuses P id (complete j w given new now) =
    (k : ProcessingJob) → P k → (j == id && is_leased k.state && owner k.leased_by == w) ≡ false
Refuses P id (requeue j w error max now) =
    (k : ProcessingJob) → P k → (j == id && is_leased k.state && owner k.leased_by == w) ≡ false
Refuses P id (retry j actor request now) =
    (k : ProcessingJob) → P k → is_dead_letter k.state ≡ false
Refuses P id (erase d w now) = Unit

retry_dead_letter_job-ok :
    (job_id actor request_id : String) (now : Time) (db db' : Db) (k : ProcessingJob)
    → retry_dead_letter_job job_id actor request_id now db ≡ ok (k, db')
    → (j : ProcessingJob) × (find_job job_id db ≡ some j)
      × (is_dead_letter j.state ≡ true)
      × (db'.jobs ≡ update_where (λ q. q.id == job_id) (revive_job now) db.jobs)
unfolding retry_dead_letter_job
retry_dead_letter_job-ok job_id actor request_id now db db' k h = ground arith

complete_deletion_request-jobs :
    (d w : String) (now : Time) (db db' : Db)
    → complete_deletion_request d w now db ≡ ok (tt, db')
    → (s : String) × (db'.jobs ≡ delete_where (λ j. j.session_id == s) db.jobs)
unfolding complete_deletion_request erase_rows
complete_deletion_request-jobs d w now db db' h =
    ((complete_deletion_request-ok d w now db db' h).0.session_id, ground arith)

settled_id :
    (b : Bool) (now available : Time) (error : String) (k : ProcessingJob)
    → ((if b then requeue_job available now error else bury_job now error) k).id ≡ k.id
settled_id true now available error k = refl
settled_id false now available error k = refl

module _ (P : ProcessingJob → Type 0) (id : String) where
  update-Rows :
      (other : String) (f : ProcessingJob → ProcessingJob) (rows : List ProcessingJob)
      → ((k : ProcessingJob) → (f k).id ≡ k.id)
      → (other == id) ≡ false
      → Rows P id rows
      → Rows P id (update_where (λ k. k.id == other) f rows)
  update-Rows other f rows same n a =
      All-update (λ k. k.id == id ≡ true → P k) (λ k. k.id == other) f rows
        (λ k e p h. absurd (differs k e (subst (λ i. (i == id) ≡ true) (same k) h))) a
    where
      differs : (k : ProcessingJob) → (k.id == other) ≡ true → (k.id == id) ≡ true → ⊥
      differs k e h = cc (subst (λ i. (i == id) ≡ true) ((eq_iff k.id other).0 e) h, n)

  delete-Rows :
      (p : ProcessingJob → Bool) (rows : List ProcessingJob)
      → Rows P id rows
      → Rows P id (delete_where p rows)
  unfolding delete_where
  delete-Rows p [] a = tt
  delete-Rows p (k ∷ rows) a = elim (Bool-cases (p k)) [
    | inl e ↦ rw e (delete-Rows p rows a.1)
    | inr e ↦ rw e (a.0, delete-Rows p rows a.1)
  ]

  after-Rows :
      {A : Type 0} (m : Tx A) (db : Db)
      → ((a : A) (db' : Db) → m db ≡ ok (a, db') → Rows P id db'.jobs)
      → Rows P id db.jobs
      → Rows P id (after m db).jobs
  unfolding after
  after-Rows m db k c = elim (Result-cases (m db)) [
    | inl ((a, db'), e) ↦ rw (after, e) (k a db' e)
    | inr (x, e) ↦ rw (after, e) c
  ]

  -- The update of a row that the property rules out is one of another job.
  found-Rows :
      (other : String) (f : ProcessingJob → ProcessingJob) (test : ProcessingJob → Bool) (db : Db)
      (j : ProcessingJob)
      → ((k : ProcessingJob) → (f k).id ≡ k.id)
      → (((other == id) ≡ true) → P j → test j ≡ false)
      → (j.id == id ≡ true → P j)
      → j.id ≡ other
      → test j ≡ true
      → Rows P id db.jobs
      → Rows P id (update_where (λ k. k.id == other) f db.jobs)
  found-Rows other f test db j same refuse p e t c = elim (Bool-cases (other == id)) [
    | inr n ↦ update-Rows other f db.jobs same n c
    | inl y ↦ absurd (cc (refuse y (p (subst (λ i. (i == id) ≡ true) (sym e) y)), t))
  ]

  id_of :
      (job_id : String) (db : Db) (j : ProcessingJob) → find_job job_id db ≡ some j → j.id ≡ job_id
  id_of job_id db j h = (eq_iff j.id job_id).0 (find-some (λ k. k.id == job_id) db.jobs j h)

  row_of :
      (job_id : String) (db : Db) (j : ProcessingJob)
      → Rows P id db.jobs
      → find_job job_id db ≡ some j
      → j.id == id ≡ true
      → P j
  row_of job_id db j c h =
      find-All (λ k. k.id == id ≡ true → P k) (λ k. k.id == job_id) db.jobs j c h

  -- The rows of a job keep a property that refuses the call.
  pub run_job-Rows :
      (collate : String → String → Bool) (call : JobCall) (db : Db)
      → Refuses P id call
      → Rows P id db.jobs
      → Rows P id (run_job collate call db).jobs
  unfolding run_job
  run_job-Rows collate (submit s j actor request now) db n c =
      after-Rows (submit_session s j actor request now) db
        (λ (t, k) db' h.
          let a = submit_session-ok s j actor request now db db' t k h in
          subst (Rows P id) (sym a.9) (
            All-insert (λ k. k.id == id ≡ true → P k) k db.jobs
              (λ e. absurd (cc (subst (λ i. (i == id) ≡ true) a.4 e, n))) c))
        c
  run_job-Rows collate (claim w duration now) db n c =
      after-Rows (claim_validation_job collate w duration now) db
        (λ k db' h.
          let a = claim_validation_job-ok collate w duration now db db' k h in
          subst (Rows P id) (sym a.4) (
            found-Rows a.0.id (lease_job (a.0.attempt + 1) w (now + duration) now) (claimable now)
              db a.0 (λ q. refl) (λ _ p. n a.0 p)
              (first_by-All (λ k. k.id == id ≡ true → P k) (claim_order collate) (claimable now)
                db.jobs a.0 c a.1)
              refl (first_by-some (claim_order collate) (claimable now) db.jobs a.0 a.1) c))
        c
  run_job-Rows collate (complete j w given new now) db n c =
      after-Rows (complete_validation_job j w given new now) db
        (λ t db' h.
          let a = complete_validation_job-ok j w new given now db db' t h in
          subst (Rows P id) (sym a.8) (
            found-Rows j (complete_job now) (λ k. is_leased k.state && owner k.leased_by == w) db
              a.0 (λ q. refl) (λ y p. ground (arith, y, n a.0 p)) (row_of j db a.0 c a.1)
              (id_of j db a.0 a.1) (ground (arith, a.2, a.3)) c))
        c
  run_job-Rows collate (requeue j w error max now) db n c =
      after-Rows (requeue_validation_job j w error max now) db
        (λ _ db' h.
          let a = requeue_validation_job-ok j w error max now db db' h in
          let same = id_of j db a.0 a.1 in
          subst (Rows P id) (sym a.4) (
            found-Rows a.0.id
              (if ltb a.0.attempt max
                then requeue_job (backoff now a.0.attempt) now error
                else bury_job now error)
              (λ k. is_leased k.state && owner k.leased_by == w) db a.0
              (λ q. settled_id (ltb a.0.attempt max) now (backoff now a.0.attempt) error q)
              (λ y p. ground (arith, subst (λ i. (i == id) ≡ true) same y, n a.0 p))
              (row_of j db a.0 c a.1) refl (ground (arith, a.2, a.3)) c))
        c
  run_job-Rows collate (retry j actor request now) db n c =
      after-Rows (retry_dead_letter_job j actor request now) db
        (λ k db' h.
          let a = retry_dead_letter_job-ok j actor request now db db' k h in
          subst (Rows P id) (sym a.3) (
            found-Rows j (revive_job now) (λ k. is_dead_letter k.state) db a.0 (λ q. refl)
              (λ _ p. n a.0 p) (row_of j db a.0 c a.1) (id_of j db a.0 a.1) a.2 c))
        c
  run_job-Rows collate (erase d w now) db n c =
      after-Rows (complete_deletion_request d w now) db
        (λ _ db' h.
          let a = complete_deletion_request-jobs d w now db db' h in
          subst (Rows P id) (sym a.1) (delete-Rows (λ k. k.session_id == a.0) db.jobs c))
        c

  pub run_jobs-Rows :
      (collate : String → String → Bool) (calls : List JobCall) (db : Db)
      → All (Refuses P id) calls
      → Rows P id db.jobs
      → Rows P id (run_jobs collate calls db).jobs
  unfolding run_jobs
  run_jobs-Rows collate [] db n c = c
  run_jobs-Rows collate (call ∷ calls) db n c =
      run_jobs-Rows collate calls (run_job collate call db) n.1 (run_job-Rows collate call db n.0 c)
