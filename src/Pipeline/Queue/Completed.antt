-- ===== src/Pipeline/Queue/Completed.antt =====
-- A completed validation job.
use data_trains.Base.{
  ℕ, String, Bool, true, false, not, ◌==◌, some, List, [], ◌∷◌, ◌≡◌, ◌≢◌, refl, sym, ◌∙◌, subst,
  arith, All, eq_refl, inl, inr, Bool-cases,
}
use data_trains.Domain.Errors.{ok}
use data_trains.Domain.Session.{Session}
use data_trains.Domain.Model.{
  Time, ProcessingJob, ValidationResult, completed, is_leased, is_queued, is_dead_letter,
}
use data_trains.Table.{find, update_where}
use data_trains.Table.Laws.{find-All, find-update_self, find-some, first_by-some, first_by-All}
use data_trains.Db.{Db}
use data_trains.Pipeline.Lease.{claim_validation_job, claimable, claim_order}
use data_trains.Pipeline.Lease.Exclusive.{claim_validation_job-ok}
use data_trains.Pipeline.Outcome.{
  complete_validation_job, requeue_validation_job, find_job, complete_job,
}
use data_trains.Pipeline.Outcome.Settled.{complete_validation_job-ok, requeue_validation_job-ok}
use data_trains.Pipeline.Queue.{JobCall, submit, claim, complete, requeue, retry, erase, run_jobs}
use data_trains.Pipeline.Queue.Kept.{Rows, Refuses, run_jobs-Rows}

abbrev IsCompleted : ProcessingJob → Type 0
IsCompleted k = k.state ≡ completed

-- The call is no submission that draws the identifier.
unfoldable pub draws_other : String → JobCall → Bool
draws_other id (submit s j actor request now) = not (j == id)
draws_other id _ = true

completed-unclaimable : (now : Time) (k : ProcessingJob) → IsCompleted k → claimable now k ≡ false
unfolding claimable is_queued is_leased
completed-unclaimable now k p = rw p (ground arith)

completed-unleased : (k : ProcessingJob) → IsCompleted k → is_leased k.state ≡ false
unfolding is_leased
completed-unleased k p = rw p refl

completed-alive : (k : ProcessingJob) → IsCompleted k → is_dead_letter k.state ≡ false
unfolding is_dead_letter
completed-alive k p = rw p refl

draws_other-Refuses :
    (id : String) (call : JobCall) → draws_other id call ≡ true → Refuses IsCompleted id call
unfolding draws_other
draws_other-Refuses id (submit s j actor request now) h = ground arith
draws_other-Refuses id (claim w duration now) h = λ k p. completed-unclaimable now k p
draws_other-Refuses id (complete j w given new now) h =
    λ k p. ground (arith, completed-unleased k p)
draws_other-Refuses id (requeue j w error max now) h = λ k p. ground (arith, completed-unleased k p)
draws_other-Refuses id (retry j actor request now) h = λ k p. completed-alive k p
draws_other-Refuses id (erase d w now) h = tt

All-refuse :
    (id : String) (calls : List JobCall)
    → All (λ c. draws_other id c ≡ true) calls
    → All (Refuses IsCompleted id) calls
All-refuse id [] h = tt
All-refuse id (c ∷ cs) h = (draws_other-Refuses id c h.0, All-refuse id cs h.1)

complete_job-Rows :
    (id : String) (now : Time) (rows : List ProcessingJob)
    → Rows IsCompleted id (update_where (λ k. k.id == id) (complete_job now) rows)
unfolding update_where
complete_job-Rows id now [] = tt
complete_job-Rows id now (k ∷ rows) = elim (Bool-cases (k.id == id)) [
  | inl e ↦ rw e (λ _. refl, complete_job-Rows id now rows)
  | inr e ↦ rw e (λ h. absurd (cc (h, e)), complete_job-Rows id now rows)
]

unleased_row :
    (job_id : String) (db : Db) (j : ProcessingJob)
    → Rows IsCompleted job_id db.jobs
    → find_job job_id db ≡ some j
    → is_leased j.state ≡ true
    → ⊥
unleased_row job_id db j kept found e = cc (
  completed-unleased j (
      find-All (λ k. k.id == job_id ≡ true → IsCompleted k) (λ k. k.id == job_id) db.jobs j kept
        found (find-some (λ k. k.id == job_id) db.jobs j found)),
  e,
)

-- A completed job stays completed: whatever calls on validation jobs follow, of whichever workers, all
-- rows of the job say that it is completed (an erasure may delete them), no claim returns it, and
-- neither a completion nor a requeue of it succeeds. Submissions are taken to draw other identifiers.
pub complete_validation_job-final :
    (collate : String → String → Bool) (job_id worker_id result_id : String)
    (given : ValidationResult) (now : Time) (db db' : Db) (s : Session) (calls : List JobCall)
    → complete_validation_job job_id worker_id given result_id now db ≡ ok (s, db')
    → All (λ c. draws_other job_id c ≡ true) calls
    → (j : ProcessingJob) × (find_job job_id db' ≡ some j)
      × (j.state ≡ completed)
      × All (λ k. k.id == job_id ≡ true → k.state ≡ completed) (run_jobs collate calls db').jobs
      × ((other : String) (duration : ℕ) (later : Time) (k : ProcessingJob) (db'' : Db)
          → claim_validation_job collate other duration later (run_jobs collate calls db')
            ≡ ok (k, db'')
          → k.id ≢ job_id)
      × ((other new_id : String) (again : ValidationResult) (later : Time) (t : Session) (db'' : Db)
          → complete_validation_job job_id other again new_id later (run_jobs collate calls db')
            ≢ ok (t, db''))
      × ((other error : String) (max_attempts : ℕ) (later : Time) (db'' : Db)
          → requeue_validation_job job_id other error max_attempts later
              (run_jobs collate calls db')
            ≢ ok (tt, db''))
complete_validation_job-final collate job_id worker_id result_id given now db db' s calls h n =
    let a = complete_validation_job-ok job_id worker_id result_id given now db db' s h in
    let own = find-some (λ k. k.id == job_id) db.jobs a.0 a.1 in
    let after = run_jobs collate calls db' in
    let kept =
      run_jobs-Rows IsCompleted job_id collate calls db' (All-refuse job_id calls n)
        (subst (Rows IsCompleted job_id) (sym a.8) (complete_job-Rows job_id now db.jobs)) in
    (
      complete_job now a.0,
      subst (λ rows. find (λ k. k.id == job_id) rows ≡ some (complete_job now a.0)) (sym a.8)
          (find-update_self (λ k. k.id == job_id) (complete_job now) db.jobs a.0 own a.1),
      refl,
      kept,
      λ other duration later k db'' c same.
          let b = claim_validation_job-ok collate other duration later after db'' k c in
          cc (
            completed-unclaimable later b.0 (
                first_by-All (λ q. q.id == job_id ≡ true → IsCompleted q) (claim_order collate)
                  (claimable later) after.jobs b.0 kept b.1
                  (subst (λ id. (b.0.id == id) ≡ true) (sym b.2 ∙ same) (eq_refl b.0.id))),
            first_by-some (claim_order collate) (claimable later) after.jobs b.0 b.1,
          ),
      λ other new_id again later t db'' c.
          let b = complete_validation_job-ok job_id other new_id again later after db'' t c in
          unleased_row job_id after b.0 kept b.1 b.2,
      λ other error max_attempts later db'' c.
          let b = requeue_validation_job-ok job_id other error max_attempts later after db'' c in
          unleased_row job_id after b.0 kept b.1 b.2,
    )
