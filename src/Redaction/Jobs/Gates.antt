-- ===== src/Redaction/Jobs/Gates.antt =====
-- Who redacts a session's videos, and when (services/api/internal/database/redaction.go).
use data_trains.Base.{
  ℕ, ◌+◌, ◌<◌, String, Bool, true, false, ◌==◌, some, List, [], ◌∷◌, ◌≡◌, ◌≢◌, refl, sym, ◌∙◌,
  arith, eq_iff, All, Option-cases, inl, inr,
}
use data_trains.Domain.State.{accepted, SessionState-discrete}
use data_trains.Domain.Errors.{ok}
use data_trains.Domain.Model.{Time, RedactionJob, is_leased, is_queued}
use data_trains.Table.{first_by, update_where}
use data_trains.Table.Laws.{first_by-some, first_by-All}
use data_trains.Db.{Db, SessionRow, find_session}
use data_trains.Pipeline.Outcome.{owner}
use data_trains.Redaction.Plans.{has_pending_deletion}
use data_trains.Redaction.Jobs.{
  claim_redaction_job, complete_redaction_job, redactable, redaction_order, find_redaction_job,
  lease_redaction, complete_redaction, manifest_key,
}

-- A leased job cannot be claimed before its lease has run out.
leased_unredactable :
    (id worker_id : String) (attempt : ℕ) (expires now later : Time) (rs : List RedactionJob)
    → later < expires
    → All
        (λ k. k.id == id ≡ true → redactable later k ≡ false)
        (update_where (λ k. k.id == id) (lease_redaction attempt worker_id expires now) rs)
unfolding update_where redactable is_queued is_leased
leased_unredactable id worker_id attempt expires now later [] h = tt
leased_unredactable id worker_id attempt expires now later (r ∷ rs) h =
    (ground arith, leased_unredactable id worker_id attempt expires now later rs h)

module _ (collate : String → String → Bool) where
  -- A claim that succeeds leases the first job that waits or whose lease has run out, with one more
  -- attempt; its session is accepted and no deletion of it waits, runs, is blocked or has failed.
  pub claim_redaction_job-ok :
      (worker_id : String) (duration : ℕ) (now : Time) (db db' : Db) (job : RedactionJob)
      → claim_redaction_job collate worker_id duration now db ≡ ok (job, db')
      → (j : RedactionJob) × (first_by (redaction_order collate) (redactable now) db.redaction_jobs
          ≡ some j)
        × (job ≡ lease_redaction (j.attempt + 1) worker_id (now + duration) now j)
        × (r : SessionRow) × (find_session j.session_id db ≡ some r)
        × (r.state ≡ accepted)
        × (has_pending_deletion j.session_id db ≡ false)
        × (db'.redaction_jobs
            ≡ update_where
                (λ k. k.id == j.id)
                (lease_redaction (j.attempt + 1) worker_id (now + duration) now)
                db.redaction_jobs)
  unfolding claim_redaction_job SessionState-discrete
  claim_redaction_job-ok worker_id duration now db db' job h = ground arith

  -- While a redaction lease runs, no worker is given the job again.
  pub redaction_exclusive :
      (worker_id other : String) (duration other_duration : ℕ) (now later : Time) (db db' db'' : Db)
      (job again : RedactionJob)
      → claim_redaction_job collate worker_id duration now db ≡ ok (job, db')
      → later < now + duration
      → claim_redaction_job collate other other_duration later db' ≡ ok (again, db'')
      → again.id ≢ job.id
  redaction_exclusive worker_id other duration other_duration now later db db' db'' job again h l k
        same =
      let a = claim_redaction_job-ok worker_id duration now db db' job h in
      let b = claim_redaction_job-ok other other_duration later db' db'' again k in
      let unclaimed =
        first_by-All (λ q. q.id == a.0.id ≡ true → redactable later q ≡ false)
          (redaction_order collate) (redactable later) db'.redaction_jobs b.0
          (rw a.7 (
            leased_unredactable a.0.id worker_id (a.0.attempt + 1) (now + duration) now later
              db.redaction_jobs l))
          b.1 in
      let held : redactable later b.0 ≡ true =
        first_by-some (redaction_order collate) (redactable later) db'.redaction_jobs b.0 b.1 in
      let first : again.id ≡ b.0.id = cc in
      let second : job.id ≡ a.0.id = cc in
      cc (unclaimed ((eq_iff b.0.id a.0.id).1 (sym first ∙ same ∙ second)))

-- A redaction is completed only by the worker that holds its lease, and only with the manifest key
-- of its own plan; the job then keeps that key and can be claimed by nobody.
pub complete_redaction_job-ok :
    (job_id worker_id key : String) (now : Time) (db db' : Db)
    → complete_redaction_job job_id worker_id key now db ≡ ok (tt, db')
    → (j : RedactionJob) × (find_redaction_job job_id db ≡ some j)
      × (is_leased j.state ≡ true)
      × ((owner j.leased_by == worker_id) ≡ true)
      × (key ≡ manifest_key j.session_id j.plan_id)
      × (db'.redaction_jobs
          ≡ update_where (λ k. k.id == job_id) (complete_redaction key now) db.redaction_jobs)
      × ((later : Time) → redactable later (complete_redaction key now j) ≡ false)
unfolding complete_redaction_job redactable is_queued is_leased
complete_redaction_job-ok job_id worker_id key now db db' h =
    elim (Option-cases (find_redaction_job job_id db)) [
      | inl e ↦ ground arith
      | inr (j, e) ↦ (
        j,
        e,
        ground arith,
        ground arith,
        ground (arith, eq_iff key (manifest_key j.session_id j.plan_id)),
        ground arith,
        λ later. refl,
      )
    ]
