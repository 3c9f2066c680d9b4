-- ===== src/Pipeline/Queue/Leased.antt =====
-- Who holds a validation job.
use data_trains.Base.{
  ℕ, ◌+◌, ◌<◌, String, Bool, true, false, not, ◌&&◌, ◌==◌, ltb, some, List, [], ◌∷◌, ◌≡◌, ◌≢◌, refl,
  sym, ◌∙◌, subst, arith, All, eq_refl, inl, inr, Bool-cases,
}
use data_trains.Domain.Errors.{ok}
use data_trains.Domain.Model.{
  Time, ProcessingJob, is_leased, is_queued, is_dead_letter, leased, JobState,
}
use data_trains.Table.{update_where}
use data_trains.Table.Laws.{first_by-some, first_by-All}
use data_trains.Db.{Db}
use data_trains.Pipeline.Lease.{claim_validation_job, claimable, claim_order, lease_job}
use data_trains.Pipeline.Lease.Exclusive.{claim_validation_job-ok}
use data_trains.Pipeline.Queue.{JobCall, submit, claim, complete, requeue, retry, erase, run_jobs}
use data_trains.Pipeline.Queue.Kept.{Rows, Refuses, run_jobs-Rows}

-- The row is leased to the worker until then.
abbrev IsLeased : String → Time → ProcessingJob → Type 0
IsLeased worker_id expires k =
    (is_leased k.state ≡ true)
    × (k.leased_by ≡ some worker_id)
    × (k.lease_expires_at ≡ some expires)

-- The call does not end the lease of the job: it is no completion or requeue of the job by the worker,
-- no claim after the lease, and no submission that draws the identifier of the job.
unfoldable pub leaves : String → String → Time → JobCall → Bool
leaves id worker_id expires (submit s j actor request now) = not (j == id)
leaves id worker_id expires (claim w duration now) = ltb now expires
leaves id worker_id expires (complete j w given new now) = not (j == id && worker_id == w)
leaves id worker_id expires (requeue j w error max now) = not (j == id && worker_id == w)
leaves id worker_id expires _ = true

is_leased-leased : (s : JobState) → is_leased s ≡ true → s ≡ leased
unfolding is_leased
is_leased-leased leased h = refl
is_leased-leased s h = cc

leased_alive : (s : JobState) → is_leased s ≡ true → is_dead_letter s ≡ false
unfolding is_leased is_dead_letter
leased_alive leased h = refl
leased_alive s h = cc

IsLeased-unclaimable :
    (worker_id : String) (expires now : Time) (k : ProcessingJob)
    → IsLeased worker_id expires k
    → now < expires
    → claimable now k ≡ false
unfolding claimable is_queued is_leased
IsLeased-unclaimable worker_id expires now k p h =
    let state_is = is_leased-leased k.state p.0 in rw (state_is, p.2) (ground arith)

leased_leased : is_leased leased ≡ true
unfolding is_leased
leased_leased = refl

module _ (id worker_id : String) (expires : Time) where
  leaves-Refuses :
      (call : JobCall)
      → leaves id worker_id expires call ≡ true
      → Refuses (IsLeased worker_id expires) id call
  unfolding leaves
  leaves-Refuses (submit s j actor request now) h = ground arith
  leaves-Refuses (claim w duration now) h =
      λ k p. IsLeased-unclaimable worker_id expires now k p (ground arith)
  leaves-Refuses (complete j w given new now) h = λ k p. rw p.1 (ground arith)
  leaves-Refuses (requeue j w error max now) h = λ k p. rw p.1 (ground arith)
  leaves-Refuses (retry j actor request now) h = λ k p. leased_alive k.state p.0
  leaves-Refuses (erase d w now) h = tt

  All-leaves :
      (calls : List JobCall)
      → All (λ c. leaves id worker_id expires c ≡ true) calls
      → All (Refuses (IsLeased worker_id expires) id) calls
  All-leaves [] h = tt
  All-leaves (c ∷ cs) h = (leaves-Refuses c h.0, All-leaves cs h.1)

  lease_job-Rows :
      (attempt : ℕ) (now : Time) (rows : List ProcessingJob)
      → Rows
          (IsLeased worker_id expires)
          id
          (update_where (λ k. k.id == id) (lease_job attempt worker_id expires now) rows)
  unfolding update_where
  lease_job-Rows attempt now [] = tt
  lease_job-Rows attempt now (k ∷ rows) = elim (Bool-cases (k.id == id)) [
    | inl e ↦ rw e (λ _. (leased_leased, refl, refl), lease_job-Rows attempt now rows)
    | inr e ↦ rw e (λ h. absurd (cc (h, e)), lease_job-Rows attempt now rows)
  ]

module _ (collate : String → String → Bool) where
  -- Whatever calls on validation jobs follow a claim before the lease ends, the worker's own completion
  -- or requeue of the job apart: no claim before the end of the lease, the worker's own included, is
  -- given the job again.
  pub lease_exclusive :
      (worker_id other : String) (duration other_duration : ℕ) (now later : Time) (db db' db'' : Db)
      (job again : ProcessingJob) (calls : List JobCall)
      → claim_validation_job collate worker_id duration now db ≡ ok (job, db')
      → All (λ c. leaves job.id worker_id (now + duration) c ≡ true) calls
      → later < now + duration
      → claim_validation_job collate other other_duration later (run_jobs collate calls db')
        ≡ ok (again, db'')
      → again.id ≢ job.id
  lease_exclusive worker_id other duration other_duration now later db db' db'' job again calls h n
        lt k same =
      let expires = now + duration in
      let P = IsLeased worker_id expires in
      let a = claim_validation_job-ok collate worker_id duration now db db' job h in
      let first : Rows P job.id db'.jobs =
        subst (λ id. Rows P id db'.jobs) (sym a.2)
          (subst (Rows P a.0.id) (sym a.4)
            (lease_job-Rows a.0.id worker_id expires (a.0.attempt + 1) now db.jobs)) in
      let kept =
        run_jobs-Rows P job.id collate calls db' (All-leaves job.id worker_id expires calls n)
          first in
      let after = run_jobs collate calls db' in
      let b = claim_validation_job-ok collate other other_duration later after db'' again k in
      let row =
        first_by-All (λ q. q.id == job.id ≡ true → P q) (claim_order collate) (claimable later)
          after.jobs b.0 kept b.1
          (subst (λ id. (b.0.id == id) ≡ true) (sym b.2 ∙ same) (eq_refl b.0.id)) in
      cc (
        IsLeased-unclaimable worker_id expires later b.0 row lt,
        first_by-some (claim_order collate) (claimable later) after.jobs b.0 b.1,
      )
