-- ===== src/System/Calls/Worked.antt =====
-- What the workers and the reviewers do to the table of sessions keeps every session's consent.
use data_trains.Base.{
  ℕ, String, Bool, true, ◌==◌, some, List, ◌≡◌, subst, sym, arith, inl, inr, ◌⊎◌, Bool-cases,
  Option-cases, ltb,
}
use data_trains.Domain.State.{
  SessionState, failed, processing, submitted, allowed_transition, SessionState-discrete,
}
use data_trains.Domain.Errors.{not_found, ok}
use data_trains.Domain.Session.{Session}
use data_trains.Domain.Model.{Time, ProcessingJob, ValidationResult}
use data_trains.Table.{first_by, update_where}
use data_trains.Db.{Db, SessionRow, find_session, row-ok}
use data_trains.Pipeline.Lease.{claim_order, claimable, claim_validation_job}
use data_trains.Pipeline.Outcome.{
  complete_validation_job, requeue_validation_job, retry_dead_letter_job, find_job,
}
use data_trains.Pipeline.Lease.Exclusive.{claim_validation_job-ok}
use data_trains.Pipeline.Outcome.Settled.{complete_validation_job-ok, requeue_validation_job-ok}
use data_trains.System.Consented.{IsConsented, move-IsConsented, recover-IsConsented}

-- A row that was found, moved on.
abbrev moved : SessionRow → SessionState → Time → List SessionRow → List SessionRow
moved r to now = update_where (λ q. q.id == r.id) (λ q. record q { state = to; updated_at = now })

claim_validation_job-sessions :
    (collate : String → String → Bool) (w : String) (duration : ℕ) (now : Time) (db db' : Db)
    (job j : ProcessingJob) (r : SessionRow)
    → claim_validation_job collate w duration now db ≡ ok (job, db')
    → first_by (claim_order collate) (claimable now) db.jobs ≡ some j
    → find_session j.session_id db ≡ some r
    → (db'.sessions ≡ db.sessions)
      ⊎ ((r.state ≡ submitted) × (db'.sessions ≡ moved r processing now db.sessions))
unfolding claim_validation_job SessionState-discrete
claim_validation_job-sessions collate w duration now db db' job j r h f k = ground arith

complete_validation_job-sessions :
    (j w : String) (given : ValidationResult) (new : String) (now : Time) (db db' : Db)
    (s : Session) (job : ProcessingJob) (r : SessionRow)
    → complete_validation_job j w given new now db ≡ ok (s, db')
    → find_job j db ≡ some job
    → find_session job.session_id db ≡ some r
    → db'.sessions ≡ moved r s.state now db.sessions
unfolding complete_validation_job
complete_validation_job-sessions j w given new now db db' s job r h f k = ground arith

requeue_validation_job-sessions :
    (j w error : String) (max : ℕ) (now : Time) (db db' : Db) (job : ProcessingJob)
    → requeue_validation_job j w error max now db ≡ ok (tt, db')
    → find_job j db ≡ some job
    → (db'.sessions ≡ db.sessions)
      ⊎ ((r : SessionRow) × (find_session job.session_id db ≡ some r)
          × (allowed_transition r.state failed ≡ true)
          × (db'.sessions ≡ moved r failed now db.sessions))
unfolding requeue_validation_job
requeue_validation_job-sessions j w error max now db db' job h f =
    elim (Bool-cases (ltb job.attempt max)) [
      | inl e ↦ inl (ground arith)
      | inr e ↦ elim (Option-cases (find_session job.session_id db)) [
        | inl n ↦ ground arith
        | inr (r, k) ↦ inr (r, k, ground arith, ground arith)
      ]
    ]

retry_dead_letter_job-sessions :
    (j actor request : String) (now : Time) (db db' : Db) (job : ProcessingJob)
    → retry_dead_letter_job j actor request now db ≡ ok (job, db')
    → (k : ProcessingJob) × (find_job j db ≡ some k)
      × (r : SessionRow) × (find_session k.session_id db ≡ some r)
      × (r.state ≡ failed)
      × (db'.sessions
          ≡ update_where
              (λ q. q.id == k.session_id)
              (λ q. record q { state = processing; updated_at = now })
              db.sessions)
unfolding retry_dead_letter_job SessionState-discrete
retry_dead_letter_job-sessions j actor request now db db' job h =
    let a = row-ok db (job, db') (find_job j) not_found _ h in
    elim (Option-cases (find_session a.0.session_id db)) [
      | inl n ↦ ground arith
      | inr (r, k) ↦ (a.0, a.1, r, k, ground arith, ground arith)
    ]

module _ (db db' : Db) (c : IsConsented db.sessions) where
  pub claim_validation_job-IsConsented :
      (collate : String → String → Bool) (w : String) (duration : ℕ) (now : Time)
      (job : ProcessingJob)
      → claim_validation_job collate w duration now db ≡ ok (job, db')
      → IsConsented db'.sessions
  unfolding allowed_transition
  claim_validation_job-IsConsented collate w duration now job h =
      let a = claim_validation_job-ok collate w duration now db db' job h in
      elim (claim_validation_job-sessions collate w duration now db db' job a.0 a.5 h a.1 a.6) [
        | inl e ↦ subst IsConsented (sym e) c
        | inr (s, e) ↦ subst IsConsented (sym e) (
            move-IsConsented a.0.session_id processing now db.sessions a.5 a.6 (ground arith)
              (λ e. cc) c)
      ]

  pub complete_validation_job-IsConsented :
      (j w : String) (given : ValidationResult) (new : String) (now : Time) (s : Session)
      → complete_validation_job j w given new now db ≡ ok (s, db')
      → IsConsented db'.sessions
  complete_validation_job-IsConsented j w given new now s h =
      let a = complete_validation_job-ok j w new given now db db' s h in
      subst IsConsented
        (sym (complete_validation_job-sessions j w given new now db db' s a.0 a.4 h a.1 a.5))
        (move-IsConsented a.0.session_id s.state now db.sessions a.4 a.5 a.6
          (λ e. ground (arith, a.7)) c)

  pub requeue_validation_job-IsConsented :
      (j w error : String) (max : ℕ) (now : Time)
      → requeue_validation_job j w error max now db ≡ ok (tt, db')
      → IsConsented db'.sessions
  requeue_validation_job-IsConsented j w error max now h =
      let a = requeue_validation_job-ok j w error max now db db' h in
      elim (requeue_validation_job-sessions j w error max now db db' a.0 h a.1) [
        | inl e ↦ subst IsConsented (sym e) c
        | inr (r, k, t, e) ↦
            subst IsConsented (sym e)
              (move-IsConsented a.0.session_id failed now db.sessions r k t (λ e. cc) c)
      ]

  pub retry_dead_letter_job-IsConsented :
      (j actor request : String) (now : Time) (job : ProcessingJob)
      → retry_dead_letter_job j actor request now db ≡ ok (job, db')
      → IsConsented db'.sessions
  retry_dead_letter_job-IsConsented j actor request now job h =
      let a = retry_dead_letter_job-sessions j actor request now db db' job h in
      subst IsConsented (sym a.5) (recover-IsConsented a.0.session_id now db.sessions a.2 a.3 a.4 c)
