-- ===== src/System/Calls/Kept.antt =====
-- What each operation does to the table of sessions keeps every session's consent.
use data_trains.Base.{String, ◌==◌, some, List, ◌≡◌, refl, subst, sym, arith}
use data_trains.Domain.State.{SessionState, assigned, submitted, allowed_transition}
use data_trains.Domain.Errors.{ok}
use data_trains.Domain.Session.{Session}
use data_trains.Domain.Model.{Time, ProcessingJob}
use data_trains.Table.{insert}
use data_trains.Db.{Db, SessionRow}
use data_trains.Domain.Model.{Assignment, ConsentAcceptance}
use data_trains.Store.Catalog.{assign_task, new_session}
use data_trains.Store.Sessions.{accept_consent, transition_session}
use data_trains.Store.Sessions.Consent.{accept_consent-ok}
use data_trains.Store.Sessions.Transitions.{transition_session-ok}
use data_trains.Pipeline.Jobs.{submit_session}
use data_trains.Pipeline.Jobs.Submission.{submit_session-ok}
use data_trains.Erasure.Worker.{complete_deletion_request, delete_session_row}
use data_trains.Erasure.Worker.Erased.{complete_deletion_request-ok}
use data_trains.System.Consented.{
  IsConsented, needs_consent, move-IsConsented, update-IsConsented, insert-IsConsented,
}

module _ (db db' : Db) (c : IsConsented db.sessions) where
  by : (rs : List SessionRow) → db'.sessions ≡ rs → IsConsented rs → IsConsented db'.sessions
  by rs e k = subst IsConsented (sym e) k

  pub assign_task-IsConsented :
      (t k a s actor request : String) (now : Time) (b : Assignment × Session)
      → assign_task t k a s actor request now db ≡ ok (b, db')
      → IsConsented db'.sessions
  unfolding assign_task
  assign_task-IsConsented t k a s actor request now b h =
      by (insert (new_session s a assigned now) db.sessions) (ground arith)
        (insert-IsConsented (new_session s a assigned now) db.sessions (ground arith) refl c)

  pub accept_consent-IsConsented :
      (s k d v new actor request : String) (now : Time) (b : ConsentAcceptance)
      → accept_consent s k d v new actor request now db ≡ ok (b, db')
      → IsConsented db'.sessions
  accept_consent-IsConsented s k d v new actor request now b h =
      let a = accept_consent-ok s k d v new actor request now db db' b h in
      by _ a.12 (
        update-IsConsented (λ q. q.id == s)
          (λ q. record q { consent_acceptance_id = some b.id; updated_at = now }) db.sessions
          (λ q. refl) (λ q e. ground arith) c)

  pub transition_session-IsConsented :
      (id : String) (to : SessionState) (actor request : String) (now : Time) (s : Session)
      → transition_session id to actor request now db ≡ ok (s, db')
      → IsConsented db'.sessions
  transition_session-IsConsented id to actor request now s h =
      let a = transition_session-ok id to actor request now db db' s h in
      by _ (ground (arith, a.5)) (move-IsConsented id to now db.sessions a.0 a.1 a.2 a.3 c)

  pub submit_session-IsConsented :
      (id j actor request : String) (now : Time) (s : Session) (job : ProcessingJob)
      → submit_session id j actor request now db ≡ ok ((s, job), db')
      → IsConsented db'.sessions
  unfolding allowed_transition
  submit_session-IsConsented id j actor request now s job h =
      let a = submit_session-ok id j actor request now db db' s job h in
      by _ a.10 (move-IsConsented id submitted now db.sessions a.0 a.1 (ground arith) (λ e. cc) c)

  pub complete_deletion_request-IsConsented :
      (d w : String) (now : Time)
      → complete_deletion_request d w now db ≡ ok (tt, db')
      → IsConsented db'.sessions
  unfolding needs_consent
  complete_deletion_request-IsConsented d w now h =
      let a = complete_deletion_request-ok d w now db db' h in
      by _ a.6 (
        update-IsConsented (λ q. q.id == a.0.session_id) (delete_session_row now) db.sessions
          (λ q. refl) (λ q e. refl) c)
