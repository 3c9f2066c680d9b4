-- ===== src/System/Calls/Reviewed.antt =====
-- A review keeps every session's consent: it moves its session on, and may add a session for rework.
use data_trains.Base.{String, Bool, true, false, ◌≡◌, subst, sym, arith, inl, inr}
use data_trains.Domain.State.{ready, ready_for_review, allowed_transition}
use data_trains.Domain.Errors.{ok}
use data_trains.Domain.Session.{Session}
use data_trains.Domain.Model.{Time}
use data_trains.Db.{Db}
use data_trains.Redaction.Document.{Floats}
use data_trains.Redaction.Plans.{Encoding}
use data_trains.Review.Submission.{Review, ReviewIds, submit_review, decision_state}
use data_trains.Review.Submission.Moved.{successor, saved, settle_review-sessions}
use data_trains.Review.Submission.Gate.{submitted-ok, claimed_session-ok}
use data_trains.System.Consented.{IsConsented, move-IsConsented, insert-IsConsented}

decided-allowed_transition :
    (decision : String)
    → (allowed_transition ready_for_review (decision_state decision) ≡ true)
      × (decision_state decision ≡ ready → false ≡ true)
unfolding decision_state allowed_transition
decided-allowed_transition decision = ground arith

module _ {N : Type 0} (f : Floats N) (encoding : Encoding N) (collate : String → String → Bool)
    (valid_scores : String → Bool) where
  pub submit_review-IsConsented :
      (r : Review N) (ids : ReviewIds) (actor request_id : String) (now : Time) (db db' : Db)
      (s : Session)
      → IsConsented db.sessions
      → submit_review f encoding collate valid_scores r ids actor request_id now db ≡ ok (s, db')
      → IsConsented db'.sessions
  submit_review-IsConsented r ids actor request_id now db db' s c h =
      let a = submitted-ok f encoding collate valid_scores r ids actor request_id now db db' s h in
      let q = claimed_session-ok f encoding collate valid_scores r now db db a.3 a.4 in
      let d = decided-allowed_transition r.decision in
      let moved : IsConsented (saved s db.sessions) = ground (
        arith,
        move-IsConsented r.session_id (decision_state r.decision) now db.sessions a.3 q.1
            (ground (arith, d.0)) (λ e. ground (arith, d.1 e)) c,
      ) in
      elim (settle_review-sessions f encoding collate valid_scores r a.2 s ids actor request_id now
        db db' a.5) [
          | inl e ↦ subst IsConsented (sym e) moved
          | inr (x, e) ↦ subst IsConsented (sym e) (
              insert-IsConsented (successor s ids.rework now) (saved s db.sessions) x (ground arith)
                moved)
        ]
