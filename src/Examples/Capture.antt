-- ===== src/Examples/Capture.antt =====
-- The theorems on the capture of a session at a concrete one.
use data_trains.Pipeline.Lease.{claimable}
use data_trains.Base.{
  leb, length, ◌≤◌, ◌+◌, ◌*◌, some, [], ◌∷◌, ◌≡◌, refl, arith, true, false, ◌==◌,
}
use data_trains.Domain.State.{
  submitted, SessionState-discrete, assigned, recording, finalizing, uploading, allowed_transition,
  ready_for_review, accepted, created, ready,
}
use data_trains.Domain.Errors.{ok}
use data_trains.Domain.Session.{Session, transitioned}
use data_trains.Domain.Model.{Time, Assignment, ConsentDocument, ConsentAcceptance}
use data_trains.Table.{find, exists, update_where}
use data_trains.Db.{Db, SessionRow, find_session, after, session_of}
use data_trains.Store.Joins.{find_assignment}
use data_trains.Store.Sessions.{
  transition_session, accept_consent, is_none, find_document, find_acceptance,
}
use data_trains.Store.Sessions.Transitions.{
  transition_session-ok, transition_session-accepts_unreviewed,
}
use data_trains.Store.Sessions.Consent.{accept_consent-ok}
use data_trains.Domain.Session.Lifecycle.{
  Chain-required, Chain-length-le, all_in, required, reworks, start, step,
}
use data_trains.Pipeline.Jobs.{submit_session, has_required_artifacts, has_active_job, new_job}
use data_trains.Pipeline.Jobs.Submission.{Required, submit_session-ok}
use data_trains.Examples.Data.{db_at, session_row}

abbrev consented : Db
consented = after (accept_consent "s1" "c1" "d1" "1.0" "k2" "c1" "r1" 9) (db_at assigned)

abbrev submitted_db : Db
submitted_db = after (submit_session "s1" "j1" "c1" "r1" 9) (db_at uploading)

transition_session-ok_example :
    (r : SessionRow) × (find_session "s1" (db_at recording) ≡ some r)
    × (allowed_transition r.state finalizing ≡ true)
    × (finalizing ≡ ready → is_none r.consent_acceptance_id ≡ false)
    × (finalizing ≡ finalizing)
    × (after (transition_session "s1" finalizing "c1" "r1" 9) (db_at recording)
        ≡ record (db_at recording) {
          sessions =
              update_where
                (λ q. q.id == r.id)
                (λ q. record q { state = finalizing; updated_at = 9 })
                (session_row recording ∷ []);
          audit =
              transitioned
                (session_of r)
                (record { to = finalizing; actor = "c1"; request_id = "r1"; timestamp = 9 })
              ∷ [];
        })
unfolding transition_session find after update_where SessionState-discrete allowed_transition
transition_session-ok_example =
    transition_session-ok "s1" finalizing "c1" "r1" 9 (db_at recording) _ _ refl

transition_session-accepts_unreviewed_example :
    (s : Session) × (db : Db) × (transition_session "s1" accepted "c1" "r1" 9
        (db_at ready_for_review)
      ≡ ok (s, db))
    × (s.state ≡ accepted)
    × (db.reviews ≡ [])
    × (db.claims ≡ [])
unfolding find
transition_session-accepts_unreviewed_example =
    transition_session-accepts_unreviewed "s1" "c1" "r1" 9 (db_at ready_for_review)
      (session_row ready_for_review) refl refl (cc) (cc) (cc) (omega arith)

accept_consent-ok_example :
    (r : SessionRow) × (find_session "s1" (db_at assigned) ≡ some r)
    × (r.state ≡ assigned)
    × (a : Assignment) × (find_assignment r.assignment_id (db_at assigned) ≡ some a)
    × ((a.contributor_id == "c1") ≡ true)
    × (d : ConsentDocument) × (find_document "d1" (db_at assigned) ≡ some d)
    × (d.effective_date ≤ 9)
    × (k : ConsentAcceptance) × (find_acceptance "c1" "d1" consented ≡ some k)
    × ("k2" ≡ k.id)
    × (consented.sessions
        ≡ record (session_row assigned) { consent_acceptance_id = some "k2"; updated_at = 9 } ∷ [])
unfolding accept_consent find exists after update_where SessionState-discrete
accept_consent-ok_example =
    accept_consent-ok "s1" "c1" "d1" "1.0" "k2" "c1" "r1" 9 (db_at assigned) _ _ refl

Chain-required_example : all_in (required ready) (ready ∷ assigned ∷ created ∷ []) ≡ true
unfolding allowed_transition
Chain-required_example = Chain-required {u = ready} (step (step start refl) refl)

Chain-length-le_example :
    length (ready ∷ assigned ∷ created ∷ []) ≤ 11 + 8 * reworks (ready ∷ assigned ∷ created ∷ [])
unfolding allowed_transition
Chain-length-le_example = Chain-length-le {u = ready} (step (step start refl) refl)

submit_session-ok_example :
    (r : SessionRow) × (find_session "s1" (db_at uploading) ≡ some r)
    × (r.state ≡ uploading)
    × Required "s1" (db_at uploading)
    × ((new_job "j1" "s1" 9).id ≡ "j1")
    × ((new_job "j1" "s1" 9).session_id ≡ "s1")
    × ((new_job "j1" "s1" 9).attempt ≡ 0)
    × ((t : Time) → claimable t (new_job "j1" "s1" 9) ≡ leb 9 t)
    × (submitted ≡ submitted)
    × (submitted_db.jobs ≡ new_job "j1" "s1" 9 ∷ [])
    × (submitted_db.sessions
        ≡ update_where
            (λ q. q.id == r.id)
            (λ q. record q { state = submitted; updated_at = 9 })
            (session_row uploading ∷ []))
unfolding submit_session find exists after update_where SessionState-discrete allowed_transition
    has_required_artifacts has_active_job
submit_session-ok_example = submit_session-ok "s1" "j1" "c1" "r1" 9 (db_at uploading) _ _ _ refl
