-- ===== src/Store/Sessions/Transitions.antt =====
-- What `TransitionSession` lets through (services/api/internal/database/store.go), which
-- POST /v1/sessions/{session_id}/transitions offers to contributors
-- (services/api/internal/httpapi/api.go).
use data_trains.Base.{String, true, false, ◌==◌, some, ◌≡◌, ◌≢◌, refl, arith, eq_iff, ◌∷◌, [], ◌++◌}
use data_trains.Domain.State.{
  SessionState, ready, ready_for_review, accepted, allowed_transition, SessionState-discrete,
}
use data_trains.Domain.Errors.{ok, not_found}
use data_trains.Domain.Model.{Time}
use data_trains.Domain.Session.{Session, TransitionCommand, transitioned}
use data_trains.Table.{update_where}
use data_trains.Db.{Db, SessionRow, find_session, session_of, row-some}
use data_trains.Store.Sessions.{transition_session, is_none}

-- A transition that succeeds is one of the allowed ones and finds a consent if it leads to READY;
-- it changes the state and the time of that session's row and appends one audit event, which names
-- the session, the actor and both states, and nothing else.
pub transition_session-ok :
    (session_id : String) (to : SessionState) (actor request_id : String) (now : Time) (db db' : Db)
    (s : Session)
    → transition_session session_id to actor request_id now db ≡ ok (s, db')
    → (r : SessionRow) × (find_session session_id db ≡ some r)
      × (allowed_transition r.state to ≡ true)
      × (to ≡ ready → is_none r.consent_acceptance_id ≡ false)
      × (s.state ≡ to)
      × (db' ≡ record db {
        sessions =
            update_where
              (λ q. q.id == r.id)
              (λ q. record q { state = to; updated_at = now })
              db.sessions;
        audit =
            db.audit
            ++ transitioned
                (session_of r)
                (record { to = to; actor = actor; request_id = request_id; timestamp = now })
              ∷ [];
      })
unfolding transition_session SessionState-discrete
transition_session-ok session_id to actor request_id now db db' s h = ground arith

-- A session that waits for review is accepted by this call for whoever names an actor, a request
-- and a time: no review, no claim and no PII review is asked for, and none is recorded.
pub transition_session-accepts_unreviewed :
    (session_id actor request_id : String) (now : Time) (db : Db) (r : SessionRow)
    → find_session session_id db ≡ some r
    → r.state ≡ ready_for_review
    → r.id ≢ ""
    → actor ≢ ""
    → request_id ≢ ""
    → now ≢ 0
    → (s : Session) × (db' : Db) × (transition_session session_id accepted actor request_id now db
        ≡ ok (s, db'))
      × (s.state ≡ accepted)
      × (db'.reviews ≡ db.reviews)
      × (db'.claims ≡ db.claims)
unfolding transition_session SessionState-discrete allowed_transition
transition_session-accepts_unreviewed session_id actor request_id now db r f e i a q n =
    let command : TransitionCommand = record {
      to = accepted;
      actor = actor;
      request_id = request_id;
      timestamp = now;
    } in
    let event = transitioned (session_of r) command in
    (
      record {
        id = r.id;
        assignment_id = r.assignment_id;
        state = accepted;
        updated_at = now;
        audit_events = event ∷ [];
      },
      record db {
        sessions =
            update_where (λ p. p.id == r.id) (λ p. record p { state = accepted; updated_at = now })
              db.sessions;
        audit = db.audit ++ event ∷ [];
      },
      row-some db _ (find_session session_id) not_found _ r f
          (ground (arith, eq_iff r.id "", eq_iff actor "", eq_iff request_id "")),
      refl,
      refl,
      refl,
    )
