-- ===== src/Domain/Session.antt =====
-- `Session.Transition` of services/api/internal/domain/session.go.
pub mod Lifecycle
use data_trains.Base.{
  String, Bool, true, false, ◌||◌, ◌==◌, eqb, if◌then◌else◌, List, [], ◌∷◌, ◌++◌, ◌+++◌, ◌≡◌,
}
use data_trains.Domain.State.{SessionState, allowed_transition}
use data_trains.Domain.Errors.{Result, ok, err, message, invalid_transition}
use data_trains.Domain.Model.{Time, AuditEvent, state}

pub record Session : Type 0 where
  pub id : String
  pub assignment_id : String
  pub state : SessionState
  pub updated_at : Time
  pub audit_events : List AuditEvent

pub record TransitionCommand : Type 0 where
  pub to : SessionState
  pub actor : String
  pub request_id : String
  pub timestamp : Time

-- The audit event of a transition.
abbrev pub transitioned : Session → TransitionCommand → AuditEvent
transitioned session command = record {
  actor = command.actor;
  action = "session.transitioned";
  resource = "session/" +++ session.id;
  timestamp = command.timestamp;
  request_id = command.request_id;
  metadata = ("from", state session.state) ∷ ("to", state command.to) ∷ [];
}

unfoldable pub transition : Session → TransitionCommand → Result Session
transition session command =
    if session.id == ""
    then err (message "session ID is required")
    else if command.actor == "" || command.request_id == "" || eqb command.timestamp 0
    then err (message "transition actor, request ID, and timestamp are required")
    else if allowed_transition session.state command.to
    then ok (record session {
      state = command.to;
      updated_at = command.timestamp;
      audit_events = session.audit_events ++ transitioned session command ∷ [];
    })
    else err (invalid_transition session.state command.to)
