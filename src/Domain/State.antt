-- ===== src/Domain/State.antt =====
-- The states of a session and the table of allowed transitions
-- (services/api/internal/domain/session.go).
use data_trains.Base.{Bool, true, false, String}

pub data SessionState : Type 0 where
  created assigned ready recording finalizing uploading submitted processing : SessionState
  ready_for_review accepted released failed rejected rework_required : SessionState
  cancelled deleted : SessionState

unfoldable pub SessionState-discrete : Discrete SessionState
SessionState-discrete = hlevel

-- The text of a state, as it is stored and printed.
unfoldable pub state_text : SessionState → String
state_text created = "CREATED"
state_text assigned = "ASSIGNED"
state_text ready = "READY"
state_text recording = "RECORDING"
state_text finalizing = "FINALIZING"
state_text uploading = "UPLOADING"
state_text submitted = "SUBMITTED"
state_text processing = "PROCESSING"
state_text ready_for_review = "READY_FOR_REVIEW"
state_text accepted = "ACCEPTED"
state_text released = "RELEASED"
state_text failed = "FAILED"
state_text rejected = "REJECTED"
state_text rework_required = "REWORK_REQUIRED"
state_text cancelled = "CANCELLED"
state_text deleted = "DELETED"

-- `==` on session states.
abbrev pub state_eq : SessionState → SessionState → Bool
state_eq s t = elim (SessionState-discrete s t) [ yes _ ↦ true | no _ ↦ false ]

-- `allowedTransitions`: a pair that no clause lists is not in the map.
unfoldable pub allowed_transition : SessionState → SessionState → Bool
allowed_transition created assigned = true
allowed_transition created cancelled = true
allowed_transition assigned ready = true
allowed_transition assigned cancelled = true
allowed_transition ready recording = true
allowed_transition ready cancelled = true
allowed_transition recording finalizing = true
allowed_transition recording failed = true
allowed_transition recording cancelled = true
allowed_transition finalizing uploading = true
allowed_transition finalizing failed = true
allowed_transition uploading submitted = true
allowed_transition uploading failed = true
allowed_transition submitted processing = true
allowed_transition submitted failed = true
allowed_transition processing ready_for_review = true
allowed_transition processing failed = true
allowed_transition ready_for_review accepted = true
allowed_transition ready_for_review rejected = true
allowed_transition ready_for_review rework_required = true
allowed_transition rework_required ready = true
allowed_transition rework_required cancelled = true
allowed_transition accepted released = true
allowed_transition _ _ = false
