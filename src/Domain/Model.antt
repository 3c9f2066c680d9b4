-- ===== src/Domain/Model.antt =====
-- The rows of the tables (services/api/internal/domain/model.go and the columns that the queries
-- of services/api/internal/database name).
use data_trains.Base.{ℕ, String, Bool, true, false, Option, List}
use data_trains.Domain.State.{SessionState}

-- A point of time: nanoseconds since Go's zero time, which is 0.
abbrev pub Time : Type 0
Time = ℕ

-- A value of an audit event's metadata: a text, or the number or truth value that `fmt.Sprint`
-- is given.
pub data MetaValue : Type 0 where
  text : String → MetaValue
  number : ℕ → MetaValue
  flag : Bool → MetaValue
  state : SessionState → MetaValue

pub record AuditEvent : Type 0 where
  pub actor : String
  pub action : String
  pub resource : String
  pub timestamp : Time
  pub request_id : String
  pub metadata : List (String × MetaValue)

pub record Organization : Type 0 where
  pub id : String
  pub name : String

pub record Project : Type 0 where
  pub id : String
  pub organization_id : String
  pub name : String
  pub target_trajectories : ℕ

pub record TaskTemplate : Type 0 where
  pub id : String
  pub project_id : String
  pub name : String
  pub goal : String
  pub category : String
  pub difficulty : String

pub record Task : Type 0 where
  pub id : String
  pub template_id : String
  pub goal : String

pub record Contributor : Type 0 where
  pub id : String
  pub display_name : String

pub record Assignment : Type 0 where
  pub id : String
  pub task_id : String
  pub contributor_id : String
  pub created_at : Time

pub record ConsentDocument : Type 0 where
  pub id : String
  pub version : String
  pub text_hash : String
  pub body : String
  pub effective_date : Time

pub record ConsentAcceptance : Type 0 where
  pub id : String
  pub contributor_id : String
  pub document_id : String
  pub client_version : String
  pub accepted_at : Time

pub record Artifact : Type 0 where
  pub id : String
  pub session_id : String
  pub key : String
  pub sha256 : String
  pub size : ℕ
  pub media_type : String
  pub purged_at : Option Time

-- The states of queued work: processing jobs, redaction jobs, deletion requests (which may be
-- blocked) and retention purges (which may be cancelled too).
pub data JobState : Type 0 where
  queued leased completed blocked dead_letter cancelled : JobState

unfoldable pub is_queued : JobState → Bool
is_queued queued = true
is_queued _ = false

unfoldable pub is_leased : JobState → Bool
is_leased leased = true
is_leased _ = false

unfoldable pub is_dead_letter : JobState → Bool
is_dead_letter dead_letter = true
is_dead_letter _ = false

pub record ProcessingJob : Type 0 where
  pub id : String
  pub session_id : String
  pub job_type : String
  pub state : JobState
  pub attempt : ℕ
  pub available_at : Time
  pub leased_by : Option String
  pub lease_expires_at : Option Time
  pub last_error : Option String
  pub manual_requeues : ℕ
  pub started_at : Option Time
  pub finished_at : Option Time
  pub dead_lettered_at : Option Time
  pub updated_at : Time

pub record ValidationResult : Type 0 where
  pub id : String
  pub job_id : String
  pub session_id : String
  pub valid : Bool
  pub errors : List String
  pub normalized_key : String
  pub schema_version : String
  pub validator_version : String
  pub created_at : Time
  pub purged_at : Option Time

pub record ReviewClaim : Type 0 where
  pub session_id : String
  pub reviewer_id : String
  pub claimed_at : Time
  pub expires_at : Time

pub record LegalHold : Type 0 where
  pub id : String
  pub organization_id : String
  pub session_id : String
  pub reason : String
  pub placed_by : String
  pub placed_at : Time
  pub released_by : Option String
  pub released_at : Option Time

pub record DeletionRequest : Type 0 where
  pub id : String
  pub organization_id : String
  pub session_id : String
  pub reason : String
  pub object_keys : List String
  pub state : JobState
  pub attempt : ℕ
  pub manual_requeues : ℕ
  pub available_at : Time
  pub leased_by : Option String
  pub lease_expires_at : Option Time
  pub requested_by : String
  pub requested_at : Time
  pub completed_at : Option Time
  pub last_error : Option String

pub record RedactionJob : Type 0 where
  pub id : String
  pub plan_id : String
  pub session_id : String
  pub state : JobState
  pub attempt : ℕ
  pub manual_requeues : ℕ
  pub available_at : Time
  pub leased_by : Option String
  pub lease_expires_at : Option Time
  pub output_manifest_key : Option String
  pub last_error : Option String
  pub created_at : Time
  pub updated_at : Time
  pub finished_at : Option Time
  pub dead_lettered_at : Option Time
  pub purged_at : Option Time
