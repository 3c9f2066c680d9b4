-- ===== src/Db/Rows.antt =====
-- The tables.
use data_trains.Base.{ℕ, String, Option, List}
use data_trains.Domain.State.{SessionState}
use data_trains.Domain.Model.{
  Time, AuditEvent, Organization, Contributor, Project, TaskTemplate, Task, Assignment,
  ConsentDocument, ConsentAcceptance, Artifact, ProcessingJob, ValidationResult, ReviewClaim,
  LegalHold, DeletionRequest, RedactionJob, JobState,
}

pub record SessionRow : Type 0 where
  pub id : String
  pub assignment_id : String
  pub consent_acceptance_id : Option String
  pub state : SessionState
  pub rework_of_session_id : Option String
  pub created_at : Time
  pub updated_at : Time

pub record ReviewRow : Type 0 where
  pub id : String
  pub session_id : String
  pub reviewer_id : String
  pub rubric_version : String
  pub scores : String
  pub comments : String
  pub decision : String
  pub pii_review : String
  pub created_at : Time

pub record RedactionPlanRow : Type 0 where
  pub id : String
  pub session_id : String
  pub reviewer_id : String
  pub version : ℕ
  pub document : String
  pub segment_ids : List String
  pub document_hash : String
  pub request_id : String
  pub created_at : Time

pub data UploadState : Type 0 where
  active completed aborted : UploadState

pub record MultipartUpload : Type 0 where
  pub id : String
  pub session_id : String
  pub key : String
  pub storage_key : String
  pub storage_upload_id : String
  pub sha256 : String
  pub size : ℕ
  pub media_type : String
  pub part_size : ℕ
  pub state : UploadState
  pub expires_at : Time

pub record MultipartPartRow : Type 0 where
  pub upload_id : String
  pub number : ℕ
  pub etag : String
  pub size : ℕ

-- A dataset release, as the retention statements see it.
pub record ReleaseRow : Type 0 where
  pub id : String
  pub project_id : String
  pub object_keys : List String
  pub created_at : Time
  pub purged_at : Option Time

pub record ReleaseSession : Type 0 where
  pub release_id : String
  pub session_id : String

pub record RetentionPolicy : Type 0 where
  pub organization_id : String
  pub raw_days : ℕ
  pub derived_days : ℕ
  pub release_days : ℕ
  pub updated_by : String
  pub created_at : Time
  pub updated_at : Time

pub data ResourceType : Type 0 where
  session_raw session_derived release : ResourceType

pub record RetentionPurge : Type 0 where
  pub id : String
  pub organization_id : String
  pub resource_type : ResourceType
  pub resource_id : String
  pub object_keys : List String
  pub state : JobState
  pub attempt : ℕ
  pub policy_updated_at : Time
  pub available_at : Time
  pub requested_at : Time
  pub leased_by : Option String
  pub lease_expires_at : Option Time
  pub completed_at : Option Time
  pub last_error : Option String

pub record Db : Type 0 where
  pub organizations : List Organization
  pub contributors : List Contributor
  pub projects : List Project
  pub templates : List TaskTemplate
  pub tasks : List Task
  pub assignments : List Assignment
  pub sessions : List SessionRow
  pub consent_documents : List ConsentDocument
  pub consent_acceptances : List ConsentAcceptance
  pub artifacts : List Artifact
  pub uploads : List MultipartUpload
  pub parts : List MultipartPartRow
  pub jobs : List ProcessingJob
  pub results : List ValidationResult
  pub claims : List ReviewClaim
  pub reviews : List ReviewRow
  pub plans : List RedactionPlanRow
  pub redaction_jobs : List RedactionJob
  pub holds : List LegalHold
  pub deletions : List DeletionRequest
  pub releases : List ReleaseRow
  pub release_sessions : List ReleaseSession
  pub policies : List RetentionPolicy
  pub purges : List RetentionPurge
  pub audit : List AuditEvent
