-- ===== src/Store/Catalog.antt =====
-- What an administrator creates (services/api/internal/database/store.go). `new_id` is what
-- `id.New` returned. A reference to a row that is not there violates a foreign key.
use data_trains.Base.{
  ℕ, String, Bool, not, ◌&&◌, ◌||◌, ◌==◌, ltb, leb, eqb, List, [], ◌∷◌, ◌+++◌, none,
}
use data_trains.Domain.State.{SessionState, created, assigned}
use data_trains.Domain.Errors.{not_found, constraint}
use data_trains.Domain.Model.{
  Time, AuditEvent, MetaValue, Organization, Project, TaskTemplate, Task, Contributor, Assignment,
  ConsentDocument, text,
}
use data_trains.Domain.Session.{Session, transition}
use data_trains.Table.{exists, insert, first_by}
use data_trains.Db.{
  Tx, SessionRow, pure, ◌>>=◌, ◌>>◌, fail_if, fresh, fetch, row, write, lift, insert_audit,
  insert_last_audit,
}

-- An audit event.
abbrev pub event : String → String → String → Time → String → List (String × MetaValue) → AuditEvent
event actor action resource now request_id metadata = record {
  actor = actor;
  action = action;
  resource = resource;
  timestamp = now;
  request_id = request_id;
  metadata = metadata;
}

-- `withAudit`: the operation and its audit event are one transaction.
with_audit : AuditEvent → Tx (Unit {0}) → Tx (Unit {0})
unfolding insert_audit
with_audit e operation = do operation; insert_audit e

create_organization : String → String → String → String → Time → Tx Organization
unfolding with_audit
create_organization name new_id actor request_id now = do
  let organization : Organization = record { id = new_id; name = name }
  with_audit (event actor "organization.created" ("organization/" +++ new_id) now request_id []) (do
    fresh (λ db. db.organizations) (λ q. q.id == new_id) "organizations_pkey"
    write (λ db. record db { organizations = insert organization db.organizations }))
  pure organization

create_project : String → String → ℕ → String → String → String → Time → Tx Project
unfolding with_audit
create_project organization_id name target new_id actor request_id now = do
  let project : Project = record {
    id = new_id;
    organization_id = organization_id;
    name = name;
    target_trajectories = target;
  }
  with_audit (event actor "project.created" ("project/" +++ new_id) now request_id []) (do
    known ← fetch (λ db. exists (λ o. o.id == organization_id) db.organizations)
    fail_if (not known) (constraint "projects_organization_id_fkey")
    fail_if (eqb target 0) (constraint "projects_target_trajectories_check")
    fresh (λ db. db.projects) (λ q. q.id == new_id) "projects_pkey"
    write (λ db. record db { projects = insert project db.projects }))
  pure project

create_task_template : TaskTemplate → String → String → String → Time → Tx TaskTemplate
unfolding with_audit
create_task_template given new_id actor request_id now = do
  let template = record given { id = new_id }
  with_audit (event actor "task_template.created" ("task-template/" +++ new_id) now request_id [])
      (do
        known ← fetch (λ db. exists (λ p. p.id == template.project_id) db.projects)
        fail_if (not known) (constraint "task_templates_project_id_fkey")
        fail_if
            (not (
              template.difficulty == "beginner"
              || template.difficulty == "intermediate"
              || template.difficulty == "advanced"))
            (constraint "task_templates_difficulty_check")
        fresh (λ db. db.templates) (λ q. q.id == new_id) "task_templates_pkey"
        write (λ db. record db { templates = insert template db.templates }))
  pure template

create_task : String → String → String → String → String → Time → Tx Task
unfolding with_audit
create_task template_id goal new_id actor request_id now = do
  let task : Task = record { id = new_id; template_id = template_id; goal = goal }
  with_audit (event actor "task.created" ("task/" +++ new_id) now request_id []) (do
    known ← fetch (λ db. exists (λ t. t.id == template_id) db.templates)
    fail_if (not known) (constraint "tasks_template_id_fkey")
    fresh (λ db. db.tasks) (λ q. q.id == new_id) "tasks_pkey"
    write (λ db. record db { tasks = insert task db.tasks }))
  pure task

create_contributor : String → String → String → String → Time → Tx Contributor
unfolding with_audit
create_contributor display_name new_id actor request_id now = do
  let contributor : Contributor = record { id = new_id; display_name = display_name }
  with_audit (event actor "contributor.created" ("contributor/" +++ new_id) now request_id []) (do
    fresh (λ db. db.contributors) (λ q. q.id == new_id) "contributors_pkey"
    write (λ db. record db { contributors = insert contributor db.contributors }))
  pure contributor

-- `CreateConsentDocument`, where `sha256` is the digest in hexadecimal.
create_consent_document :
    (String → String)
    → String
    → String
    → String
    → String
    → String
    → Time
    → Time
    → Tx ConsentDocument
unfolding with_audit
create_consent_document sha256 version body new_id actor request_id effective_at now = do
  let document : ConsentDocument = record {
    id = new_id;
    version = version;
    text_hash = sha256 body;
    body = body;
    effective_date = effective_at;
  }
  with_audit
      (event actor "consent_document.created" ("consent-document/" +++ new_id) now request_id
        (("version", text version) ∷ ("text_hash", text document.text_hash) ∷ []))
      (do
        fresh (λ db. db.consent_documents) (λ q. q.id == new_id) "consent_documents_pkey"
        known ← fetch (λ db. exists (λ d. d.version == version) db.consent_documents)
        fail_if known (constraint "consent_documents_version_key")
        write (λ db. record db { consent_documents = insert document db.consent_documents }))
  pure document

-- ORDER BY effective_date DESC, id DESC
abbrev latest_document : (String → String → Bool) → ConsentDocument → ConsentDocument → Bool
latest_document collate d e =
    ltb e.effective_date d.effective_date
    || (eqb d.effective_date e.effective_date && collate e.id d.id)

-- `CurrentConsentDocument`
current_consent_document : (String → String → Bool) → Time → Tx ConsentDocument
current_consent_document collate now =
    row
      (λ db.
        first_by (latest_document collate) (λ d. leb d.effective_date now) db.consent_documents)
      not_found

-- A new row of `sessions`.
abbrev pub new_session : String → String → SessionState → Time → SessionRow
new_session session_id assignment_id state now = record {
  id = session_id;
  assignment_id = assignment_id;
  consent_acceptance_id = none;
  state = state;
  rework_of_session_id = none;
  created_at = now;
  updated_at = now;
}

-- `AssignTask`: an assignment and its first session.
unfoldable pub assign_task :
    String → String → String → String → String → String → Time → Tx (Assignment × Session)
unfolding transition insert_audit insert_last_audit
assign_task task_id contributor_id assignment_id session_id actor request_id now = do
  session ← lift (
      transition
        (record {
          id = session_id;
          assignment_id = assignment_id;
          state = created;
          updated_at = 0;
          audit_events = [];
        })
        (record { to = assigned; actor = actor; request_id = request_id; timestamp = now }))
  let assignment : Assignment = record {
    id = assignment_id;
    task_id = task_id;
    contributor_id = contributor_id;
    created_at = now;
  }
  task_known ← fetch (λ db. exists (λ t. t.id == task_id) db.tasks)
  fail_if (not task_known) (constraint "assignments_task_id_fkey")
  contributor_known ← fetch (λ db. exists (λ c. c.id == contributor_id) db.contributors)
  fail_if (not contributor_known) (constraint "assignments_contributor_id_fkey")
  fresh (λ db. db.assignments) (λ q. q.id == assignment_id) "assignments_pkey"
  again ← fetch (λ db.
      exists (λ a. a.task_id == task_id && a.contributor_id == contributor_id) db.assignments)
  fail_if again (constraint "assignments_task_id_contributor_id_key")
  write (λ db. record db { assignments = insert assignment db.assignments })
  fresh (λ db. db.sessions) (λ q. q.id == session_id) "sessions_pkey"
  write (λ db. record db {
    sessions = insert (new_session session_id assignment_id session.state now) db.sessions;
  })
  insert_audit (
      event actor "task.assigned" ("assignment/" +++ assignment_id) now request_id
        (("task_id", text task_id) ∷ ("contributor_id", text contributor_id) ∷ []))
  insert_last_audit session
  pure (assignment, session)
