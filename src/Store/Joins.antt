-- ===== src/Store/Joins.antt =====
-- The join that leads from a session to its project, which many queries of
-- services/api/internal/database start with.
use data_trains.Base.{String, Option, none, some, ◌==◌}
use data_trains.Domain.Model.{Assignment, Task, TaskTemplate, Project}
use data_trains.Domain.Errors.{not_found}
use data_trains.Table.{find}
use data_trains.Db.{Db, Tx, SessionRow, pure, ◌>>=◌, row, find_session}

-- The rows that the join finds for a session; each reference is to a primary key.
pub record Placement : Type 0 where
  pub assignment : Assignment
  pub task : Task
  pub template : TaskTemplate
  pub project : Project

abbrev pub find_assignment : String → Db → Option Assignment
find_assignment id db = find (λ a. a.id == id) db.assignments

abbrev and_then : {A B : Type 0} → Option A → (A → Option B) → Option B
and_then none f = none
and_then (some a) f = f a

-- JOIN assignments a ON a.id=s.assignment_id JOIN tasks t ON t.id=a.task_id
-- JOIN task_templates tt ON tt.id=t.template_id JOIN projects p ON p.id=tt.project_id
unfoldable pub placement : Db → SessionRow → Option Placement
placement db s = and_then (find_assignment s.assignment_id db) λ a.
    and_then (find (λ t. t.id == a.task_id) db.tasks) λ t.
      and_then (find (λ u. u.id == t.template_id) db.templates) λ u.
        and_then (find (λ p. p.id == u.project_id) db.projects)
          λ p. some (record { assignment = a; task = t; template = u; project = p })

-- The session and the organization of its project: the query that both erasure requests start with.
unfoldable pub session_and_organization : String → Tx (SessionRow × String)
session_and_organization session_id = do
  session ← row (find_session session_id) not_found
  placed ← row (λ db. placement db session) not_found
  pure (session, placed.project.organization_id)
