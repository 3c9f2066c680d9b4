-- ===== src/Erasure/Worker/Erased.antt =====
-- What a completed deletion leaves of a session (services/api/internal/database/erasure.go).
use data_trains.Base.{String, Bool, true, false, ◌==◌, ◌&&◌, some, List, [], ◌∷◌, ◌≡◌, refl, arith}
use data_trains.Domain.Errors.{ok, not_found}
use data_trains.Domain.Model.{Time, DeletionRequest, is_leased}
use data_trains.Table.{exists, update_where}
use data_trains.Table.Laws.{exists-delete}
use data_trains.Db.{Db, row-ok}
use data_trains.Pipeline.Outcome.{owner}
use data_trains.Erasure.Holds.{is_held}
use data_trains.Erasure.Worker.{
  complete_deletion_request, find_deletion, complete_deletion, delete_session_row, erase_rows,
  is_part_of,
}

-- No row of the eight tables is left of the session, and no part of an upload that it had before.
pub record IsErased (session_id : String) (before db : Db) : Type 0 where
  pub no_claim : exists (λ c. c.session_id == session_id) db.claims ≡ false
  pub no_review : exists (λ r. r.session_id == session_id) db.reviews ≡ false
  pub no_result : exists (λ r. r.session_id == session_id) db.results ≡ false
  pub no_redaction_job : exists (λ j. j.session_id == session_id) db.redaction_jobs ≡ false
  pub no_plan : exists (λ p. p.session_id == session_id) db.plans ≡ false
  pub no_upload : exists (λ u. u.session_id == session_id) db.uploads ≡ false
  pub no_artifact : exists (λ a. a.session_id == session_id) db.artifacts ≡ false
  pub no_job : exists (λ j. j.session_id == session_id) db.jobs ≡ false
  pub no_part : exists (is_part_of session_id before.uploads) db.parts ≡ false

erase_rows-IsErased :
    (session_id : String) (db : Db) → IsErased session_id db (erase_rows session_id db)
unfolding erase_rows
erase_rows-IsErased session_id db = record {
  no_claim = exists-delete _ db.claims;
  no_review = exists-delete _ db.reviews;
  no_result = exists-delete _ db.results;
  no_redaction_job = exists-delete _ db.redaction_jobs;
  no_plan = exists-delete _ db.plans;
  no_upload = exists-delete _ db.uploads;
  no_artifact = exists-delete _ db.artifacts;
  no_job = exists-delete _ db.jobs;
  no_part = exists-delete _ db.parts;
}

exists_and :
    {R : Type 0} (p q : R → Bool) (rs : List R)
    → exists p rs ≡ false
    → exists (λ r. p r && q r) rs ≡ false
unfolding exists
exists_and p q [] h = refl
exists_and p q (r ∷ rs) h = ground (arith, exists_and p q rs)

-- A deletion that is completed was leased to the worker, and its session was under no legal hold.
-- It leaves the session's row as DELETED without a consent, no row of the session in the eight
-- tables of its data, and the request completed; the holds stay as they were.
pub complete_deletion_request-ok :
    (deletion_id worker_id : String) (now : Time) (db db' : Db)
    → complete_deletion_request deletion_id worker_id now db ≡ ok (tt, db')
    → (d : DeletionRequest) × (find_deletion deletion_id db ≡ some d)
      × (is_leased d.state ≡ true)
      × ((owner d.leased_by == worker_id) ≡ true)
      × (is_held d.session_id db ≡ false)
      × IsErased d.session_id db db'
      × (db'.sessions
          ≡ update_where (λ q. q.id == d.session_id) (delete_session_row now) db.sessions)
      × (db'.deletions
          ≡ update_where (λ e. e.id == deletion_id) (complete_deletion now) db.deletions)
      × (db'.holds ≡ db.holds)
unfolding complete_deletion_request
complete_deletion_request-ok deletion_id worker_id now db db' h =
    let a = row-ok db (tt, db') (find_deletion deletion_id) not_found _ h in
    let erased = erase_rows-IsErased a.0.session_id db in
    (
      a.0,
      a.1,
      ground arith,
      ground arith,
      ground arith,
      ground arith,
      ground arith,
      ground arith,
      ground arith,
    )
