-- ===== src/Retention/Worker/Completed.antt =====
-- What a completed purge leaves of its resource
-- (services/api/internal/database/retention_expiry.go).
use data_trains.Base.{
  String, Bool, true, false, ◌&&◌, ◌==◌, ◌≡◌, refl, arith, some, List, [], ◌∷◌, if◌then◌else◌,
}
use data_trains.Domain.Errors.{ok, not_found}
use data_trains.Domain.Model.{Time, is_leased}
use data_trains.Table.{exists, update_where}
use data_trains.Db.{
  Db, ReleaseRow, ResourceType, session_raw, session_derived, release, RetentionPurge, row-ok,
}
use data_trains.Pipeline.Outcome.{owner}
use data_trains.Erasure.Requests.{is_unpurged}
use data_trains.Retention.Expiry.{
  has_artifacts, is_kept_result, is_kept_redaction, is_resource_held,
}
use data_trains.Retention.Worker.{
  complete_retention_purge, find_purge, complete_purge, mark_purged, purge_artifact, purge_result,
  purge_redaction, purge_release,
}

-- No row of the resource says that its objects are still there.
abbrev pub IsPurged : ResourceType → String → Db → Type 0
IsPurged session_raw id db = has_artifacts id db ≡ false
IsPurged session_derived id db =
    (exists (is_kept_result id) db.results ≡ false)
    × (exists (is_kept_redaction id) db.redaction_jobs ≡ false)
IsPurged release id db =
    exists (λ (r : ReleaseRow). r.id == id && is_unpurged r.purged_at) db.releases ≡ false

exists-update :
    {R : Type 0} (p q : R → Bool) (f : R → R)
    → ((r : R) → q (if p r then f r else r) ≡ false)
    → (rs : List R) → exists q (update_where p f rs) ≡ false
unfolding exists update_where
exists-update p q f k [] = refl
exists-update p q f k (r ∷ rs) = ground (arith, k r, exists-update p q f k rs)

mark_purged-IsPurged :
    (kind : ResourceType) (id : String) (now : Time) (db : Db)
    → IsPurged kind id (mark_purged kind id now db)
unfolding mark_purged is_unpurged is_kept_result is_kept_redaction
mark_purged-IsPurged session_raw id now db =
    exists-update _ _ (purge_artifact now) (λ r. ground arith) db.artifacts
mark_purged-IsPurged session_derived id now db = (
  exists-update _ _ (purge_result now) (λ r. ground arith) db.results,
  exists-update _ _ (purge_redaction now) (λ r. ground arith) db.redaction_jobs,
)
mark_purged-IsPurged release id now db =
    exists-update _ _ (purge_release now) (λ r. ground arith) db.releases

IsPurged-same :
    (kind : ResourceType) (id : String) (db db' : Db)
    → db'.artifacts ≡ db.artifacts
    → db'.results ≡ db.results
    → db'.redaction_jobs ≡ db.redaction_jobs
    → db'.releases ≡ db.releases
    → IsPurged kind id db
    → IsPurged kind id db'
IsPurged-same session_raw id db db' a r j l p = ground arith
IsPurged-same session_derived id db db' a r j l p = ground arith
IsPurged-same release id db db' a r j l p = ground arith

-- The other tables stay as they were.
pub mark_purged-tables :
    (kind : ResourceType) (id : String) (now : Time) (db : Db)
    → ((mark_purged kind id now db).sessions ≡ db.sessions)
      × ((mark_purged kind id now db).holds ≡ db.holds)
      × ((mark_purged kind id now db).purges ≡ db.purges)
unfolding mark_purged
mark_purged-tables session_raw id now db = (refl, refl, refl)
mark_purged-tables session_derived id now db = (refl, refl, refl)
mark_purged-tables release id now db = (refl, refl, refl)

module _ (request_id worker_id : String) (now : Time) where
  -- A purge that is completed was leased to the worker, and its resource was under no legal hold.
  -- It leaves the request completed and, of the resource, no row that says that its objects are
  -- still there; the sessions and the holds stay as they were.
  pub complete_retention_purge-ok :
      (db db' : Db)
      → complete_retention_purge request_id worker_id now db ≡ ok (tt, db')
      → (q : RetentionPurge) × (find_purge request_id db ≡ some q)
        × (is_leased q.state ≡ true)
        × ((owner q.leased_by == worker_id) ≡ true)
        × (is_resource_held q.resource_type q.resource_id db ≡ false)
        × IsPurged q.resource_type q.resource_id db'
        × (db'.purges ≡ update_where (λ r. r.id == request_id) (complete_purge now) db.purges)
        × (db'.sessions ≡ db.sessions)
        × (db'.holds ≡ db.holds)
  unfolding complete_retention_purge
  complete_retention_purge-ok db db' h =
      let a = row-ok db (tt, db') (find_purge request_id) not_found _ h in
      let purged = mark_purged-IsPurged a.0.resource_type a.0.resource_id now db in
      let tables = mark_purged-tables a.0.resource_type a.0.resource_id now db in
      (
        a.0,
        a.1,
        ground arith,
        ground arith,
        ground arith,
        IsPurged-same a.0.resource_type a.0.resource_id
            (mark_purged a.0.resource_type a.0.resource_id now db) db' (ground arith) (ground arith)
            (ground arith) (ground arith) purged,
        ground arith,
        ground arith,
        ground arith,
      )
