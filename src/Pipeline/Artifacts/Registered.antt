-- ===== src/Pipeline/Artifacts/Registered.antt =====
-- What the registration of an artifact writes (services/api/internal/database/pipeline.go).
use data_trains.Base.{String, ◌≡◌, arith, none, Option-cases, ◌⊎◌, inl, inr}
use data_trains.Domain.Errors.{ok}
use data_trains.Domain.Model.{Time, Artifact}
use data_trains.Table.{insert}
use data_trains.Db.{Db}
use data_trains.Pipeline.Artifacts.{register_artifact, find_artifact}

-- A registration writes to no session and to no hold; it leaves the artifacts as they were or adds
-- the given one under the new identifier.
pub register_artifact-ok :
    (a : Artifact) (new_id actor request_id : String) (now : Time) (db db' : Db) (b : Artifact)
    → register_artifact a new_id actor request_id now db ≡ ok (b, db')
    → (db'.sessions ≡ db.sessions)
      × (db'.holds ≡ db.holds)
      × ((db'.artifacts ≡ db.artifacts)
          ⊎ (db'.artifacts ≡ insert (record a { id = new_id; purged_at = none }) db.artifacts))
unfolding register_artifact
register_artifact-ok a new_id actor request_id now db db' b h =
    elim (Option-cases (find_artifact a.key db)) [
      | inl e ↦ ground arith
      | inr (o, e) ↦ ground arith
    ]
