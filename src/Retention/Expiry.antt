-- ===== src/Retention/Expiry.antt =====
-- What has expired (the queries of services/api/internal/database/retention_expiry.go).
use data_trains.Base.{
  ℕ, ◌+◌, ◌*◌, String, Bool, true, false, ◌&&◌, ◌==◌, ltb, leb, eqb, Option, none, some, List, [],
  ◌∷◌, if◌then◌else◌,
}
use data_trains.Domain.State.{
  SessionState, accepted, released, failed, rejected, rework_required, cancelled,
}
use data_trains.Domain.Model.{Time, JobState, completed, ValidationResult, RedactionJob}
use data_trains.Table.{exists}
use data_trains.Db.{
  Db, SessionRow, ReleaseRow, ResourceType, session_raw, session_derived, release, RetentionPolicy,
}
use data_trains.Store.Joins.{placement}
use data_trains.Erasure.Holds.{is_held, holds_session}
use data_trains.Erasure.Requests.{is_unpurged}
use data_trains.Retention.Policy.{find_policy}
use data_trains.Table.{find}

-- `interval '1 day'`, in nanoseconds; the sessions of the database are in UTC.
abbrev pub day : ℕ
day = 86400000000000

-- `t <= now - days * interval '1 day'`
unfoldable pub has_aged : ℕ → Time → Time → Bool
has_aged days now t = leb (t + days * day) now

-- The time 'epoch', since Go's zero time.
abbrev pub epoch : Time
epoch = 62135596800000000000

unfoldable pub is_completed : JobState → Bool
is_completed completed = true
is_completed _ = false

-- The states in which the raw data of a session expires.
unfoldable pub raw_state : SessionState → Bool
raw_state accepted = true
raw_state released = true
raw_state failed = true
raw_state rejected = true
raw_state rework_required = true
raw_state cancelled = true
raw_state _ = false

-- The states in which the derived data of a session expires: an accepted session keeps it.
unfoldable pub derived_state : SessionState → Bool
derived_state released = true
derived_state failed = true
derived_state rejected = true
derived_state rework_required = true
derived_state cancelled = true
derived_state _ = false

-- The policy of the organization whose project the session is in.
unfoldable pub policy_of : Db → SessionRow → Option RetentionPolicy
unfolding placement
policy_of db s = elim (placement db s) [
  | none ↦ none
  | some placed ↦ find_policy placed.project.organization_id db
]

unfoldable pub policy_of_release : Db → ReleaseRow → Option RetentionPolicy
policy_of_release db r = elim (find (λ p. p.id == r.project_id) db.projects) [
  | none ↦ none
  | some project ↦ find_policy project.organization_id db
]

-- session_id=$1 AND purged_at IS NULL
abbrev pub has_artifacts : String → Db → Bool
has_artifacts session_id db =
    exists (λ a. a.session_id == session_id && is_unpurged a.purged_at) db.artifacts

-- vr.session_id=s.id AND vr.valid AND vr.purged_at IS NULL
unfoldable pub is_kept_result : String → ValidationResult → Bool
unfolding is_unpurged
is_kept_result session_id r = r.session_id == session_id && r.valid && is_unpurged r.purged_at

-- session_id=$1 AND state='completed' AND purged_at IS NULL
unfoldable pub is_kept_redaction : String → RedactionJob → Bool
unfolding is_unpurged is_completed
is_kept_redaction session_id j =
    j.session_id == session_id && is_completed j.state && is_unpurged j.purged_at

abbrev max : Time → Time → Time
max a b = if ltb a b then b else a

finished : Option Time → Time
finished none = 0
finished (some t) = t

-- COALESCE((SELECT max(rj3.finished_at) …),'epoch')
unfoldable pub last_redaction : String → List RedactionJob → Time
unfolding is_kept_redaction finished
last_redaction session_id [] = 0
last_redaction session_id (j ∷ js) =
    let rest = last_redaction session_id js in
    if is_kept_redaction session_id j then max (finished j.finished_at) rest else rest

abbrev no_time : Time → Time
no_time t = if eqb t 0 then epoch else t

-- GREATEST(vr.created_at,s.updated_at,…)
unfoldable pub derived_anchor : Db → SessionRow → ValidationResult → Time
unfolding last_redaction
derived_anchor db s r =
    max (max r.created_at s.updated_at) (no_time (last_redaction s.id db.redaction_jobs))

-- A session of the release is under a legal hold.
unfoldable pub is_release_held : String → Db → Bool
unfolding holds_session
is_release_held release_id db =
    exists (λ r. r.release_id == release_id && is_held r.session_id db) db.release_sessions

-- A resource that a purge may be about, under a hold.
unfoldable pub is_resource_held : ResourceType → String → Db → Bool
unfolding is_release_held
is_resource_held session_raw id db = is_held id db
is_resource_held session_derived id db = is_held id db
is_resource_held release id db = is_release_held id db
