-- ===== src/Pipeline/Jobs/Submission.antt =====
-- What a submission does.
use mathlib.Core.List.{Memᴰ}
use data_trains.Base.{ap, ◌∙◌, eq_iff, leb, ◌+++◌, ◌&&◌, String, true, ◌==◌, some, ◌≡◌, arith}
use data_trains.Domain.State.{uploading, submitted}
use data_trains.Domain.Errors.{ok}
use data_trains.Domain.Model.{Time, Artifact, ProcessingJob, is_queued, is_leased}
use data_trains.Domain.Session.{Session}
use data_trains.Table.{insert, update_where}
use data_trains.Db.{Db, SessionRow, find_session}
use data_trains.Table.Laws.{find-some, exists-Mem}
use data_trains.Pipeline.Lease.{claimable}
use data_trains.Pipeline.Jobs.{submit_session, has_required_artifacts, new_job}

submit_session-raw :
    (session_id job_id actor request_id : String) (now : Time) (db db' : Db) (s : Session)
    (job : ProcessingJob)
    → submit_session session_id job_id actor request_id now db ≡ ok ((s, job), db')
    → (r : SessionRow) × (find_session session_id db ≡ some r)
      × (r.state ≡ uploading)
      × (has_required_artifacts session_id db ≡ true)
      × (job ≡ new_job job_id r.id now)
      × (s.state ≡ submitted)
      × (db'.jobs ≡ insert job db.jobs)
      × (db'.sessions
          ≡ update_where
              (λ q. q.id == r.id)
              (λ q. record q { state = submitted; updated_at = now })
              db.sessions)
unfolding submit_session
submit_session-raw session_id job_id actor request_id now db db' s job h = ground arith

-- The three artifacts that a submission needs.
abbrev pub Required : String → Db → Type 0
Required session_id db =
    (a : Artifact) × Memᴰ a db.artifacts
    × (a.session_id ≡ session_id)
    × (a.key ≡ "raw/sessions/" +++ session_id +++ "/trajectory.json")
    × (v : Artifact) × Memᴰ v db.artifacts
    × (v.session_id ≡ session_id)
    × (v.media_type ≡ "video/mp4")
    × (e : Artifact) × Memᴰ e db.artifacts
    × (e.session_id ≡ session_id)
    × (e.media_type ≡ "application/x-ndjson")

both : (a b c d : String) → (a == b && c == d) ≡ true → (a ≡ b) × (c ≡ d)
both a b c d h = (ground (arith, eq_iff a b), ground (arith, eq_iff c d))

has_required_artifacts-Required :
    (session_id : String) (db : Db)
    → has_required_artifacts session_id db ≡ true
    → Required session_id db
unfolding has_required_artifacts
has_required_artifacts-Required session_id db h =
    let key = "raw/sessions/" +++ session_id +++ "/trajectory.json" in
    let a =
      exists-Mem (λ (a : Artifact). a.session_id == session_id && a.key == key) db.artifacts
        (ground arith) in
    let v =
      exists-Mem (λ (a : Artifact). a.session_id == session_id && a.media_type == "video/mp4")
        db.artifacts (ground arith) in
    let e =
      exists-Mem
        (λ (a : Artifact). a.session_id == session_id && a.media_type == "application/x-ndjson")
        db.artifacts (ground arith) in
    let p = both a.0.session_id session_id a.0.key key a.2 in
    let q = both v.0.session_id session_id v.0.media_type "video/mp4" v.2 in
    let r = both e.0.session_id session_id e.0.media_type "application/x-ndjson" e.2 in
    (a.0, a.1, p.0, p.1, v.0, v.1, q.0, q.1, e.0, e.1, r.0, r.1)

new_job-claimable :
    (t now : Time) (job_id session_id : String)
    → claimable t (new_job job_id session_id now) ≡ leb now t
unfolding claimable is_queued is_leased
new_job-claimable t now job_id session_id = ground arith

-- A submission that succeeds found the session uploading and a trajectory, a
-- video and an event file registered for it; it leaves the session submitted and adds one job, for
-- this session, without an attempt, that can be claimed from now on.
pub submit_session-ok :
    (session_id job_id actor request_id : String) (now : Time) (db db' : Db) (s : Session)
    (job : ProcessingJob)
    → submit_session session_id job_id actor request_id now db ≡ ok ((s, job), db')
    → (r : SessionRow) × (find_session session_id db ≡ some r)
      × (r.state ≡ uploading)
      × Required session_id db
      × (job.id ≡ job_id)
      × (job.session_id ≡ session_id)
      × (job.attempt ≡ 0)
      × ((t : Time) → claimable t job ≡ leb now t)
      × (s.state ≡ submitted)
      × (db'.jobs ≡ insert job db.jobs)
      × (db'.sessions
          ≡ update_where
              (λ q. q.id == r.id)
              (λ q. record q { state = submitted; updated_at = now })
              db.sessions)
submit_session-ok session_id job_id actor request_id now db db' s job h =
    let a = submit_session-raw session_id job_id actor request_id now db db' s job h in
    let same : a.0.id ≡ session_id =
      (eq_iff a.0.id session_id).0 (find-some (λ q. q.id == session_id) db.sessions a.0 a.1) in
    (
      a.0,
      a.1,
      a.2,
      has_required_artifacts-Required session_id db a.3,
      ap (λ j. j.id) a.4,
      ap (λ j. j.session_id) a.4 ∙ same,
      ap (λ j. j.attempt) a.4,
      λ t. ap (claimable t) a.4 ∙ new_job-claimable t now job_id a.0.id,
      a.5,
      a.6,
      a.7,
    )
