-- ===== src/Redaction/Plans/Repeat.antt =====
-- A redaction plan is made once for a request (services/api/internal/database/redaction.go).
use data_trains.Base.{
  ◌+◌, String, Bool, true, false, ◌&&◌, ◌==◌, some, ◌≡◌, arith, eq_refl, inl, inr, map,
}
use data_trains.Domain.State.{accepted, SessionState-discrete}
use data_trains.Domain.Errors.{Result-cases, ok, not_found}
use data_trains.Domain.Model.{Time, RedactionJob}
use data_trains.Table.{exists}
use data_trains.Table.Laws.{exists-false-find, find-insert_self}
use data_trains.Db.{Db, SessionRow, RedactionPlanRow, find_session, row-ok}
use data_trains.Redaction.Document.{Floats, RedactionDocument}
use data_trains.Redaction.Plans.{
  Encoding, create_plan, insert_plan, plan_by_request, Plan, has_pending_deletion, covers_videos,
  video_keys, latest_version,
}

insert_plan-ok :
    (plan : RedactionPlanRow) (job_id actor : String) (now : Time) (db db' : Db)
    (job : RedactionJob)
    → insert_plan plan job_id actor now db ≡ ok (job, db')
    → plan_by_request plan.session_id plan.request_id db' ≡ some (plan, job)
unfolding insert_plan plan_by_request
insert_plan-ok plan job_id actor now db db' job h = ground (
  arith,
  eq_refl plan.session_id,
  eq_refl plan.request_id,
  eq_refl plan.id,
  exists-false-find
      (λ (p : RedactionPlanRow). p.session_id == plan.session_id && p.request_id == plan.request_id)
      db.plans,
  find-insert_self
      (λ (p : RedactionPlanRow). p.session_id == plan.session_id && p.request_id == plan.request_id)
      plan db.plans,
  exists-false-find (λ (j : RedactionJob). j.plan_id == plan.id) db.redaction_jobs,
  find-insert_self (λ (j : RedactionJob). j.plan_id == plan.id) job db.redaction_jobs,
)

module _ {N : Type 0} (f : Floats N) (encoding : Encoding N)
    (collate : String → String → Bool) where
  -- A plan that is made anew is for an accepted session that has an accepting review with a passed PII
  -- review and no deletion that is not completed, and it decides on exactly the session's videos.
  -- It carries the digest of the canonical document, and the request finds it and its job.
  pub create_plan-ok :
      (document canonical : RedactionDocument N) (session_id reviewer_id : String)
      (ids : String × String) (request_id : String) (now : Time) (db db' : Db) (plan : Plan N)
      (job : RedactionJob)
      → create_plan f encoding collate document canonical session_id reviewer_id ids request_id now
          db
        ≡ ok ((plan, job), db')
      → (plan_by_request session_id request_id db' ≡ some (plan.columns, job))
        × (plan.columns.document ≡ encoding.marshal canonical)
        × (plan.columns.document_hash ≡ encoding.sha256 (encoding.marshal canonical))
        × (plan.columns.reviewer_id ≡ reviewer_id)
        × (r : SessionRow) × (find_session session_id db ≡ some r)
        × (r.state ≡ accepted)
        × (exists
              (λ q.
                q.session_id == session_id && q.decision == "accepted" && q.pii_review == "passed")
              db.reviews
            ≡ true)
        × (has_pending_deletion session_id db ≡ false)
        × (covers_videos (video_keys collate session_id db) document.segments ≡ true)
  unfolding create_plan SessionState-discrete
  create_plan-ok document canonical session_id reviewer_id ids request_id now db db' plan job h =
      let row : RedactionPlanRow = record {
        id = ids.0;
        session_id = session_id;
        reviewer_id = reviewer_id;
        version = latest_version session_id db.plans + 1;
        document = encoding.marshal canonical;
        segment_ids = map (λ s. s.segment_id) canonical.segments;
        document_hash = encoding.sha256 (encoding.marshal canonical);
        request_id = request_id;
        created_at = now;
      } in
      let a = row-ok db ((plan, job), db') (find_session session_id) not_found _ h in
      elim (Result-cases (insert_plan row ids.1 reviewer_id now db)) [
        | inl ((made, after), e) ↦
            let kept = insert_plan-ok row ids.1 reviewer_id now db after made e in
            (
              ground arith,
              ground arith,
              ground arith,
              ground arith,
              a.0,
              a.1,
              ground arith,
              ground arith,
              ground arith,
              ground arith,
            )
        | inr (x, e) ↦ ground arith
      ]
