-- ===== src/Examples/Redacting.antt =====
-- The theorems on redactions at a concrete session.
use data_trains.Base.{
  ◌≤◌, String, some, [], ◌∷◌, ◌≡◌, refl, true, false, ◌==◌, length, All, sort_by,
}
use mathlib.Core.List.{Perm}
use data_trains.Base.Sort.{IsSorted}
use data_trains.Domain.State.{SessionState-discrete, accepted}
use data_trains.Domain.Model.{Time, RedactionJob, is_queued, is_leased}
use data_trains.Table.{find, first_by, exists, update_where}
use data_trains.Db.{Db, ReviewRow, RedactionPlanRow, after}
use data_trains.Redaction.Document.{
  canonical_redaction_document, validate_segments, validate_segment, validate_regions,
  validate_redaction_region, is_segment_id, seen, by_source_key,
}
use data_trains.Redaction.Document.Canonical.{canonical_redaction_document-ok, IsSegment, IsUnique}
use data_trains.Redaction.Plans.{create_redaction_plan, new_redaction_job, has_pending_deletion}
use data_trains.Redaction.Jobs.{
  claim_redaction_job, complete_redaction_job, redactable, lease_redaction, find_redaction_job,
  complete_redaction, manifest_key,
}
use data_trains.Redaction.Jobs.Gates.{complete_redaction_job-ok}
use data_trains.Pipeline.Outcome.{owner}
use data_trains.Examples.Data.{db_at, collate, hundredths, plain, redactions}

canonical_redaction_document-ok_example :
    (redactions.schema_version ≡ "redaction/v1")
    × (1 ≤ length redactions.segments)
    × (length redactions.segments ≤ 1000)
    × All (IsSegment hundredths "s1") redactions.segments
    × IsUnique hundredths [] redactions.segments
    × Perm redactions.segments redactions.segments
    × IsSorted (by_source_key hundredths) redactions.segments
unfolding canonical_redaction_document validate_segments validate_segment validate_regions
    validate_redaction_region is_segment_id seen sort_by
canonical_redaction_document-ok_example =
    canonical_redaction_document-ok hundredths redactions redactions "s1" refl

abbrev passed : ReviewRow
passed = record {
  id = "q1";
  session_id = "s1";
  reviewer_id = "v1";
  rubric_version = "1";
  scores = "{}";
  comments = "";
  decision = "accepted";
  pii_review = "passed";
  created_at = 20;
}

abbrev accepted_db : Db
accepted_db = record (db_at accepted) { reviews = passed ∷ [] }

abbrev planned_db : Db
planned_db =
    after
      (create_redaction_plan hundredths plain collate redactions "s1" "v1" "v1" ("p2", "rj2") "r3"
        30)
      accepted_db

abbrev plan : RedactionPlanRow
plan = record {
  id = "p2";
  session_id = "s1";
  reviewer_id = "v1";
  version = 1;
  document = "redaction/v1";
  segment_ids = "seg-1" ∷ [];
  document_hash = "redaction/v1";
  request_id = "r3";
  created_at = 30;
}

abbrev job : RedactionJob
job = new_redaction_job "rj2" "p2" "s1" 30

-- Two jobs wait for the accepted session.
abbrev waiting_db : Db
waiting_db = record accepted_db { redaction_jobs = job ∷ new_redaction_job "rj4" "p4" "s1" 31 ∷ [] }

abbrev leased_job : RedactionJob
leased_job = lease_redaction 1 "w1" 140 40 job

abbrev leased_db : Db
leased_db = after (claim_redaction_job collate "w1" 100 40) waiting_db

abbrev manifest : String
manifest = "derived/sessions/s1/redactions/p2/manifest.json"

complete_redaction_job-ok_example :
    (j : RedactionJob) × (find_redaction_job "rj2" leased_db ≡ some j)
    × (is_leased j.state ≡ true)
    × ((owner j.leased_by == "w1") ≡ true)
    × (manifest ≡ manifest_key j.session_id j.plan_id)
    × ((after (complete_redaction_job "rj2" "w1" manifest 60) leased_db).redaction_jobs
        ≡ update_where
            (λ k. k.id == "rj2")
            (complete_redaction manifest 60)
            leased_db.redaction_jobs)
    × ((later : Time) → redactable later (complete_redaction manifest 60 j) ≡ false)
unfolding claim_redaction_job complete_redaction_job find first_by exists update_where after
    SessionState-discrete redactable is_queued is_leased has_pending_deletion
complete_redaction_job-ok_example =
    complete_redaction_job-ok "rj2" "w1" manifest 60 leased_db _ refl
