-- ===== src/Examples/Reviewing.antt =====
-- The theorems on reviews and redactions at concrete sessions.
use data_trains.Base.{List, [], ◌∷◌, arith, ◌*◌, ◌+◌, ◌<◌, ℕ, none, some, ◌≡◌, refl, true, sort_by}
use data_trains.Domain.State.{SessionState-discrete, accepted, ready_for_review, allowed_transition}
use data_trains.Domain.Model.{ReviewClaim}
use data_trains.Table.{find, exists, update_where, select, delete_where}
use data_trains.Db.{Db, SessionRow, find_session, after}
use data_trains.Redaction.Document.{
  canonical_redaction_document, validate_segments, validate_segment, validate_regions,
  validate_redaction_region, is_segment_id, seen,
}
use data_trains.Redaction.Plans.{
  has_pending_deletion, covers_videos, video_keys, latest_version, insert_plan,
}
use data_trains.Review.Claims.{release_review, claim_review, find_claim, minute}
use data_trains.Review.Submission.{
  Review, ReviewIds, submit_review, check_review, check_document, claimed_session, move_session,
  settle_review, decision_state,
}
use data_trains.Review.Submission.Gate.{IsDecided, submit_review-ok}
use data_trains.Review.Calls.{ReviewCall, claim, release, run_review, run_reviews}
use data_trains.Review.Calls.Reserved.{claim_review-exclusive, yields}
use data_trains.Examples.Data.{db_at, collate, hundredths, plain, redactions}

abbrev claimed_db : Db
claimed_db = after (claim_review "s1" "v1" "v1" "r1" (30 * minute) 10) (db_at ready_for_review)

abbrev given_claim : ReviewClaim
given_claim = record {
  session_id = "s1";
  reviewer_id = "v1";
  claimed_at = 10;
  expires_at = 10 + 30 * minute;
}

-- Another reviewer asks for the session, and asks to release it.
abbrev attempts : List (ReviewCall ℕ)
attempts = claim "s1" "v2" "v2" "r2" (30 * minute) 15 ∷ release "s1" "v2" "v2" "r3" 16 ∷ []

claim_review-exclusive_example : given_claim.reviewer_id ≡ "v1"
unfolding claim_review find after SessionState-discrete update_where yields run_reviews run_review
    release_review
claim_review-exclusive_example =
    claim_review-exclusive hundredths plain collate (λ _. true) "s1" "v1" "v1" "r1" "v1" "v1" "r4"
      (30 * minute) (30 * minute) 10 20 (db_at ready_for_review) claimed_db _ given_claim _ attempts
      refl (refl, (refl, tt)) (omega arith) refl

abbrev acceptance : Review ℕ
acceptance = record {
  session_id = "s1";
  reviewer_id = "v1";
  rubric_version = "1";
  scores = "{}";
  comments = "";
  decision = "accepted";
  pii_review = "passed";
  redaction_document = some redactions;
}

abbrev ids : ReviewIds
ids = record { review = "q1"; plan = "p1"; job = "rj1"; rework = "s9" }

abbrev reviewed_db : Db
reviewed_db =
    after (submit_review hundredths plain collate (λ _. true) acceptance ids "v1" "r2" 20)
      claimed_db

submit_review-ok_example :
    (t : SessionRow) × (find_session "s1" reviewed_db ≡ some t)
    × IsDecided "accepted" t.state
    × (acceptance.session_id ≡ acceptance.session_id)
    × (accepted ≡ t.state)
    × (acceptance.decision ≡ "accepted" → acceptance.pii_review ≡ "passed")
    × (find_claim "s1" reviewed_db ≡ none)
    × (q : SessionRow) × (find_session "s1" claimed_db ≡ some q)
    × (q.state ≡ ready_for_review)
    × (c : ReviewClaim) × (find_claim "s1" claimed_db ≡ some c)
    × (c.reviewer_id ≡ "v1")
    × (acceptance.reviewer_id ≡ "v1")
    × (20 < c.expires_at)
unfolding submit_review check_review check_document claimed_session move_session settle_review
    decision_state claim_review find exists update_where select delete_where after
    SessionState-discrete allowed_transition canonical_redaction_document validate_segments
    validate_segment validate_regions validate_redaction_region is_segment_id seen
    has_pending_deletion covers_videos video_keys insert_plan latest_version sort_by
submit_review-ok_example =
    submit_review-ok hundredths plain collate (λ _. true) acceptance ids "v1" "r2" 20 claimed_db
      reviewed_db _ refl
