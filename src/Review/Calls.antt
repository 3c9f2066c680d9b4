-- ===== src/Review/Calls.antt =====
-- The operations of services/api/internal/database/review.go that write claims, as calls.
pub mod Reserved
use data_trains.Base.{ℕ, String, Bool, List, [], ◌∷◌}
use data_trains.Domain.Model.{Time}
use data_trains.Db.{Db, after}
use data_trains.Redaction.Document.{Floats}
use data_trains.Redaction.Plans.{Encoding}
use data_trains.Review.Claims.{claim_review, release_review}
use data_trains.Review.Submission.{Review, ReviewIds, submit_review}

pub data ReviewCall (N : Type 0) : Type 0 where
  claim : (session_id reviewer_id actor request_id : String) (lease : ℕ) (now : Time) → ReviewCall N
  release : (session_id reviewer_id actor request_id : String) (now : Time) → ReviewCall N
  review :
      (given : Review N) (ids : ReviewIds) (actor request_id : String) (now : Time) → ReviewCall N

module _ {N : Type 0} (f : Floats N) (encoding : Encoding N) (collate : String → String → Bool)
    (valid_scores : String → Bool) where
  -- A call that fails leaves the database as it was.
  unfoldable pub run_review : ReviewCall N → Db → Db
  unfolding after
  run_review (claim s v actor request lease now) = after (claim_review s v actor request lease now)
  run_review (release s v actor request now) = after (release_review s v actor request now)
  run_review (review given ids actor request now) =
      after (submit_review f encoding collate valid_scores given ids actor request now)

  -- A history, the first call first.
  unfoldable pub run_reviews : List (ReviewCall N) → Db → Db
  unfolding run_review
  run_reviews [] db = db
  run_reviews (c ∷ cs) db = run_reviews cs (run_review c db)
