-- ===== src/Review/Claims.antt =====
-- The review queue and exclusive claims (services/api/internal/database/review.go).
pub mod Exclusive
use data_trains.Base.{
  ℕ, ◌+◌, ◌*◌, String, Bool, true, false, not, ◌&&◌, ◌||◌, ◌==◌, ltb, leb, eqb, Option, none, some,
  List, [], ◌∷◌, ◌+++◌, if◌then◌else◌, take, sort_by, map,
}
use data_trains.Domain.State.{SessionState, ready_for_review, state_eq}
use data_trains.Domain.Errors.{message, not_found, wrong_state, review_claimed, review_lease}
use data_trains.Domain.Model.{Time, ReviewClaim, ValidationResult, text, number}
use data_trains.Table.{find, exists, select, insert, update_where, delete_where}
use data_trains.Db.{
  Db, Tx, SessionRow, pure, ◌>>=◌, ◌>>◌, raise, fail_if, fetch, row, write, insert_audit,
  find_session,
}
use mathlib.Core.List.{flat_map}
use data_trains.Store.Joins.{Placement, placement}
use data_trains.Store.Catalog.{event}

abbrev pub minute : ℕ
minute = 60 * 1000000000

abbrev pub find_claim : String → Db → Option ReviewClaim
find_claim session_id db = find (λ c. c.session_id == session_id) db.claims

-- An entry of the review queue.
pub record ReviewQueueItem : Type 0 where
  pub session_id : String
  pub task_id : String
  pub goal : String
  pub category : String
  pub difficulty : String
  pub contributor_id : String
  pub normalized_key : String
  pub ready_since : Time

abbrev queue_item : SessionRow → Placement → ValidationResult → ReviewQueueItem
queue_item s p r = record {
  session_id = s.id;
  task_id = p.task.id;
  goal = p.task.goal;
  category = p.template.category;
  difficulty = p.template.difficulty;
  contributor_id = p.assignment.contributor_id;
  normalized_key = r.normalized_key;
  ready_since = s.updated_at;
}

-- $3::text[] IS NULL OR p.organization_id=ANY($3)
in_organizations : Option (List String) → String → Bool
in_organizations none id = true
in_organizations (some ids) id = is_one_of ids
  where
    is_one_of : List String → Bool
    is_one_of [] = false
    is_one_of (i ∷ is) = i == id || is_one_of is

-- s.state='READY_FOR_REVIEW' AND rc.session_id IS NULL: no claim on the session is live.
waits_for_review : Time → Db → SessionRow → Bool
waits_for_review now db s =
    state_eq s.state ready_for_review
    && not (exists (λ c. c.session_id == s.id && ltb now c.expires_at) db.claims)

-- The rows of the join for one session: one for each of its valid results.
queue_items : Option (List String) → Db → SessionRow → List ReviewQueueItem
unfolding placement in_organizations
queue_items organizations db s = elim (placement db s) [
  | none ↦ []
  | some p ↦
      if in_organizations organizations p.project.organization_id
      then map (queue_item s p) (select (λ r. r.session_id == s.id && r.valid) db.results)
      else []
]

-- ORDER BY s.updated_at, s.id
abbrev oldest : (String → String → Bool) → ReviewQueueItem → ReviewQueueItem → Bool
oldest collate s t =
    ltb s.ready_since t.ready_since
    || (eqb s.ready_since t.ready_since && collate s.session_id t.session_id)

-- `listReviewQueue`
list_review_queue :
    (String → String → Bool) → Time → ℕ → Option (List String) → Tx (List ReviewQueueItem)
unfolding waits_for_review queue_items
list_review_queue collate now limit organizations = do
  fail_if (ltb limit 1 || ltb 200 limit) (message "review queue limit must be between 1 and 200")
  fetch (λ db. take limit (
      sort_by (oldest collate)
        (flat_map (queue_items organizations db) (select (waits_for_review now db) db.sessions))))

-- The ON CONFLICT clause: a claim that is there gives way if it has expired or is the reviewer's.
pub upsert_claim : ReviewClaim → Option ReviewClaim → Tx (Unit {0})
upsert_claim claim none = write (λ db. record db { claims = insert claim db.claims })
upsert_claim claim (some old) =
    if leb old.expires_at claim.claimed_at || old.reviewer_id == claim.reviewer_id
    then write (λ db. record db {
      claims = update_where (λ c. c.session_id == claim.session_id) (λ _. claim) db.claims;
    })
    else raise review_claimed

-- `ClaimReview`
unfoldable pub claim_review : String → String → String → String → ℕ → Time → Tx ReviewClaim
unfolding upsert_claim insert_audit
claim_review session_id reviewer_id actor request_id lease now = do
  fail_if
      (session_id == ""
        || reviewer_id == ""
        || not (actor == reviewer_id)
        || ltb lease minute
        || ltb (480 * minute) lease)
      (message "reviewer must claim for themselves with a lease between one minute and eight hours")
  session ← row (find_session session_id) not_found
  fail_if (not (state_eq session.state ready_for_review)) (wrong_state session.state)
  let claim : ReviewClaim = record {
    session_id = session_id;
    reviewer_id = reviewer_id;
    claimed_at = now;
    expires_at = now + lease;
  }
  old ← fetch (find_claim session_id)
  upsert_claim claim old
  insert_audit (
      event actor "review.claimed" ("session/" +++ session_id) now request_id
        (("reviewer_id", text reviewer_id) ∷ ("expires_at", number claim.expires_at) ∷ []))
  pure claim

-- DELETE FROM review_claims WHERE session_id=$1
abbrev pub delete_claim : String → Tx (Unit {0})
delete_claim session_id =
    write (λ db. record db { claims = delete_where (λ c. c.session_id == session_id) db.claims })

-- `ReleaseReview`
unfoldable pub release_review : String → String → String → String → Time → Tx (Unit {0})
unfolding insert_audit
release_review session_id reviewer_id actor request_id now = do
  fail_if (session_id == "" || reviewer_id == "" || not (actor == reviewer_id))
      (message "reviewer must release their own claim")
  claim ← row (find_claim session_id) review_lease
  fail_if (not (claim.reviewer_id == reviewer_id)) review_lease
  delete_claim session_id
  insert_audit (
      event actor "review.released" ("session/" +++ session_id) now request_id
        (("reviewer_id", text reviewer_id) ∷ []))
