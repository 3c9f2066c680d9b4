-- ===== src/Review/Claims/Exclusive.antt =====
-- A session is reviewed by one reviewer at a time.
use data_trains.Base.{
  ℕ, ◌+◌, String, ◌==◌, Option, none, some, ◌≡◌, arith, eq_refl, inl, inr, Option-cases,
}
use data_trains.Domain.State.{ready_for_review}
use data_trains.Domain.Errors.{ok}
use data_trains.Domain.Model.{Time, ReviewClaim}
use data_trains.Table.{insert, update_where}
use data_trains.Table.Laws.{find-update_self, find-insert_self}
use data_trains.Db.{Db, SessionRow, find_session}
use data_trains.Review.Claims.{claim_review, upsert_claim, find_claim}

upsert_claim-find :
    (claim : ReviewClaim) (old : Option ReviewClaim) (db db' : Db)
    → find_claim claim.session_id db ≡ old
    → upsert_claim claim old db ≡ ok (tt, db')
    → find_claim claim.session_id db' ≡ some claim
unfolding upsert_claim
upsert_claim-find claim none db db' f h = ground (
  arith,
  eq_refl claim.session_id,
  find-insert_self (λ c. c.session_id == claim.session_id) claim db.claims,
)
upsert_claim-find claim (some old) db db' f h = ground (
  arith,
  eq_refl claim.session_id,
  find-update_self (λ c. c.session_id == claim.session_id) (λ _. claim) db.claims old,
)

-- A claim that succeeds is on a session that is ready for review; it is to the reviewer, ends
-- with the lease, and is the claim that the session has afterwards.
pub claim_review-ok :
    (session_id reviewer_id actor request_id : String) (lease : ℕ) (now : Time) (db db' : Db)
    (claim : ReviewClaim)
    → claim_review session_id reviewer_id actor request_id lease now db ≡ ok (claim, db')
    → (claim.session_id ≡ session_id)
      × (claim.reviewer_id ≡ reviewer_id)
      × (claim.expires_at ≡ now + lease)
      × (find_claim session_id db' ≡ some claim)
      × (r : SessionRow) × (find_session session_id db ≡ some r)
      × (r.state ≡ ready_for_review)
unfolding claim_review upsert_claim
claim_review-ok session_id reviewer_id actor request_id lease now db db' claim h =
    let c : ReviewClaim = record {
      session_id = session_id;
      reviewer_id = reviewer_id;
      claimed_at = now;
      expires_at = now + lease;
    } in
    elim (Option-cases (find_claim session_id db)) [
      | inl e ↦
          ground (arith, upsert_claim-find c none db (record db { claims = insert c db.claims }) e)
      | inr (o, e) ↦ ground (
        arith,
        upsert_claim-find c (some o) db
            (record db {
              claims = update_where (λ q. q.session_id == session_id) (λ _. c) db.claims;
            })
            e,
      )
    ]
