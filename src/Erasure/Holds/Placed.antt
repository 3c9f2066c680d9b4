-- ===== src/Erasure/Holds/Placed.antt =====
-- What a legal hold stops, and what its release sets free
-- (services/api/internal/database/erasure.go).
use data_trains.Base.{
  String, Bool, true, false, ◌&&◌, ◌==◌, some, List, [], ◌∷◌, ◌≡◌, ◌≢◌, refl, arith, inl, inr,
  eq_refl,
}
use data_trains.Domain.State.{deleted, SessionState-discrete}
use data_trains.Domain.Errors.{Result-cases, ok}
use data_trains.Domain.Model.{Time, LegalHold, DeletionRequest}
use data_trains.Table.{find, exists, insert, update_where}
use data_trains.Db.{Db, SessionRow, find_session}
use data_trains.Store.Joins.{session_and_organization}
use data_trains.Erasure.Holds.{
  place_legal_hold, release_legal_hold, holds_session, is_held, is_hold, is_being_erased,
  release_hold, unblock_deletion, is_blocked,
}

exists-insert :
    {R : Type 0} (p : R → Bool) (r : R) (rs : List R) → p r ≡ true → exists p (insert r rs) ≡ true
unfolding exists
exists-insert p r [] h = ground arith
exists-insert p r (q ∷ rs) h = ground (arith, exists-insert p r rs)

exists-update_self :
    {R : Type 0} (p : R → Bool) (f : R → R) (rs : List R)
    → ((r : R) → p (f r) ≡ false)
    → exists p (update_where p f rs) ≡ false
unfolding exists update_where
exists-update_self p f [] h = refl
exists-update_self p f (r ∷ rs) h = ground (arith, h r, exists-update_self p f rs)

pub session_and_organization-ok :
    (session_id : String) (db db' : Db) (found : SessionRow × String)
    → session_and_organization session_id db ≡ ok (found, db')
    → (db' ≡ db) × (find_session session_id db ≡ some found.0)
unfolding session_and_organization
session_and_organization-ok session_id db db' found h = ground arith

-- A hold that is placed is on a session that had none, that is not deleted and that no worker is
-- erasing; from then on the session is held. The sessions and the requests stay as they were.
pub place_legal_hold-ok :
    (session_id reason hold_id actor request_id : String) (now : Time) (db db' : Db) (k : LegalHold)
    → place_legal_hold session_id reason hold_id actor request_id now db ≡ ok (k, db')
    → (r : SessionRow) × (find_session session_id db ≡ some r)
      × (r.state ≢ deleted)
      × (is_held session_id db ≡ false)
      × (is_being_erased session_id db ≡ false)
      × (is_held session_id db' ≡ true)
      × (k.id ≡ hold_id)
      × (k.session_id ≡ session_id)
      × (db'.holds ≡ insert k db.holds)
      × (db'.sessions ≡ db.sessions)
      × (db'.deletions ≡ db.deletions)
unfolding place_legal_hold SessionState-discrete holds_session
place_legal_hold-ok session_id reason hold_id actor request_id now db db' k h =
    elim (Result-cases (session_and_organization session_id db)) [
      | inl ((found, db1), e) ↦
          let f = session_and_organization-ok session_id db db1 found e in
          (
            found.0,
            f.1,
            ground arith,
            ground arith,
            ground arith,
            ground (arith, eq_refl session_id, exists-insert (holds_session session_id) k db.holds),
            ground arith,
            ground arith,
            ground arith,
            ground arith,
            ground arith,
          )
      | inr (x, e) ↦ ground arith
    ]

-- The release of a hold finds it active on the session and marks exactly the rows of its
-- identifier and session as released; no deletion of the session is left blocked, and no session
-- changes.
pub release_legal_hold-ok :
    (session_id hold_id actor request_id : String) (now : Time) (db db' : Db)
    → release_legal_hold session_id hold_id actor request_id now db ≡ ok (tt, db')
    → (k : LegalHold) × (find (is_hold session_id hold_id) db.holds ≡ some k)
      × (db'.holds ≡ update_where (is_hold session_id hold_id) (release_hold actor now) db.holds)
      × (exists (λ d. d.session_id == session_id && is_blocked d.state) db'.deletions ≡ false)
      × (db'.sessions ≡ db.sessions)
unfolding release_legal_hold
release_legal_hold-ok session_id hold_id actor request_id now db db' h = ground (
  arith,
  exists-update_self (λ (d : DeletionRequest). d.session_id == session_id && is_blocked d.state)
      (unblock_deletion now) db.deletions,
)
