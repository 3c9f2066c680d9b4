-- ===== src/Erasure/Worker/Leases.antt =====
-- Who may erase a session (services/api/internal/database/erasure.go).
use data_trains.Base.{ℕ, ◌+◌, String, Bool, true, false, not, some, ◌≡◌, arith, if◌then◌else◌}
use data_trains.Domain.Errors.{ok}
use data_trains.Domain.Model.{Time, DeletionRequest, is_leased}
use data_trains.Table.{first_by}
use data_trains.Db.{Db, SessionRow, find_session}
use data_trains.Erasure.Holds.{is_held}
use data_trains.Erasure.Requests.{deletable_session_state}
use data_trains.Erasure.Worker.{
  claim_deletion_request, deletion_claimable, deletion_order, lease_deletion, block_deletion,
  refuse_deletion, state_changed,
}

module _ (collate : String → String → Bool) where
  -- A claim takes the first request that waits or whose lease has run out. The worker gets the
  -- lease if the session may still be deleted and no legal hold is on it; a held session blocks the
  -- request, and one whose state has changed dead-letters it.
  pub claim_deletion_request-ok :
      (worker_id : String) (duration : ℕ) (now : Time) (db db' : Db) (d : DeletionRequest)
      → claim_deletion_request collate worker_id duration now db ≡ ok (d, db')
      → (e : DeletionRequest) × (first_by
            (deletion_order collate)
            (deletion_claimable now)
            db.deletions
          ≡ some e)
        × (r : SessionRow) × (find_session e.session_id db ≡ some r)
        × (d ≡ (
            if not (deletable_session_state r.state)
            then refuse_deletion (state_changed r.state) e
            else if is_held e.session_id db
            then block_deletion e
            else lease_deletion worker_id (now + duration) e))
        × (db'.sessions ≡ db.sessions)
        × (db'.holds ≡ db.holds)
  unfolding claim_deletion_request
  claim_deletion_request-ok worker_id duration now db db' d h = ground arith

  -- No worker is given the lease of a session that is under a legal hold.
  pub claim_deletion_request-unheld :
      (worker_id : String) (duration : ℕ) (now : Time) (db db' : Db) (d : DeletionRequest)
      → claim_deletion_request collate worker_id duration now db ≡ ok (d, db')
      → is_leased d.state ≡ true
      → (is_held d.session_id db' ≡ false)
        × (d.leased_by ≡ some worker_id)
        × (d.lease_expires_at ≡ some (now + duration))
  unfolding is_leased
  claim_deletion_request-unheld worker_id duration now db db' d h l =
      let a = claim_deletion_request-ok worker_id duration now db db' d h in ground arith
