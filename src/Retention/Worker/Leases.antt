-- ===== src/Retention/Worker/Leases.antt =====
-- Who may purge a resource (services/api/internal/database/retention_expiry.go).
use data_trains.Base.{
  ℕ, ◌+◌, ◌<◌, String, Bool, true, false, not, ◌||◌, ◌==◌, ◌≡◌, ◌≢◌, refl, sym, ◌∙◌, arith, some,
  List, [], ◌∷◌, if◌then◌else◌, All, eq_iff, eqb,
}
use data_trains.Domain.Errors.{ok}
use data_trains.Domain.Model.{Time, leased, blocked, cancelled, is_queued, is_leased}
use data_trains.Table.{first_by, update_where}
use data_trains.Table.Laws.{first_by-some, first_by-All}
use data_trains.Db.{Db, RetentionPurge, RetentionPolicy}
use data_trains.Retention.Policy.{find_policy}
use data_trains.Retention.Expiry.{is_resource_held}
use data_trains.Retention.Worker.{
  claim_retention_purge, purge_claimable, purge_order, is_still_eligible, lease_purge, end_purge,
}

module _ (collate : String → String → Bool) where
  -- A claim takes the first purge that waits or whose lease has run out. The worker gets its lease
  -- if the policy is the one that it was queued under, the resource is still eligible and no legal
  -- hold is on it; otherwise the purge is cancelled or, for the hold, blocked.
  pub claim_retention_purge-ok :
      (worker_id : String) (duration : ℕ) (now : Time) (db db' : Db) (q : RetentionPurge)
      → claim_retention_purge collate worker_id duration now db ≡ ok (q, db')
      → (r : RetentionPurge) × (first_by (purge_order collate) (purge_claimable now) db.purges
          ≡ some r)
        × (p : RetentionPolicy) × (find_policy r.organization_id db ≡ some p)
        × (q.id ≡ r.id)
        × (db'.purges
            ≡ update_where
                (λ s. s.id == r.id)
                (if not (eqb p.updated_at r.policy_updated_at) || not (is_still_eligible now r db)
                  then end_purge cancelled "retention policy or eligibility changed"
                  else if is_resource_held r.resource_type r.resource_id db
                  then end_purge blocked "active legal hold"
                  else lease_purge worker_id (now + duration))
                db.purges)
        × (db'.sessions ≡ db.sessions)
        × (db'.holds ≡ db.holds)
  unfolding claim_retention_purge
  claim_retention_purge-ok worker_id duration now db db' q h = ground arith

  -- What a claim returns is the purge as it was read, unless the worker gets the lease.
  pub claim_retention_purge-result :
      (worker_id : String) (duration : ℕ) (now : Time) (db db' : Db) (q : RetentionPurge)
      → claim_retention_purge collate worker_id duration now db ≡ ok (q, db')
      → (r : RetentionPurge) × (p : RetentionPolicy) × (first_by
            (purge_order collate)
            (purge_claimable now)
            db.purges
          ≡ some r)
        × (find_policy r.organization_id db ≡ some p)
        × (q ≡ (
            if not (eqb p.updated_at r.policy_updated_at)
              || not (is_still_eligible now r db)
              || is_resource_held r.resource_type r.resource_id db
            then r
            else record r {
              state = leased;
              attempt = r.attempt + 1;
              leased_by = some worker_id;
              lease_expires_at = some (now + duration);
            }))
  unfolding claim_retention_purge
  claim_retention_purge-result worker_id duration now db db' q h = ground arith

  -- If the first claimable purge is one whose lease has run out and whose resource is no longer
  -- eligible, the claim cancels it in the database and still returns it as leased.
  pub claim_retention_purge-stale :
      (worker_id : String) (duration : ℕ) (now : Time) (db db' : Db) (q r : RetentionPurge)
      → claim_retention_purge collate worker_id duration now db ≡ ok (q, db')
      → first_by (purge_order collate) (purge_claimable now) db.purges ≡ some r
      → is_leased r.state ≡ true
      → is_still_eligible now r db ≡ false
      → (q ≡ r)
        × (is_leased q.state ≡ true)
        × (db'.purges
            ≡ update_where
                (λ s. s.id == r.id)
                (end_purge cancelled "retention policy or eligibility changed")
                db.purges)
  unfolding claim_retention_purge
  claim_retention_purge-stale worker_id duration now db db' q r h f l e = ground arith

  updated_unclaimable :
      (id : String) (later : Time) (f : RetentionPurge → RetentionPurge)
      → ((r : RetentionPurge) → purge_claimable later (f r) ≡ false)
      → (rs : List RetentionPurge)
      → All
          (λ s. s.id == id ≡ true → purge_claimable later s ≡ false)
          (update_where (λ s. s.id == id) f rs)
  unfolding update_where
  updated_unclaimable id later f k [] = tt
  updated_unclaimable id later f k (r ∷ rs) =
      (ground (arith, k r), updated_unclaimable id later f k rs)

  -- A leased row cannot be claimed before its lease has run out, an ended one never.
  outcome_unclaimable :
      (changed held : Bool) (worker_id : String) (expires later : Time) (r : RetentionPurge)
      → later < expires
      → purge_claimable later (
          (if changed
              then end_purge cancelled "retention policy or eligibility changed"
              else if held
              then end_purge blocked "active legal hold"
              else lease_purge worker_id expires)
            r)
        ≡ false
  unfolding purge_claimable is_queued is_leased
  outcome_unclaimable true held worker_id expires later r h = refl
  outcome_unclaimable false true worker_id expires later r h = refl
  outcome_unclaimable false false worker_id expires later r h = ground arith

  claim_retention_purge-IsUnclaimable :
      (worker_id : String) (duration : ℕ) (now later : Time) (db db' : Db) (q : RetentionPurge)
      → claim_retention_purge collate worker_id duration now db ≡ ok (q, db')
      → later < now + duration
      → All (λ s. s.id == q.id ≡ true → purge_claimable later s ≡ false) db'.purges
  claim_retention_purge-IsUnclaimable worker_id duration now later db db' q h lt =
      let a = claim_retention_purge-ok worker_id duration now db db' q h in
      rw (a.5, a.4)
        (updated_unclaimable a.0.id later _
          (λ r. outcome_unclaimable _ _ worker_id (now + duration) later r lt) db.purges)

  -- The claim that follows a claim before the end of its lease is given another purge.
  pub claim_retention_purge-exclusive :
      (worker_id other : String) (duration other_duration : ℕ) (now later : Time) (db db' db'' : Db)
      (q again : RetentionPurge)
      → claim_retention_purge collate worker_id duration now db ≡ ok (q, db')
      → later < now + duration
      → claim_retention_purge collate other other_duration later db' ≡ ok (again, db'')
      → again.id ≢ q.id
  claim_retention_purge-exclusive worker_id other duration other_duration now later db db' db'' q
        again h lt k same =
      let b = claim_retention_purge-ok other other_duration later db' db'' again k in
      let no_claim =
        first_by-All (λ s. s.id == q.id ≡ true → purge_claimable later s ≡ false)
          (purge_order collate) (purge_claimable later) db'.purges b.0
          (claim_retention_purge-IsUnclaimable worker_id duration now later db db' q h lt) b.1 in
      cc (
        no_claim ((eq_iff b.0.id q.id).1 (sym b.4 ∙ same)),
        first_by-some (purge_order collate) (purge_claimable later) db'.purges b.0 b.1,
      )
