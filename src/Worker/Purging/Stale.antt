-- ===== src/Worker/Purging/Stale.antt =====
-- What the worker does with a retention purge that its claim has cancelled
-- (services/api/internal/worker/processor.go).
use data_trains.Base.{
  ◌<◌, String, true, false, ◌==◌, ◌≡◌, ◌≢◌, refl, arith, none, some, List, [], ◌∷◌, ◌++◌, ◌+++◌,
  inl, inr,
}
use data_trains.Domain.Errors.{ok, err, retention_lease, Result-cases}
use data_trains.Domain.Model.{Time, cancelled, is_leased}
use data_trains.Table.{first_by, update_where}
use data_trains.Table.Laws.{find-update_self, find-some}
use data_trains.Db.{Db, RetentionPurge, RetentionPolicy}
use data_trains.Retention.Policy.{find_policy}
use data_trains.Retention.Worker.{
  claim_retention_purge, complete_retention_purge, requeue_retention_purge, find_purge, end_purge,
  purge_order, purge_claimable, is_still_eligible,
}
use data_trains.Worker.Purging.{
  Processor, Outside, World, purge_keys, retry, finish, erase_objects, purge_claimed,
  claim_and_purge, process_retention,
}
use data_trains.Worker.Purging.Spared.{purge_keys-IsPrefix}

-- No object fails to be purged.
purge_keys-all :
    (o : Outside) (keys gone : List String)
    → ((k : String) → o.purge_error k ≡ none)
    → (purge_keys o keys gone).1 ≡ none
unfolding purge_keys
purge_keys-all o [] gone f = refl
purge_keys-all o (k ∷ ks) gone f = ground (arith, f k, purge_keys-all o ks (gone ++ k ∷ []) f)

-- The database after the claim that has cancelled the purge.
abbrev cancelled_in : Db → RetentionPurge → List RetentionPurge
cancelled_in db r =
    update_where (λ s. s.id == r.id) (end_purge cancelled "retention policy or eligibility changed")
      db.purges

module _ (processor : Processor) (o : Outside) (worker_id : String) where
  claim-cancelled :
      (now : Time) (db : Db) (r : RetentionPurge) (p : RetentionPolicy)
      → first_by (purge_order o.collate) (purge_claimable now) db.purges ≡ some r
      → find_policy r.organization_id db ≡ some p
      → is_still_eligible now r db ≡ false
      → (db' : Db) × (claim_retention_purge o.collate worker_id processor.lease now db
          ≡ ok (r, db'))
        × (db'.purges ≡ cancelled_in db r)
        × (db'.artifacts ≡ db.artifacts)
  unfolding claim_retention_purge
  claim-cancelled now db r p f q e =
      elim (Result-cases (claim_retention_purge o.collate worker_id processor.lease now db)) [
        | inl ((a, db'), c) ↦ (db', ground arith, ground arith, ground arith)
        | inr (x, c) ↦ absurd (ground arith)
      ]

  -- Neither the completion nor a new attempt is allowed to the worker.
  cancelled-refused :
      (r : RetentionPurge) (db db' : Db) (done : Time)
      → find_purge r.id db ≡ some r
      → db'.purges ≡ cancelled_in db r
      → (complete_retention_purge r.id worker_id done db' ≡ err retention_lease)
        × ((cause : String)
            → requeue_retention_purge r.id worker_id cause processor.max_attempts done db'
              ≡ err retention_lease)
  unfolding complete_retention_purge requeue_retention_purge is_leased
  cancelled-refused r db db' done f e =
      let g : find_purge r.id db'
          ≡ some (end_purge cancelled "retention policy or eligibility changed" r) =
        rw e (
          find-update_self (λ s. s.id == r.id)
            (end_purge cancelled "retention policy or eligibility changed") db.purges r
            (find-some (λ s. s.id == r.id) db.purges r f) f) in
      (ground arith, λ cause. ground arith)

  -- If the first claimable purge is one whose lease has run out and whose resource is no longer
  -- eligible, and no sweep is due, then the worker purges all objects of the request although the
  -- claim has cancelled it: the request stays cancelled, no artifact is marked as purged, and the
  -- worker reports a failure.
  pub process_retention-stale :
      (now done : Time) (w : World) (r : RetentionPurge) (p : RetentionPolicy)
      → 0 < w.next_retention_sweep
      → now < w.next_retention_sweep
      → first_by (purge_order o.collate) (purge_claimable now) w.db.purges ≡ some r
      → find_purge r.id w.db ≡ some r
      → find_policy r.organization_id w.db ≡ some p
      → is_leased r.state ≡ true
      → is_still_eligible now r w.db ≡ false
      → ((k : String) → o.purge_error k ≡ none)
      → ((process_retention processor o worker_id now done w).world.gone ≡ w.gone ++ r.object_keys)
        × ((process_retention processor o worker_id now done w).world.db.purges
            ≡ update_where
                (λ s. s.id == r.id)
                (end_purge cancelled "retention policy or eligibility changed")
                w.db.purges)
        × ((process_retention processor o worker_id now done w).world.db.artifacts ≡ w.db.artifacts)
        × ((process_retention processor o worker_id now done w).failure ≢ none)
  unfolding process_retention claim_and_purge purge_claimed erase_objects finish retry
  process_retention-stale now done w r p s t f g q l e k =
      let c = claim-cancelled now w.db r p f q e in
      let refused = cancelled-refused r w.db c.0 done g c.2 in
      let a = purge_keys-IsPrefix o r.object_keys w.gone in
      let all = purge_keys-all o r.object_keys w.gone k in
      let whole = a.3 all in
      let cause = "complete retention purge" +++ ": " +++ o.error_text retention_lease in
      let again = refused.1 cause in (ground arith, ground arith, ground arith, λ h. ground arith)
