-- ===== src/System/Calls/Retained.antt =====
-- What the operations on retention leave of the sessions, the artifacts and the legal holds.
use data_trains.Base.{
  ℕ, String, Bool, true, false, ◌==◌, ◌&&◌, List, [], ◌∷◌, ◌≡◌, refl, subst, sym, ap, arith, ◌∙◌,
  eq_iff,
}
use data_trains.Domain.Errors.{ok}
use data_trains.Domain.Model.{Time, Artifact}
use data_trains.Table.{select, exists, update_where}
use data_trains.Db.{
  Db, RetentionPolicy, RetentionPurge, ResourceType, session_raw, session_derived, release,
}
use data_trains.Erasure.Holds.{is_held, holds_session}
use data_trains.Erasure.Requests.{is_unpurged}
use data_trains.Retention.Policy.{upsert_retention_policy, upsert_policy}
use data_trains.Retention.Expiry.{is_resource_held}
use data_trains.Retention.Sweep.{queue_expired_retention}
use data_trains.Retention.Sweep.Queued.{queue_expired_retention-ok}
use data_trains.Retention.Worker.{
  claim_retention_purge, complete_retention_purge, requeue_retention_purge,
  retry_dead_letter_retention_purge, mark_purged, purge_artifact,
}
use data_trains.Retention.Worker.Completed.{complete_retention_purge-ok}
use data_trains.System.Calls.Spared.{evidence}
use data_trains.System.Calls.Guarded.{IsGuarded, artifacts_of}

-- The sessions, the artifacts and the holds are as before.
abbrev pub IsRetained : Db → Db → Type 0
IsRetained db db' = (db'.sessions ≡ db.sessions) × (evidence db' ≡ evidence db)

module _ (db db' : Db) where
  pub upsert_retention_policy-IsRetained :
      (given : RetentionPolicy) (actor request : String) (now : Time) (a : RetentionPolicy)
      → upsert_retention_policy given actor request now db ≡ ok (a, db')
      → IsRetained db db'
  unfolding upsert_retention_policy upsert_policy
  upsert_retention_policy-IsRetained given actor request now a h = (ground arith, ground arith)

  pub queue_expired_retention-IsRetained :
      (collate : String → String → Bool) (new_id : ℕ → String) (actor : String) (now : Time)
      (limit a : ℕ)
      → queue_expired_retention collate new_id actor now limit db ≡ ok (a, db')
      → IsRetained db db'
  queue_expired_retention-IsRetained collate new_id actor now limit a h =
      let q = queue_expired_retention-ok collate new_id actor now limit db db' a h in
      (q.6.sessions, ground (arith, q.6.artifacts, q.6.holds))

  pub claim_retention_purge-IsRetained :
      (collate : String → String → Bool) (w : String) (duration : ℕ) (now : Time)
      (a : RetentionPurge)
      → claim_retention_purge collate w duration now db ≡ ok (a, db')
      → IsRetained db db'
  unfolding claim_retention_purge
  claim_retention_purge-IsRetained collate w duration now a h = (ground arith, ground arith)

  pub requeue_retention_purge-IsRetained :
      (q w error : String) (max : ℕ) (now : Time) (a : Unit {0})
      → requeue_retention_purge q w error max now db ≡ ok (a, db')
      → IsRetained db db'
  unfolding requeue_retention_purge
  requeue_retention_purge-IsRetained q w error max now a h = (ground arith, ground arith)

  pub retry_dead_letter_retention_purge-IsRetained :
      (q actor request : String) (now : Time) (a : RetentionPurge)
      → retry_dead_letter_retention_purge q actor request now db ≡ ok (a, db')
      → IsRetained db db'
  unfolding retry_dead_letter_retention_purge
  retry_dead_letter_retention_purge-IsRetained q actor request now a h =
      (ground arith, ground arith)

select-purge_other :
    (s t : String) (now : Time) (rs : List Artifact)
    → (t == s) ≡ false
    → select
        (λ a. a.session_id == s)
        (update_where (λ a. a.session_id == t && is_unpurged a.purged_at) (purge_artifact now) rs)
      ≡ select (λ a. a.session_id == s) rs
unfolding select update_where
select-purge_other s t now [] n = refl
select-purge_other s t now (r ∷ rs) n =
    ground (arith, select-purge_other s t now rs n, eq_iff r.session_id t)

-- The data of a session that is held are not marked as purged.
mark_purged-artifacts_of :
    (s : String) (kind : ResourceType) (id : String) (now : Time) (db : Db)
    → is_held s db ≡ true
    → is_resource_held kind id db ≡ false
    → artifacts_of s (mark_purged kind id now db) ≡ artifacts_of s db
unfolding mark_purged is_resource_held
mark_purged-artifacts_of s session_raw id now db c n =
    select-purge_other s id now db.artifacts (ground (arith, eq_iff id s))
mark_purged-artifacts_of s session_derived id now db c n = refl
mark_purged-artifacts_of s release id now db c n = refl

pub complete_retention_purge-IsGuarded :
    (s q w : String) (now : Time) (db db' : Db)
    → complete_retention_purge q w now db ≡ ok (tt, db')
    → is_held s db ≡ true
    → IsGuarded s db db'
unfolding complete_retention_purge
complete_retention_purge-IsGuarded s q w now db db' h c =
    let a = complete_retention_purge-ok q w now db db' h in
    let kept = mark_purged-artifacts_of s a.0.resource_type a.0.resource_id now db c a.4 in
    let marked : db'.artifacts ≡ (mark_purged a.0.resource_type a.0.resource_id now db).artifacts =
      ground arith in
    (
      subst (λ hs. exists (holds_session s) hs ≡ true) (sym a.8) c,
      ap (select (λ r. r.session_id == s)) marked ∙ kept,
    )
