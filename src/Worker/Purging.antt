-- ===== src/Worker/Purging.antt =====
-- How the worker erases and purges objects (services/api/internal/worker/processor.go).
pub mod Spared
pub mod Stale
use data_trains.Base.{
  ℕ, ◌+◌, String, Bool, true, false, not, ◌||◌, leb, eqb, Option, none, some, List, [], ◌∷◌, ◌++◌,
  ◌+++◌, if◌then◌else◌,
}
use data_trains.Domain.Errors.{Error, Result, ok, err, no_retention_purge, no_deletion_request}
use data_trains.Domain.Model.{Time, DeletionRequest, is_leased}
use data_trains.Db.{Db, Tx, RetentionPurge}
use data_trains.Erasure.Worker.{
  claim_deletion_request, complete_deletion_request, requeue_deletion_request,
}
use data_trains.Retention.Sweep.{queue_expired_retention}
use data_trains.Retention.Worker.{
  claim_retention_purge, complete_retention_purge, requeue_retention_purge,
}

-- The fields of `Processor` that these operations use. A lease or an interval is in nanoseconds.
pub record Processor : Type 0 where
  pub lease : ℕ
  pub max_attempts : ℕ
  pub retention_sweep_interval : ℕ

-- What the worker uses and does not implement: the blob store's `Purge` of a key, which may fail,
-- the texts of errors, the order of the database's texts and the identifiers of `newID`.
pub record Outside : Type 0 where
  pub purge_error : String → Option Error
  pub error_text : Error → String
  pub collate : String → String → Bool
  pub new_id : ℕ → String

-- The database, the keys whose objects were purged, and the processor's `nextRetentionSweep`, 0 for
-- the zero time.
pub record World : Type 0 where
  pub db : Db
  pub gone : List String
  pub next_retention_sweep : Time

-- `(bool, error)`, with the text of the error.
pub record Worked : Type 0 where
  pub world : World
  pub processed : Bool
  pub failure : Option String

-- The loop over the keys: it stops at the first that fails.
unfoldable pub purge_keys : Outside → List String → List String → List String × Option String
purge_keys o [] gone = (gone, none)
purge_keys o (key ∷ keys) gone =
    let rest = purge_keys o keys (gone ++ key ∷ []) in
    elim (o.purge_error key) [
      | none ↦ rest
      | some e ↦ (gone, some ("purge " +++ key +++ ": " +++ o.error_text e))
    ]

abbrev pub with_db : World → Db → World
with_db w db = record w { db = db }

-- `retryRetention` and `retryDeletion`, from the call that queues the request anew.
unfoldable pub retry : Outside → Tx (Unit {0}) → String → World → String → Worked
retry o requeue label w cause = elim (requeue w.db) [
  | ok (_, db) ↦ record { world = with_db w db; processed = true; failure = some cause }
  | err e ↦ record {
    world = w;
    processed = true;
    failure = some (cause +++ "; " +++ label +++ ": " +++ o.error_text e);
  }
]

-- `return false, nil` and `return false, err`
abbrev idle : World → Worked
idle w = record { world = w; processed = false; failure = none }

abbrev failed_idle : World → String → Worked
failed_idle w cause = record { world = w; processed = false; failure = some cause }

-- The objects are gone: the request is completed, or tried again.
unfoldable pub finish :
    Outside → Tx (Unit {0}) → (String → Tx (Unit {0})) → String → String → World → Worked
unfolding retry
finish o complete requeue complete_label requeue_label w = elim (complete w.db) [
  | ok (_, db) ↦ record { world = with_db w db; processed = true; failure = none }
  | err e ↦
      let cause = complete_label +++ ": " +++ o.error_text e in
      retry o (requeue cause) requeue_label w cause
]

-- The objects of a request are purged and the request is completed; a failure of either has it
-- tried again.
unfoldable pub erase_objects :
    Outside
    → List String
    → Tx (Unit {0})
    → (String → Tx (Unit {0}))
    → String
    → String
    → World
    → Worked
unfolding purge_keys finish retry
erase_objects o keys complete requeue complete_label requeue_label w =
    let (gone, failure) = purge_keys o keys w.gone in
    let purged = record w { gone = gone } in
    elim failure [
      | none ↦ finish o complete requeue complete_label requeue_label purged
      | some cause ↦ retry o (requeue cause) requeue_label purged cause
    ]

is_no_deletion : Error → Bool
is_no_deletion no_deletion_request = true
is_no_deletion _ = false

is_no_purge : Error → Bool
is_no_purge no_retention_purge = true
is_no_purge _ = false

module _ (processor : Processor) (o : Outside) (worker_id : String) where
  -- A claimed deletion. `done` is the time that `processor.now()` gives after the purge.
  unfoldable pub erase_claimed : DeletionRequest → Time → World → Worked
  unfolding erase_objects
  erase_claimed d done w =
      if not (is_leased d.state)
      then record { world = w; processed = true; failure = none }
      else erase_objects o d.object_keys (complete_deletion_request d.id worker_id done)
          (λ cause. requeue_deletion_request d.id worker_id cause processor.max_attempts done)
          "complete erasure" "requeue deletion request" w

  -- `processDeletion`; `now` is the time of the claim.
  unfoldable pub process_deletion : Time → Time → World → Worked
  unfolding is_no_deletion erase_claimed
  process_deletion now done w =
      elim (claim_deletion_request o.collate worker_id processor.lease now w.db) [
        | ok (d, db) ↦ erase_claimed d done (with_db w db)
        | err e ↦
            if is_no_deletion e
            then idle w
            else failed_idle w ("claim deletion request: " +++ o.error_text e)
      ]

  -- A claimed purge.
  unfoldable pub purge_claimed : RetentionPurge → Time → World → Worked
  unfolding erase_objects
  purge_claimed q done w =
      if not (is_leased q.state)
      then record { world = w; processed = true; failure = none }
      else erase_objects o q.object_keys (complete_retention_purge q.id worker_id done)
          (λ cause. requeue_retention_purge q.id worker_id cause processor.max_attempts done)
          "complete retention purge" "requeue retention purge" w

  unfoldable pub claim_and_purge : Time → Time → World → Worked
  unfolding is_no_purge purge_claimed
  claim_and_purge now done w =
      elim (claim_retention_purge o.collate worker_id processor.lease now w.db) [
        | ok (q, db) ↦ purge_claimed q done (with_db w db)
        | err e ↦
            if is_no_purge e
            then idle w
            else failed_idle w ("claim retention purge: " +++ o.error_text e)
      ]

  -- `processRetention`; a sweep is due at the zero time and from `nextRetentionSweep` on.
  unfoldable pub process_retention : Time → Time → World → Worked
  unfolding claim_and_purge
  process_retention now done w =
      if eqb w.next_retention_sweep 0 || leb w.next_retention_sweep now
      then elim (queue_expired_retention o.collate o.new_id worker_id now 100 w.db) [
        | ok (_, db) ↦
            claim_and_purge now done (record w {
              db = db;
              next_retention_sweep = now + processor.retention_sweep_interval;
            })
        | err e ↦ failed_idle w ("queue expired retention: " +++ o.error_text e)
      ]
      else claim_and_purge now done w
