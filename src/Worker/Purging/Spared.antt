-- ===== src/Worker/Purging/Spared.antt =====
-- Which objects the worker erases (services/api/internal/worker/processor.go).
use data_trains.Base.{
  String, false, ◌≡◌, ◌≢◌, ◌⊎◌, ◌+++◌, inl, inr, refl, sym, subst, ap, arith, none, List, [], ◌∷◌,
  ◌++◌, Option-cases, Bool-cases,
}
use mathlib.Core.List.{append-nil, append_assoc}
use data_trains.Domain.Errors.{ok, Result-cases}
use data_trains.Domain.Model.{Time, DeletionRequest, is_leased}
use data_trains.Db.{Db, Tx}
use data_trains.Erasure.Holds.{is_held, holds_session}
use data_trains.Erasure.Worker.{
  claim_deletion_request, complete_deletion_request, requeue_deletion_request,
}
use data_trains.Table.{exists}
use data_trains.Erasure.Worker.Leases.{claim_deletion_request-unheld, claim_deletion_request-ok}
use data_trains.Worker.Purging.{
  Processor, Outside, World, Worked, purge_keys, retry, finish, erase_objects, erase_claimed,
  process_deletion, with_db,
}

-- `part` begins `whole`.
pub IsPrefix : List String → List String → Type 0
IsPrefix part whole = (rest : List String) × (part ++ rest ≡ whole)

-- The keys that were purged, in order, are the first ones; all of them if nothing failed.
pub purge_keys-IsPrefix :
    (o : Outside) (keys gone : List String)
    → (part : List String) × ((purge_keys o keys gone).0 ≡ gone ++ part)
      × IsPrefix part keys
      × ((purge_keys o keys gone).1 ≡ none → part ≡ keys)
unfolding purge_keys IsPrefix
purge_keys-IsPrefix o [] gone = ([], sym (append-nil gone), ([], refl), λ h. refl)
purge_keys-IsPrefix o (key ∷ keys) gone = elim (Option-cases (o.purge_error key)) [
  | inl e ↦
      let a = purge_keys-IsPrefix o keys (gone ++ key ∷ []) in
      (
        key ∷ a.0,
        ground (arith, a.1, append_assoc gone (key ∷ []) a.0),
        (a.2.0, ground (arith, a.2.1)),
        λ h. ap (◌∷◌ key) (a.3 (ground arith)),
      )
  | inr (x, e) ↦ ([], ground (arith, append-nil gone), (key ∷ keys, refl), λ h. ground arith)
]

retry-gone :
    (o : Outside) (requeue : Tx (Unit {0})) (label : String) (w : World) (cause : String)
    → ((retry o requeue label w cause).world.gone ≡ w.gone)
      × ((retry o requeue label w cause).failure ≢ none)
unfolding retry
retry-gone o requeue label w cause = elim (Result-cases (requeue w.db)) [
  | inl (a, e) ↦ (ground arith, λ h. ground arith)
  | inr (a, e) ↦ (ground arith, λ h. ground arith)
]

finish-gone :
    (o : Outside) (complete : Tx (Unit {0})) (requeue : String → Tx (Unit {0}))
    (complete_label requeue_label : String) (w : World)
    → ((finish o complete requeue complete_label requeue_label w).world.gone ≡ w.gone)
      × ((finish o complete requeue complete_label requeue_label w).failure ≡ none
          → complete w.db
            ≡ ok (tt, (finish o complete requeue complete_label requeue_label w).world.db))
unfolding finish
finish-gone o complete requeue complete_label requeue_label w =
    elim (Result-cases (complete w.db)) [
      | inl (a, e) ↦ (ground arith, λ h. ground arith)
      | inr (x, e) ↦
          let r =
            retry-gone o (requeue (complete_label +++ ": " +++ o.error_text x)) requeue_label w
              (complete_label +++ ": " +++ o.error_text x) in
          (ground (arith, r.0), λ h. absurd (r.1 (ground arith)))
    ]

-- What `erase_objects` purges, in order, begins the keys. Without a failure it is all of them, and
-- the request is completed after them.
record Erases (keys : List String) (complete : Tx (Unit {0})) (w : World) (r : Worked)
    (part : List String) : Type 0 where
  gone : r.world.gone ≡ w.gone ++ part
  prefix : IsPrefix part keys
  finished : r.failure ≡ none → (part ≡ keys) × (complete w.db ≡ ok (tt, r.world.db))

erase_objects-Erases :
    (o : Outside) (keys : List String) (complete : Tx (Unit {0})) (requeue : String → Tx (Unit {0}))
    (complete_label requeue_label : String) (w : World)
    → (part : List String) × Erases keys complete w
        (erase_objects o keys complete requeue complete_label requeue_label w)
        part
unfolding erase_objects
erase_objects-Erases o keys complete requeue complete_label requeue_label w =
    let a = purge_keys-IsPrefix o keys w.gone in
    let purged = record w { gone = (purge_keys o keys w.gone).0 } in
    let f = finish-gone o complete requeue complete_label requeue_label purged in
    elim (Option-cases (purge_keys o keys w.gone).1) [
      | inl e ↦ (
        a.0,
        record {
          gone = ground (arith, f.0, a.1);
          prefix = a.2;
          finished = λ h. (a.3 e, ground (arith, f.1 (ground arith)));
        },
      )
      | inr (cause, e) ↦
          let r = retry-gone o (requeue cause) requeue_label purged cause in
          (
            a.0,
            record {
              gone = ground (arith, r.0, a.1);
              prefix = a.2;
              finished = λ h. absurd (r.1 (ground arith));
            },
          )
    ]

module _ (processor : Processor) (o : Outside) (worker_id : String) where
  -- What one turn of the deletion worker does to the objects.
  pub record Erasure (now done : Time) (w : World) (r : Worked) : Type 0 where
    pub request : DeletionRequest
    pub claimed : Db
    pub part : List String
    pub granted :
        claim_deletion_request o.collate worker_id processor.lease now w.db ≡ ok (request, claimed)
    pub unheld : is_held request.session_id w.db ≡ false
    pub gone : r.world.gone ≡ w.gone ++ part
    pub prefix : IsPrefix part request.object_keys
    pub finished :
        r.failure ≡ none
        → (part ≡ request.object_keys)
          × (complete_deletion_request request.id worker_id done claimed ≡ ok (tt, r.world.db))

  erase_claimed-Erasure :
      (now done : Time) (w : World) (d : DeletionRequest) (db : Db)
      → claim_deletion_request o.collate worker_id processor.lease now w.db ≡ ok (d, db)
      → ((erase_claimed processor o worker_id d done (with_db w db)).world.gone ≡ w.gone)
        ⊎ Erasure now done w (erase_claimed processor o worker_id d done (with_db w db))
  unfolding erase_claimed
  erase_claimed-Erasure now done w d db h = elim (Bool-cases (is_leased d.state)) [
    | inl e ↦
        let a = claim_deletion_request-ok o.collate worker_id processor.lease now w.db db d h in
        let u =
          claim_deletion_request-unheld o.collate worker_id processor.lease now w.db db d h e in
        let r =
          erase_objects-Erases o d.object_keys (complete_deletion_request d.id worker_id done)
            (λ cause. requeue_deletion_request d.id worker_id cause processor.max_attempts done)
            "complete erasure" "requeue deletion request" (with_db w db) in
        inr (
          rw e (record {
            request = d;
            claimed = db;
            part = r.0;
            granted = h;
            unheld = subst (λ hs. exists (holds_session d.session_id) hs ≡ false) a.6 u.0;
            gone = r.1.gone;
            prefix = r.1.prefix;
            finished = r.1.finished;
          }))
    | inr e ↦ inl (ground arith)
  ]

  -- One turn of the deletion worker purges no object unless it was given the lease of a request
  -- whose session is under no legal hold. Then it purges objects of that request alone, in their
  -- order; if it reports no failure, it has purged all of them and completed the deletion.
  pub process_deletion-Erasure :
      (now done : Time) (w : World)
      → ((process_deletion processor o worker_id now done w).world.gone ≡ w.gone)
        ⊎ Erasure now done w (process_deletion processor o worker_id now done w)
  unfolding process_deletion
  process_deletion-Erasure now done w =
      elim (Result-cases (claim_deletion_request o.collate worker_id processor.lease now w.db)) [
        | inl ((d, db), e) ↦ rw (e, process_deletion) (erase_claimed-Erasure now done w d db e)
        | inr (x, e) ↦ inl (ground arith)
      ]
