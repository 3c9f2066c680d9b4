-- ===== src/Retention/Sweep/Queued.antt =====
-- What the sweep leaves in the queue (services/api/internal/database/retention_expiry.go).
use data_trains.Base.{
  ℕ, suc, ◌+◌, ◌≤◌, String, Bool, true, ◌≡◌, refl, arith, none, List, [], ◌∷◌, ◌++◌, length, All,
  All-append, length-append, ◌∙◌, subst, inl, inr, Bool-cases,
}
use mathlib.Core.List.{append-nil, append_assoc}
use data_trains.Domain.Errors.{ok}
use data_trains.Domain.Model.{Time, is_queued}
use data_trains.Table.{exists}
use data_trains.Db.{Db, bind-ok, RetentionPurge}
use data_trains.Retention.Sweep.{
  Candidate, candidates, queue_candidate, queue_candidates, queue_expired_retention, conflicts,
  new_purge,
}
use data_trains.Retention.Sweep.Due.{IsDue, IsDueCandidate, candidates-IsDue, length-candidates-le}

-- The purge waits for its first attempt, and its resource was due.
pub record IsQueued (before : Db) (now : Time) (q : RetentionPurge) : Type 0 where
  pub waits : is_queued q.state ≡ true
  pub unleased : q.leased_by ≡ none
  pub unattempted : q.attempt ≡ 0
  pub available : q.available_at ≡ now
  pub due : IsDue before now q.resource_type q.resource_id

-- The tables that the sweep leaves alone.
pub record IsUntouched (db db' : Db) : Type 0 where
  pub sessions : db'.sessions ≡ db.sessions
  pub artifacts : db'.artifacts ≡ db.artifacts
  pub holds : db'.holds ≡ db.holds

-- `added` are the new purges, `count` of them.
record Queues (before db db' : Db) (now : Time) (cs : List Candidate) (count : ℕ)
    (added : List RetentionPurge) : Type 0 where
  purges : db'.purges ≡ db.purges ++ added
  counted : length added ≡ count
  bounded : count ≤ length cs
  queued : All (IsDueCandidate before now) cs → All (IsQueued before now) added
  untouched : IsUntouched db db'

module _ (actor : String) (before : Db) (now : Time) where
  queue_candidate-ok :
      (id : String) (c : Candidate) (db db' : Db) (n : ℕ)
      → queue_candidate actor id now c db ≡ ok (n, db')
      → (added : List RetentionPurge) × Queues before db db' now (c ∷ []) n added
  unfolding queue_candidate is_queued
  queue_candidate-ok id c db db' n h =
      elim (Bool-cases (exists (conflicts id c.resource_type c.resource_id) db.purges)) [
        | inl e ↦ (
          [],
          record {
            purges = ground (arith, append-nil db.purges);
            counted = ground arith;
            bounded = ground arith;
            queued = λ h. tt;
            untouched = record {
              sessions = ground arith;
              artifacts = ground arith;
              holds = ground arith;
            };
          },
        )
        | inr e ↦ (
          new_purge id now c ∷ [],
          record {
            purges = ground arith;
            counted = ground arith;
            bounded = ground arith;
            queued = λ due. (
              record {
                waits = refl;
                unleased = refl;
                unattempted = refl;
                available = refl;
                due = due.0;
              },
              tt,
            );
            untouched = record {
              sessions = ground arith;
              artifacts = ground arith;
              holds = ground arith;
            };
          },
        )
      ]

  Queues-append :
      (db mid db' : Db) (c : Candidate) (cs : List Candidate) (m n : ℕ)
      (xs ys : List RetentionPurge)
      → Queues before db mid now (c ∷ []) m xs
      → Queues before mid db' now cs n ys
      → Queues before db db' now (c ∷ cs) (m + n) (xs ++ ys)
  Queues-append db mid db' c cs m n xs ys a b = record {
    purges = ground (arith, append_assoc db.purges xs ys);
    counted = omega (arith, length-append xs ys, a.counted, b.counted);
    bounded = omega (arith, a.bounded, b.bounded);
    queued = λ due. All-append (IsQueued before now) xs ys (a.queued (due.0, tt)) (b.queued due.1);
    untouched = record {
      sessions = b.untouched.sessions ∙ a.untouched.sessions;
      artifacts = b.untouched.artifacts ∙ a.untouched.artifacts;
      holds = b.untouched.holds ∙ a.untouched.holds;
    };
  }

  queue_candidates-ok :
      (new_id : ℕ → String) (index : ℕ) (cs : List Candidate) (db db' : Db) (n : ℕ)
      → queue_candidates new_id actor now index cs db ≡ ok (n, db')
      → (added : List RetentionPurge) × Queues before db db' now cs n added
  unfolding queue_candidates
  queue_candidates-ok new_id index [] db db' n h = (
    [],
    record {
      purges = ground (arith, append-nil db.purges);
      counted = ground arith;
      bounded = ground arith;
      queued = λ h. tt;
      untouched = record {
        sessions = ground arith;
        artifacts = ground arith;
        holds = ground arith;
      };
    },
  )
  queue_candidates-ok new_id index (c ∷ cs) db db' n h =
      let one = bind-ok db (n, db') (queue_candidate actor (new_id index) now c) _ h in
      let others =
        bind-ok one.0.1 (n, db') (queue_candidates new_id actor now (suc index) cs) _ one.2 in
      let a = queue_candidate-ok (new_id index) c db one.0.1 one.0.0 one.1 in
      let b = queue_candidates-ok new_id (suc index) cs one.0.1 others.0.1 others.0.0 others.1 in
      let all = Queues-append db one.0.1 others.0.1 c cs one.0.0 others.0.0 a.0 b.0 a.1 b.1 in
      (
        a.0 ++ b.0,
        subst (λ (r : ℕ × Db). Queues before db r.1 now (c ∷ cs) r.0 (a.0 ++ b.0))
            (ground (arith, others.2)) all,
      )

-- The sweep adds at most as many purges as it was allowed, and returns their number. Each of them
-- waits for its first attempt, and its resource was due: the organization has a policy, its period
-- is over, the session is in a state that lets go of the data, and no legal hold is on it. What was
-- queued before stays, and the sessions, artifacts and holds are left alone.
pub queue_expired_retention-ok :
    (collate : String → String → Bool) (new_id : ℕ → String) (actor : String) (now : Time)
    (limit : ℕ) (db db' : Db) (n : ℕ)
    → queue_expired_retention collate new_id actor now limit db ≡ ok (n, db')
    → (added : List RetentionPurge) × (db'.purges ≡ db.purges ++ added)
      × (length added ≡ n)
      × (n ≤ limit)
      × (limit ≤ 1000)
      × All (IsQueued db now) added
      × IsUntouched db db'
unfolding queue_expired_retention
queue_expired_retention-ok collate new_id actor now limit db db' n h =
    let found = candidates collate db now limit in
    let a = queue_candidates-ok actor db now new_id 0 found db db' n (ground arith) in
    (
      a.0,
      a.1.purges,
      a.1.counted,
      omega (arith, a.1.bounded, length-candidates-le collate db now limit),
      ground arith,
      a.1.queued (candidates-IsDue collate db now limit),
      a.1.untouched,
    )
