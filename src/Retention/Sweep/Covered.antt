-- ===== src/Retention/Sweep/Covered.antt =====
-- The sweep misses nothing that its queries found
-- (services/api/internal/database/retention_expiry.go).
use data_trains.Base.{
  ℕ, suc, ◌≤◌, ◌<◌, String, Bool, true, false, ◌&&◌, ◌||◌, ◌==◌, ◌≡◌, refl, arith, List, [], ◌∷◌,
  All, eq_refl, subst,
}
use data_trains.Domain.Errors.{ok}
use data_trains.Domain.Model.{Time, is_queued}
use data_trains.Table.{exists, insert}
use data_trains.Db.{
  Db, ResourceType, session_raw, session_derived, release, RetentionPurge, bind-ok,
}
use data_trains.Retention.Sweep.{
  Candidate, candidates, queue_candidate, queue_candidates, queue_expired_retention, conflicts,
  is_about, is_active, new_purge, type_eq,
}

abbrev is_active_about : Candidate → RetentionPurge → Bool
is_active_about c q = is_about c.resource_type c.resource_id q && is_active q.state

-- A purge of the candidate's resource is queued, leased or blocked.
abbrev pub IsCovered : Db → Candidate → Type 0
IsCovered db c =
    exists (λ q. is_about c.resource_type c.resource_id q && is_active q.state) db.purges ≡ true

-- No purge has the identifier.
abbrev pub is_taken : String → Db → Bool
is_taken id db = exists (λ q. q.id == id) db.purges

exists-insert :
    (p : RetentionPurge → Bool) (q : RetentionPurge) (qs : List RetentionPurge)
    → exists p (insert q qs) ≡ (exists p qs || p q)
unfolding exists
exists-insert p q [] = ground arith
exists-insert p q (r ∷ rs) = ground (arith, exists-insert p q rs)

exists-or :
    (p r : RetentionPurge → Bool) (qs : List RetentionPurge)
    → exists p qs ≡ false
    → exists (λ q. p q || r q) qs ≡ true
    → exists r qs ≡ true
unfolding exists
exists-or p r [] a h = cc
exists-or p r (q ∷ qs) a h = ground (arith, exists-or p r qs)

exists-conflicts :
    (id : String) (c : Candidate) (qs : List RetentionPurge)
    → exists (λ q. q.id == id) qs ≡ false
    → exists (conflicts id c.resource_type c.resource_id) qs ≡ true
    → exists (is_active_about c) qs ≡ true
unfolding conflicts
exists-conflicts id c qs a h = exists-or (λ q. q.id == id) (is_active_about c) qs a h

type_eq_refl : (kind : ResourceType) → type_eq kind kind ≡ true
unfolding type_eq
type_eq_refl session_raw = refl
type_eq_refl session_derived = refl
type_eq_refl release = refl

new_purge-IsActive :
    (id : String) (now : Time) (c : Candidate) → is_active_about c (new_purge id now c) ≡ true
unfolding is_about is_active is_queued
new_purge-IsActive id now c = rw (type_eq_refl c.resource_type, eq_refl c.resource_id) refl

module _ (actor : String) (now : Time) where
  queue_candidate-IsCovered :
      (id : String) (c : Candidate) (db db' : Db) (n : ℕ)
      → is_taken id db ≡ false
      → queue_candidate actor id now c db ≡ ok (n, db')
      → IsCovered db' c
  unfolding queue_candidate
  queue_candidate-IsCovered id c db db' n f h = ground (
    arith,
    exists-conflicts id c db.purges,
    new_purge-IsActive id now c,
    exists-insert (is_active_about c) (new_purge id now c) db.purges,
  )

  queue_candidate-keeps :
      (p : RetentionPurge → Bool) (id : String) (c : Candidate) (db db' : Db) (n : ℕ)
      → queue_candidate actor id now c db ≡ ok (n, db')
      → exists p db.purges ≡ true
      → exists p db'.purges ≡ true
  unfolding queue_candidate
  queue_candidate-keeps p id c db db' n h e =
      ground (arith, exists-insert p (new_purge id now c) db.purges)

  queue_candidate-spares :
      (other id : String) (c : Candidate) (db db' : Db) (n : ℕ)
      → queue_candidate actor id now c db ≡ ok (n, db')
      → (id == other) ≡ false
      → is_taken other db ≡ false
      → is_taken other db' ≡ false
  unfolding queue_candidate
  queue_candidate-spares other id c db db' n h d e =
      ground (arith, exists-insert (λ q. q.id == other) (new_purge id now c) db.purges)

  module _ (new_id : ℕ → String) where
    queue_candidates-keeps :
        (p : RetentionPurge → Bool) (index : ℕ) (cs : List Candidate) (db db' : Db) (n : ℕ)
        → queue_candidates new_id actor now index cs db ≡ ok (n, db')
        → exists p db.purges ≡ true
        → exists p db'.purges ≡ true
    unfolding queue_candidates
    queue_candidates-keeps p index [] db db' n h e = ground arith
    queue_candidates-keeps p index (c ∷ cs) db db' n h e =
        let one = bind-ok db (n, db') (queue_candidate actor (new_id index) now c) _ h in
        let others =
          bind-ok one.0.1 (n, db') (queue_candidates new_id actor now (suc index) cs) _ one.2 in
        let kept =
          queue_candidates-keeps p (suc index) cs one.0.1 others.0.1 others.0.0 others.1
            (queue_candidate-keeps p (new_id index) c db one.0.1 one.0.0 one.1 e) in
        ground (arith, kept, others.2)

    queue_candidates-IsCovered :
        (distinct_ids : (i j : ℕ) → i < j → (new_id i == new_id j) ≡ false) (index : ℕ)
        (cs : List Candidate) (db db' : Db) (n : ℕ)
        → ((i : ℕ) → index ≤ i → is_taken (new_id i) db ≡ false)
        → queue_candidates new_id actor now index cs db ≡ ok (n, db')
        → All (IsCovered db') cs
    unfolding queue_candidates
    queue_candidates-IsCovered distinct_ids index [] db db' n f h = tt
    queue_candidates-IsCovered distinct_ids index (c ∷ cs) db db' n f h =
        let one = bind-ok db (n, db') (queue_candidate actor (new_id index) now c) _ h in
        let others =
          bind-ok one.0.1 (n, db') (queue_candidates new_id actor now (suc index) cs) _ one.2 in
        let here =
          queue_candidate-IsCovered (new_id index) c db one.0.1 one.0.0 (f index (omega arith))
            one.1 in
        let kept =
          queue_candidates-keeps (is_active_about c) (suc index) cs one.0.1 others.0.1 others.0.0
            others.1 here in
        let rest =
          queue_candidates-IsCovered distinct_ids (suc index) cs one.0.1 others.0.1 others.0.0
            (λ i le.
              queue_candidate-spares (new_id i) (new_id index) c db one.0.1 one.0.0 one.1
                (distinct_ids index i (omega arith)) (f i (omega arith)))
            others.1 in
        let same : others.0.1 ≡ db' = ground (arith, others.2) in
        (ground (arith, kept), subst (λ e. All (IsCovered e) cs) same rest)

  -- If the identifiers that are drawn are new and differ from one another, then after the sweep a
  -- purge of each resource that its queries found is queued, leased or blocked.
  pub queue_expired_retention-IsCovered :
      (collate : String → String → Bool) (new_id : ℕ → String) (limit : ℕ) (db db' : Db) (n : ℕ)
      → ((i j : ℕ) → i < j → (new_id i == new_id j) ≡ false)
      → ((i : ℕ) → is_taken (new_id i) db ≡ false)
      → queue_expired_retention collate new_id actor now limit db ≡ ok (n, db')
      → All (IsCovered db') (candidates collate db now limit)
  unfolding queue_expired_retention
  queue_expired_retention-IsCovered collate new_id limit db db' n distinct_ids f h =
      queue_candidates-IsCovered new_id distinct_ids 0 (candidates collate db now limit) db db' n
        (λ i le. f i) (ground arith)
