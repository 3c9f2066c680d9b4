-- ===== src/Retention/Sweep/Due.antt =====
-- What the sweep's queries find (services/api/internal/database/retention_expiry.go).
use data_trains.Base.{
  ℕ, ◌+◌, ◌*◌, ◌≤◌, String, Bool, true, false, ◌≡◌, arith, Option, some, List, [], ◌∷◌, ◌++◌,
  length, take, All, All-take, All-append, length-append, length-take-le, Option-cases, inl, inr,
}
use data_trains.Domain.Model.{Time, ValidationResult}
use data_trains.Table.{exists}
use data_trains.Db.{
  Db, SessionRow, ReleaseRow, ResourceType, session_raw, session_derived, release, RetentionPolicy,
}
use data_trains.Erasure.Holds.{is_held}
use data_trains.Retention.Expiry.{
  day, has_aged, raw_state, derived_state, policy_of, policy_of_release, derived_anchor,
  is_release_held,
}
use data_trains.Retention.Sweep.{
  Candidate, session_candidate, raw_expired, derived_expired, result_expired, release_expired,
  raw_candidate, derived_candidate, release_candidate, collect, candidates, room,
}

-- The resource's data may be purged: its organization has a policy, the period of that policy is
-- over, the session is in a state that lets go of the data, and no legal hold is on it.
pub data IsDue (db : Db) (now : Time) (kind : ResourceType) (id : String) : Type 0 where
  raw :
      (s : SessionRow) (p : RetentionPolicy)
      → kind ≡ session_raw
      → s.id ≡ id
      → policy_of db s ≡ some p
      → raw_state s.state ≡ true
      → s.updated_at + p.raw_days * day ≤ now
      → is_held id db ≡ false
      → IsDue db now kind id
  derived :
      (s : SessionRow) (p : RetentionPolicy)
      → kind ≡ session_derived
      → s.id ≡ id
      → policy_of db s ≡ some p
      → derived_state s.state ≡ true
      → s.updated_at + p.derived_days * day ≤ now
      → is_held id db ≡ false
      → IsDue db now kind id
  dataset :
      (r : ReleaseRow) (p : RetentionPolicy)
      → kind ≡ release
      → r.id ≡ id
      → policy_of_release db r ≡ some p
      → r.created_at + p.release_days * day ≤ now
      → is_release_held id db ≡ false
      → IsDue db now kind id

abbrev pub IsDueCandidate : Db → Time → Candidate → Type 0
IsDueCandidate db now c = IsDue db now c.resource_type c.resource_id

module _ (db : Db) (now : Time) where
  result_expired-le :
      (s : SessionRow) (p : RetentionPolicy) (rs : List ValidationResult)
      → exists (result_expired db now s p) rs ≡ true
      → s.updated_at + p.derived_days * day ≤ now
  unfolding exists result_expired has_aged derived_anchor
  result_expired-le s p [] h = absurd (cc)
  result_expired-le s p (r ∷ rs) h = ground (arith, result_expired-le s p rs)

  module _ (collate : String → String → Bool) where
    raw_candidate-IsDue :
        (s : SessionRow) (c : Candidate)
        → raw_candidate collate db now s ≡ some c
        → IsDueCandidate db now c
    unfolding raw_candidate raw_expired has_aged session_candidate
    raw_candidate-IsDue s c h = elim (Option-cases (policy_of db s)) [
      | inl e ↦ ground arith
      | inr (p, e) ↦
          IsDue.raw s p (ground arith) (ground arith) e (ground arith) (ground arith) (ground arith)
    ]

    derived_candidate-IsDue :
        (s : SessionRow) (c : Candidate)
        → derived_candidate collate db now s ≡ some c
        → IsDueCandidate db now c
    unfolding derived_candidate derived_expired session_candidate
    derived_candidate-IsDue s c h = elim (Option-cases (policy_of db s)) [
      | inl e ↦ ground arith
      | inr (p, e) ↦
          IsDue.derived s p (ground arith) (ground arith) e (ground arith)
            (ground (arith, result_expired-le s p db.results)) (ground arith)
    ]

  release_candidate-IsDue :
      (r : ReleaseRow) (c : Candidate)
      → release_candidate db now r ≡ some c
      → IsDueCandidate db now c
  unfolding release_candidate release_expired has_aged
  release_candidate-IsDue r c h = elim (Option-cases (policy_of_release db r)) [
    | inl e ↦ ground arith
    | inr (p, e) ↦ IsDue.dataset r p (ground arith) (ground arith) e (ground arith) (ground arith)
  ]

collect-All {κ} :
    {R : Type 0} (P : Candidate → Type κ) (f : R → Option Candidate)
    → ((r : R) (c : Candidate) → f r ≡ some c → P c)
    → (rs : List R) → All P (collect f rs)
unfolding collect
collect-All P f k [] = tt
collect-All P f k (r ∷ rs) = elim (Option-cases (f r)) [
  | inl e ↦ rw (e, All) (collect-All P f k rs)
  | inr (c, e) ↦ rw (e, All) (k r c e, collect-All P f k rs)
]

fill-le :
    (limit : ℕ) (xs ys : List Candidate)
    → length xs ≤ limit
    → length (xs ++ take (room limit xs) ys) ≤ limit
fill-le limit xs ys h =
    omega (arith, length-append xs (take (room limit xs) ys), length-take-le (room limit xs) ys)

module _ (collate : String → String → Bool) (db : Db) (now : Time) where
  -- Every candidate of the sweep is due.
  pub candidates-IsDue : (limit : ℕ) → All (IsDueCandidate db now) (candidates collate db now limit)
  unfolding candidates
  candidates-IsDue limit =
      let due = IsDueCandidate db now in
      All-append due _ _
        (All-append due _ _
          (All-take due limit _ (collect-All due _ (raw_candidate-IsDue db now collate) _))
          (All-take due _ _ (collect-All due _ (derived_candidate-IsDue db now collate) _)))
        (All-take due _ _ (collect-All due _ (release_candidate-IsDue db now) _))

  -- There are no more of them than the limit.
  pub length-candidates-le : (limit : ℕ) → length (candidates collate db now limit) ≤ limit
  unfolding candidates
  length-candidates-le limit = fill-le limit _ _ (fill-le limit _ _ (length-take-le limit _))
