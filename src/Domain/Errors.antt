-- ===== src/Domain/Errors.antt =====
-- The errors that the services return, and results.
use data_trains.Base.{String, ◌≡◌, refl, ◌⊎◌, inl, inr}
use data_trains.Domain.State.{SessionState}

-- A constructor for each error variable. `wrong_state` is an error that wraps
-- `ErrInvalidTransition` with the state found; `message` is an error with its text alone;
-- `constraint` is a violated uniqueness constraint of the database, by name.
pub data Error : Type 0 where
  not_found consent_missing artifact_conflict artifacts_missing no_job_available job_lease : Error
  job_not_dead_letter review_claimed review_lease pii_gate : Error
  deletion_not_allowed legal_hold_active legal_hold_exists deletion_pending : Error
  no_deletion_request deletion_lease deletion_not_dead redaction_in_progress : Error
  retention_purge_in_progress redaction_eligibility no_redaction_job redaction_job_lease : Error
  redaction_not_dead redaction_conflict invalid_redaction_plan : Error
  invalid_key immutable_raw : Error
  no_retention_purge retention_lease retention_not_dead invalid_retention_policy : Error
  invalid_transition : SessionState → SessionState → Error
  wrong_state : SessionState → Error
  message : String → Error
  constraint : String → Error

pub data Result {ℓ} (A : Type ℓ) : Type ℓ where
  ok : A → Result A
  err : Error → Result A

-- `fmt.Errorf("%w: %v", ErrInvalidRedactionPlan, err)`
abbrev pub as_invalid_plan {ℓ} : {A : Type ℓ} → Result A → Result A
as_invalid_plan (ok a) = ok a
as_invalid_plan (err e) = err invalid_redaction_plan

pub Result-cases {ℓ} :
    {A : Type ℓ} (r : Result A) → ((a : A) × (r ≡ ok a)) ⊎ ((e : Error) × (r ≡ err e))
Result-cases (ok a) = inl (a, refl)
Result-cases (err e) = inr (e, refl)
