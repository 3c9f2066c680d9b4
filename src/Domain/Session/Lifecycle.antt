-- ===== src/Domain/Session/Lifecycle.antt =====
-- What a chain of transitions can do to a session.
use data_trains.Base.{
  ℕ, ◌+◌, ◌*◌, ◌≤◌, ◌≡◌, refl, Bool, true, false, List, [], ◌∷◌, ◌&&◌, ◌||◌, length, arith,
}
use data_trains.Domain.State.{
  SessionState, allowed_transition, state_eq, SessionState-discrete, created, assigned, ready,
  recording, finalizing, uploading, submitted, processing, ready_for_review, accepted, released,
  failed, rejected, rework_required, cancelled, deleted,
}

-- A chain of allowed transitions, with the states it passes, the last one first.
pub data Chain (s : SessionState) : SessionState → List SessionState → Type 0 where
  start : Chain s s (s ∷ [])
  step :
      {t u : SessionState} {visited : List SessionState}
      → Chain s t visited
      → allowed_transition t u ≡ true
      → Chain s u (u ∷ visited)

-- How far along the capture a state is; a session sent to rework starts anew from `ready`.
stage : SessionState → ℕ
stage created = 0
stage assigned = 1
stage rework_required = 1
stage ready = 2
stage recording = 3
stage finalizing = 4
stage uploading = 5
stage submitted = 6
stage processing = 7
stage ready_for_review = 8
stage accepted = 9
stage _ = 10

rework_weight : SessionState → ℕ
rework_weight rework_required = 1
rework_weight _ = 0

pub reworks : List SessionState → ℕ
unfolding rework_weight
reworks [] = 0
reworks (s ∷ ss) = rework_weight s + reworks ss

-- A transition moves on by a stage, or enters rework from the review.
allowed-stage :
    (t u : SessionState)
    → allowed_transition t u ≡ true
    → stage t + 1 ≤ stage u + 8 * rework_weight u
unfolding allowed_transition stage rework_weight
allowed-stage created u h = ground arith
allowed-stage _ u h = ground arith

stage-le : (u : SessionState) → stage u ≤ 10
unfolding stage
stage-le created = omega arith
stage-le _ = omega arith

Chain-stage :
    {s u : SessionState} {visited : List SessionState}
    → Chain s u visited
    → length visited ≤ stage u + 1 + 8 * reworks visited
unfolding reworks
Chain-stage start = omega arith
Chain-stage (step {t} {u} c h) = omega (arith, allowed-stage t u h, Chain-stage c)

-- A session that is sent to rework k times passes at most 11 + 8 * k states, whatever is asked of it.
pub Chain-length-le :
    {s u : SessionState} {visited : List SessionState}
    → Chain s u visited
    → length visited ≤ 11 + 8 * reworks visited
Chain-length-le {u} c = omega (arith, Chain-stage c, stage-le u)

pub passes : SessionState → List SessionState → Bool
passes s [] = false
passes s (t ∷ ts) = state_eq s t || passes s ts

abbrev before_review : List SessionState
before_review =
    processing ∷ submitted ∷ uploading ∷ finalizing ∷ recording ∷ ready ∷ assigned ∷ created ∷ []

-- The states that a session must have passed since its creation to be where it is.
abbrev pub required : SessionState → List SessionState
required created = []
required assigned = created ∷ []
required ready = assigned ∷ created ∷ []
required recording = ready ∷ assigned ∷ created ∷ []
required finalizing = recording ∷ ready ∷ assigned ∷ created ∷ []
required uploading = finalizing ∷ recording ∷ ready ∷ assigned ∷ created ∷ []
required submitted = uploading ∷ finalizing ∷ recording ∷ ready ∷ assigned ∷ created ∷ []
required processing =
    submitted ∷ uploading ∷ finalizing ∷ recording ∷ ready ∷ assigned ∷ created ∷ []
required ready_for_review = before_review
required accepted = ready_for_review ∷ before_review
required rejected = ready_for_review ∷ before_review
required rework_required = ready_for_review ∷ before_review
required released = accepted ∷ ready_for_review ∷ before_review
required failed = created ∷ []
required cancelled = created ∷ []
required deleted = []

pub all_in : List SessionState → List SessionState → Bool
all_in [] ts = true
all_in (s ∷ ss) ts = passes s ts && all_in ss ts

required_grows :
    (t u : SessionState)
    → allowed_transition t u ≡ true
    → all_in (required u) (t ∷ required t) ≡ true
unfolding allowed_transition all_in passes SessionState-discrete
required_grows created u h = ground arith
required_grows _ u h = ground arith

passes-all_in :
    (s : SessionState) (ts visited : List SessionState)
    → all_in ts visited ≡ true
    → passes s ts ≡ true
    → passes s visited ≡ true
unfolding all_in passes
passes-all_in s [] visited h p = cc
passes-all_in s (t ∷ ts) visited h p = elim (SessionState-discrete s t) [
  | yes e ↦ rw e (ground arith)
  | no ne ↦ passes-all_in s ts visited (ground arith) (ground arith)
]

all_in_trans :
    (ss ts visited : List SessionState)
    → all_in ts visited ≡ true
    → all_in ss ts ≡ true
    → all_in ss visited ≡ true
unfolding all_in
all_in_trans [] ts visited h p = refl
all_in_trans (s ∷ ss) ts visited h p =
    ground (arith, passes-all_in s ts visited, all_in_trans ss ts visited)

all_in-cons :
    (u : SessionState) (ts visited : List SessionState)
    → all_in ts visited ≡ true
    → all_in ts (u ∷ visited) ≡ true
unfolding all_in passes
all_in-cons u [] visited h = refl
all_in-cons u (t ∷ ts) visited h = ground (arith, all_in-cons u ts visited)

passes_last :
    {s u : SessionState} {visited : List SessionState} → Chain s u visited → passes u visited ≡ true
unfolding passes
passes_last (start) = ground arith
passes_last (step c h) = ground arith

-- A session that was created anew has passed, on any chain of allowed transitions, every state
-- that is required where it stands: a released one was accepted, was ready for review, was
-- processed, submitted, uploaded, finalized and recorded, and was ready and assigned before.
pub Chain-required :
    {u : SessionState} {visited : List SessionState}
    → Chain created u visited
    → all_in (required u) visited ≡ true
unfolding all_in
Chain-required start = refl
Chain-required (step {t} {u} {visited} c h) = all_in-cons u (required u) visited (
    all_in_trans (required u) (t ∷ required t) visited
      (ground (arith, passes_last c, Chain-required c)) (required_grows t u h))
