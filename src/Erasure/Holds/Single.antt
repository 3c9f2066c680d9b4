-- ===== src/Erasure/Holds/Single.antt =====
-- A session has one active legal hold at most (the index `legal_holds_one_active_per_session`).
use data_trains.Base.{
  ℕ, ◌+◌, ◌≤◌, String, false, some, List, [], ◌∷◌, ◌≡◌, refl, arith, eq_iff, if◌then◌else◌,
}
use data_trains.Domain.Errors.{ok}
use data_trains.Domain.Model.{Time, LegalHold}
use data_trains.Table.{find, exists, insert, update_where}
use data_trains.Db.{Db}
use data_trains.Erasure.Holds.{
  place_legal_hold, release_legal_hold, holds_session, is_held, is_hold, release_hold,
}
use data_trains.Erasure.Holds.Placed.{place_legal_hold-ok, release_legal_hold-ok}

unfoldable pub active_holds : String → List LegalHold → ℕ
active_holds session_id [] = 0
active_holds session_id (h ∷ hs) =
    (if holds_session session_id h then 1 else 0) + active_holds session_id hs

-- No session has two active holds.
abbrev pub IsSingle : Db → Type 0
IsSingle db = (session_id : String) → active_holds session_id db.holds ≤ 1

exists-false-active_holds :
    (session_id : String) (hs : List LegalHold)
    → exists (holds_session session_id) hs ≡ false
    → active_holds session_id hs ≡ 0
unfolding exists active_holds
exists-false-active_holds session_id [] h = refl
exists-false-active_holds session_id (k ∷ hs) h =
    ground (arith, exists-false-active_holds session_id hs)

active_holds-exists-false :
    (session_id : String) (hs : List LegalHold)
    → active_holds session_id hs ≡ 0
    → exists (holds_session session_id) hs ≡ false
unfolding exists active_holds
active_holds-exists-false session_id [] h = refl
active_holds-exists-false session_id (k ∷ hs) h =
    ground (arith, active_holds-exists-false session_id hs)

active_holds-insert :
    (session_id : String) (k : LegalHold) (hs : List LegalHold)
    → active_holds session_id (insert k hs)
      ≡ active_holds session_id hs + (if holds_session session_id k then 1 else 0)
unfolding active_holds
active_holds-insert session_id k [] = omega arith
active_holds-insert session_id k (h ∷ hs) = omega (arith, active_holds-insert session_id k hs)

active_holds-release :
    (session_id other hold_id actor : String) (now : Time) (hs : List LegalHold)
    → active_holds session_id (update_where (is_hold other hold_id) (release_hold actor now) hs)
      ≤ active_holds session_id hs
unfolding active_holds update_where is_hold holds_session
active_holds-release session_id other hold_id actor now [] = omega arith
active_holds-release session_id other hold_id actor now (h ∷ hs) =
    ground (arith, active_holds-release session_id other hold_id actor now hs)

active_holds-release_found :
    (session_id hold_id actor : String) (now : Time) (hs : List LegalHold) (k : LegalHold)
    → find (is_hold session_id hold_id) hs ≡ some k
    → active_holds session_id
          (update_where (is_hold session_id hold_id) (release_hold actor now) hs)
        + 1
      ≤ active_holds session_id hs
unfolding active_holds update_where find is_hold holds_session
active_holds-release_found session_id hold_id actor now [] k f = ground arith
active_holds-release_found session_id hold_id actor now (h ∷ hs) k f = ground (
  arith,
  active_holds-release session_id session_id hold_id actor now hs,
  active_holds-release_found session_id hold_id actor now hs k,
)

-- Placing a hold keeps every session at one active hold at most.
pub place_legal_hold-IsSingle :
    (session_id reason hold_id actor request_id : String) (now : Time) (db db' : Db) (k : LegalHold)
    → IsSingle db
    → place_legal_hold session_id reason hold_id actor request_id now db ≡ ok (k, db')
    → IsSingle db'
unfolding holds_session
place_legal_hold-IsSingle session_id reason hold_id actor request_id now db db' k s h other =
    let a = place_legal_hold-ok session_id reason hold_id actor request_id now db db' k h in
    rw a.8 (
      ground (
        arith,
        s other,
        active_holds-insert other k db.holds,
        exists-false-active_holds session_id db.holds a.3,
        eq_iff k.session_id other,
      ))

-- Where no session has two active holds, the release of a session's hold leaves that session
-- with none, and still no session with two.
pub release_legal_hold-frees :
    (session_id hold_id actor request_id : String) (now : Time) (db db' : Db)
    → IsSingle db
    → release_legal_hold session_id hold_id actor request_id now db ≡ ok (tt, db')
    → (is_held session_id db' ≡ false) × IsSingle db'
release_legal_hold-frees session_id hold_id actor request_id now db db' s h =
    let a = release_legal_hold-ok session_id hold_id actor request_id now db db' h in
    let fewer = active_holds-release_found session_id hold_id actor now db.holds a.0 a.1 in
    (
      active_holds-exists-false session_id db'.holds (rw a.2 (omega (arith, s session_id))),
      λ other. rw a.2 (
          omega (arith, s other, active_holds-release other session_id hold_id actor now db.holds)),
    )
