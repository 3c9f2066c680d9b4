-- ===== src/Erasure/Requests/Keys.antt =====
-- Which stored objects a deletion request names (services/api/internal/database/erasure.go).
use data_trains.Base.{
  String, Bool, true, false, ◌&&◌, ◌||◌, ◌==◌, some, List, [], ◌∷◌, ◌++◌, map, ◌≡◌, ◌≢◌, refl, ◌∙◌,
  ap, arith, eq_iff, place, sort_by, ◌⊎◌, inl, inr,
}
use data_trains.Domain.Errors.{Result-cases, ok}
use data_trains.Domain.Model.{Time, DeletionRequest, Artifact, ValidationResult}
use data_trains.Table.{exists, insert, select}
use data_trains.Db.{Db, SessionRow, find_session}
use data_trains.Redaction.Document.{seen}
use data_trains.Store.Joins.{session_and_organization}
use data_trains.Erasure.Holds.{is_held}
use data_trains.Erasure.Holds.Placed.{session_and_organization-ok}
use data_trains.Erasure.Requests.{
  request_session_deletion, session_object_keys, deletable_session_state, distinct, normalized_keys,
  is_open, is_being_redacted,
}

seen-append : (k : String) (xs ys : List String) → seen k (xs ++ ys) ≡ (seen k xs || seen k ys)
unfolding seen
seen-append k [] ys = refl
seen-append k (x ∷ xs) ys = ground (arith, seen-append k xs ys)

seen-place :
    (collate : String → String → Bool) (k x : String) (ys : List String)
    → seen k (place collate x ys) ≡ (x == k || seen k ys)
unfolding seen place
seen-place collate k x [] = refl
seen-place collate k x (y ∷ ys) = ground (arith, seen-place collate k x ys)

seen-sort_by :
    (collate : String → String → Bool) (k : String) (xs : List String)
    → seen k (sort_by collate xs) ≡ seen k xs
unfolding seen sort_by
seen-sort_by collate k [] = refl
seen-sort_by collate k (x ∷ xs) =
    seen-place collate k x (sort_by collate xs) ∙ ap (◌||◌ (x == k)) (seen-sort_by collate k xs)

seen-distinct : (k : String) (xs : List String) → seen k (distinct xs) ≡ seen k xs
unfolding seen distinct
seen-distinct k [] = refl
seen-distinct k (x ∷ xs) =
    ground (arith, seen-distinct k xs, seen-distinct x xs, eq_iff x k, eq_iff x x)

seen-artifacts :
    (k session_id : String) (stored : List Artifact)
    → seen k (map (λ a. a.key) (select (λ a. a.session_id == session_id) stored))
      ≡ exists (λ a. a.session_id == session_id && a.key == k) stored
unfolding seen select exists
seen-artifacts k session_id [] = refl
seen-artifacts k session_id (a ∷ stored) = ground (arith, seen-artifacts k session_id stored)

seen-normalized_keys :
    (k session_id : String) (rs : List ValidationResult)
    → k ≢ ""
    → seen k (normalized_keys (select (λ r. r.session_id == session_id) rs))
      ≡ exists (λ r. r.session_id == session_id && r.normalized_key == k) rs
unfolding seen select exists normalized_keys
seen-normalized_keys k session_id [] n = refl
seen-normalized_keys k session_id (r ∷ rs) n = ground (
  arith,
  seen-normalized_keys k session_id rs n,
  eq_iff r.normalized_key k,
  eq_iff r.normalized_key "",
)

seen-object_keys :
    (collate : String → String → Bool) (k session_id : String) (db : Db)
    → k ≢ ""
    → (exists (λ a. a.session_id == session_id && a.key == k) db.artifacts ≡ true)
      ⊎ (exists (λ r. r.session_id == session_id && r.normalized_key == k) db.results ≡ true)
    → seen k (session_object_keys collate session_id db) ≡ true
unfolding session_object_keys
seen-object_keys collate k session_id db n h =
    simp
      (
        seen-sort_by,
        seen-distinct,
        seen-append,
        seen-artifacts,
        seen-normalized_keys k session_id db.results n,
      )
      (ground arith)

-- A deletion that is requested is of a session in a deletable state, without a legal hold and
-- without a redaction that waits or runs. Its request names the key of every artifact and of every
-- normalized trajectory of the session, and no session changes.
pub request_session_deletion-ok :
    (collate : String → String → Bool) (session_id reason new_id actor request_id : String)
    (now : Time) (db db' : Db) (d : DeletionRequest)
    → request_session_deletion collate session_id reason new_id actor request_id now db
      ≡ ok (d, db')
    → (r : SessionRow) × (find_session session_id db ≡ some r)
      × (deletable_session_state r.state ≡ true)
      × (is_held session_id db ≡ false)
      × (is_being_redacted session_id db ≡ false)
      × (exists (is_open session_id) db.deletions ≡ false)
      × ((k : String)
          → k ≢ ""
          → (exists (λ a. a.session_id == session_id && a.key == k) db.artifacts ≡ true)
            ⊎ (exists (λ q. q.session_id == session_id && q.normalized_key == k) db.results ≡ true)
          → seen k d.object_keys ≡ true)
      × (db'.deletions ≡ insert d db.deletions)
      × (db'.sessions ≡ db.sessions)
unfolding request_session_deletion
request_session_deletion-ok collate session_id reason new_id actor request_id now db db' d h =
    elim (Result-cases (session_and_organization session_id db)) [
      | inl ((found, db1), e) ↦
          let f = session_and_organization-ok session_id db db1 found e in
          (
            found.0,
            f.1,
            ground arith,
            ground arith,
            ground arith,
            ground arith,
            λ k n o. ground (arith, seen-object_keys collate k session_id db n o),
            ground arith,
            ground arith,
          )
      | inr (x, e) ↦ ground arith
    ]
