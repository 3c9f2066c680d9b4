-- ===== src/System/Calls/Guarded.antt =====
-- What the operations on legal holds and the end of an erasure leave of a held session.
use data_trains.Erasure.Holds.{place_legal_hold, release_legal_hold}
use data_trains.Erasure.Worker.{complete_deletion_request}
use data_trains.Base.{
  String, Bool, true, false, none, ◌==◌, List, [], ◌∷◌, ◌≡◌, refl, subst, sym, ap, arith, inl, inr,
  eq_iff, ◌∙◌,
}
use data_trains.Pipeline.Artifacts.{register_artifact}
use data_trains.Pipeline.Artifacts.Registered.{register_artifact-ok}
use data_trains.Domain.Errors.{ok, Result-cases}
use data_trains.Db.{Db, Tx, after}
use data_trains.Erasure.Holds.Placed.{place_legal_hold-ok, release_legal_hold-ok}
use data_trains.Domain.Model.{Time, Artifact, LegalHold}
use data_trains.Table.{select, exists, insert, update_where, delete_where}
use data_trains.Erasure.Holds.{is_held, is_hold, holds_session, release_hold as released}
use data_trains.Erasure.Worker.{erase_rows}
use data_trains.Erasure.Worker.Erased.{complete_deletion_request-ok}
use data_trains.Store.Joins.{session_and_organization}
use data_trains.System.Calls.Spared.{evidence}

-- The artifacts of a session.
abbrev pub artifacts_of : String → Db → List Artifact
artifacts_of s db = select (λ a. a.session_id == s) db.artifacts

-- The session is still held, and it has the same artifacts.
abbrev pub IsGuarded : String → Db → Db → Type 0
IsGuarded s db db' = (is_held s db' ≡ true) × (artifacts_of s db' ≡ artifacts_of s db)

pub after-IsGuarded :
    {A : Type 0} (s : String) (m : Tx A) (db : Db)
    → ((a : A) (db' : Db) → m db ≡ ok (a, db') → IsGuarded s db db')
    → is_held s db ≡ true
    → IsGuarded s db (after m db)
unfolding after
after-IsGuarded s m db k c = elim (Result-cases (m db)) [
  | inl ((a, db'), e) ↦ rw (after, e) (k a db' e)
  | inr (x, e) ↦ rw (after, e) (c, refl)
]

pub evidence-IsGuarded :
    (s : String) (db db' : Db)
    → evidence db' ≡ evidence db
    → is_held s db ≡ true
    → IsGuarded s db db'
evidence-IsGuarded s db db' e c = (
  subst (λ hs. exists (holds_session s) hs ≡ true) (sym (ap (λ p. p.1) e)) c,
  ap (λ p. select (λ a. a.session_id == s) p.0) e,
)

exists-insert_old :
    (p : LegalHold → Bool) (k : LegalHold) (hs : List LegalHold)
    → exists p hs ≡ true
    → exists p (insert k hs) ≡ true
unfolding exists
exists-insert_old p k [] e = cc
exists-insert_old p k (h ∷ hs) e = ground (arith, exists-insert_old p k hs)

pub place_legal_hold-IsGuarded :
    (s t reason new actor request : String) (now : Time) (db db' : Db) (k : LegalHold)
    → place_legal_hold t reason new actor request now db ≡ ok (k, db')
    → is_held s db ≡ true
    → IsGuarded s db db'
unfolding place_legal_hold session_and_organization
place_legal_hold-IsGuarded s t reason new actor request now db db' k h c =
    let a = place_legal_hold-ok t reason new actor request now db db' k h in
    let same : db'.artifacts ≡ db.artifacts = ground arith in
    (
      subst (λ hs. exists (holds_session s) hs ≡ true) (sym a.8)
          (exists-insert_old (holds_session s) k db.holds c),
      ap (select (λ q. q.session_id == s)) same,
    )

exists-release_other :
    (s t hold_id actor : String) (now : Time) (hs : List LegalHold)
    → (t == s) ≡ false
    → exists (holds_session s) (update_where (is_hold t hold_id) (released actor now) hs)
      ≡ exists (holds_session s) hs
unfolding exists update_where is_hold holds_session
exists-release_other s t hold_id actor now [] n = refl
exists-release_other s t hold_id actor now (h ∷ hs) n = ground (
  arith,
  exists-release_other s t hold_id actor now hs n,
  eq_iff h.session_id t,
  eq_iff h.session_id s,
)

pub release_legal_hold-IsGuarded :
    (s t hold_id actor request : String) (now : Time) (db db' : Db)
    → (t == s) ≡ false
    → release_legal_hold t hold_id actor request now db ≡ ok (tt, db')
    → is_held s db ≡ true
    → IsGuarded s db db'
unfolding release_legal_hold
release_legal_hold-IsGuarded s t hold_id actor request now db db' n h c =
    let a = release_legal_hold-ok t hold_id actor request now db db' h in
    let same : db'.artifacts ≡ db.artifacts = ground arith in
    (
      subst (λ hs. exists (holds_session s) hs ≡ true) (sym a.2)
          (exists-release_other s t hold_id actor now db.holds n ∙ c),
      ap (select (λ q. q.session_id == s)) same,
    )

select-insert_other :
    (s : String) (r : Artifact) (rs : List Artifact)
    → (r.session_id == s) ≡ false
    → select (λ a. a.session_id == s) (insert r rs) ≡ select (λ a. a.session_id == s) rs
unfolding select
select-insert_other s r [] n = ground arith
select-insert_other s r (q ∷ rs) n = ground (arith, select-insert_other s r rs n)

pub register_artifact-IsGuarded :
    (s new actor request : String) (a : Artifact) (now : Time) (db db' : Db) (b : Artifact)
    → (a.session_id == s) ≡ false
    → register_artifact a new actor request now db ≡ ok (b, db')
    → is_held s db ≡ true
    → IsGuarded s db db'
register_artifact-IsGuarded s new actor request a now db db' b n h c =
    let e = register_artifact-ok a new actor request now db db' b h in
    (
      subst (λ hs. exists (holds_session s) hs ≡ true) (sym e.1) c,
      elim e.2 [
        | inl same ↦ ap (select (λ q. q.session_id == s)) same
        | inr new_row ↦
            ap (select (λ q. q.session_id == s)) new_row
            ∙ select-insert_other s (record a { id = new; purged_at = none }) db.artifacts n
      ],
    )

select-delete_other :
    (s t : String) (rs : List Artifact)
    → (t == s) ≡ false
    → select (λ a. a.session_id == s) (delete_where (λ a. a.session_id == t) rs)
      ≡ select (λ a. a.session_id == s) rs
unfolding select delete_where
select-delete_other s t [] n = refl
select-delete_other s t (r ∷ rs) n =
    ground (arith, select-delete_other s t rs n, eq_iff r.session_id t)

pub complete_deletion_request-IsGuarded :
    (s d w : String) (now : Time) (db db' : Db)
    → complete_deletion_request d w now db ≡ ok (tt, db')
    → is_held s db ≡ true
    → IsGuarded s db db'
unfolding complete_deletion_request erase_rows
complete_deletion_request-IsGuarded s d w now db db' h c =
    let a = complete_deletion_request-ok d w now db db' h in
    let other : (a.0.session_id == s) ≡ false = ground (arith, eq_iff a.0.session_id s) in
    let left : db'.artifacts ≡ delete_where (λ q. q.session_id == a.0.session_id) db.artifacts =
      ground arith in
    (
      subst (λ hs. exists (holds_session s) hs ≡ true) (sym a.8) c,
      ap (select (λ q. q.session_id == s)) left
          ∙ select-delete_other s a.0.session_id db.artifacts other,
    )
