-- ===== src/Review/Submission/Moved.antt =====
-- Where a review leaves its session.
use data_trains.Base.{
  String, Bool, true, false, ◌==◌, Option, none, some, List, ◌≡◌, sym, subst, arith, inl, inr, ◌⊎◌,
  eq_refl,
}
use data_trains.Domain.State.{assigned}
use data_trains.Domain.Errors.{ok}
use data_trains.Domain.Session.{Session}
use data_trains.Domain.Model.{Time}
use data_trains.Table.{exists, find, insert, update_where}
use data_trains.Table.Laws.{find-update_self, find-insert_old}
use data_trains.Db.{Db, SessionRow, find_session}
use data_trains.Store.Catalog.{new_session}
use data_trains.Redaction.Document.{Floats, RedactionDocument}
use data_trains.Redaction.Plans.{Encoding, insert_plan}
use data_trains.Review.Submission.{Review, ReviewIds, settle_review}

-- The rework session of a review.
abbrev pub successor : Session → String → Time → SessionRow
successor session id now = record (new_session id session.assignment_id assigned now) {
  rework_of_session_id = some session.id;
}

abbrev pub saved : Session → List SessionRow → List SessionRow
saved s =
    update_where (λ q. q.id == s.id) (λ q. record q { state = s.state; updated_at = s.updated_at })

saved-found :
    (s : Session) (rows : List SessionRow) (q : SessionRow)
    → q.id ≡ s.id
    → find (λ r. r.id == s.id) rows ≡ some q
    → find (λ r. r.id == s.id) (saved s rows)
      ≡ some (record q { state = s.state; updated_at = s.updated_at })
saved-found s rows q e h =
    find-update_self (λ r. r.id == s.id)
      (λ r. record r { state = s.state; updated_at = s.updated_at }) rows q
      (subst (λ id. (id == s.id) ≡ true) (sym e) (eq_refl s.id)) h

module _ {N : Type 0} (f : Floats N) (encoding : Encoding N) (collate : String → String → Bool)
    (valid_scores : String → Bool) where
  pub settle_review-sessions :
      (r : Review N) (documents : Option (RedactionDocument N × RedactionDocument N))
      (session : Session) (ids : ReviewIds) (actor request_id : String) (now : Time) (db db' : Db)
      → settle_review f encoding collate valid_scores r documents session ids actor request_id now
          db
        ≡ ok (tt, db')
      → (db'.sessions ≡ saved session db.sessions)
        ⊎ ((exists (λ q. q.id == ids.rework) (saved session db.sessions) ≡ false)
            × (db'.sessions
                ≡ insert (successor session ids.rework now) (saved session db.sessions)))
  unfolding settle_review insert_plan
  settle_review-sessions r none session ids actor request_id now db db' h = ground arith
  settle_review-sessions r (some (d, c)) session ids actor request_id now db db' h = ground arith

  -- The row of the session has the state that the session was moved to.
  pub settle_review-found :
      (r : Review N) (documents : Option (RedactionDocument N × RedactionDocument N))
      (session : Session) (ids : ReviewIds) (actor request_id : String) (now : Time) (db db' : Db)
      (q : SessionRow)
      → q.id ≡ session.id
      → find_session session.id db ≡ some q
      → settle_review f encoding collate valid_scores r documents session ids actor request_id now
          db
        ≡ ok (tt, db')
      → find_session session.id db'
        ≡ some (record q { state = session.state; updated_at = session.updated_at })
  settle_review-found r documents session ids actor request_id now db db' q e found h =
      let there = saved-found session db.sessions q e found in
      elim (settle_review-sessions r documents session ids actor request_id now db db' h) [
        | inl same ↦
            subst
              (λ rows.
                find (λ r. r.id == session.id) rows
                ≡ some (record q { state = session.state; updated_at = session.updated_at }))
              (sym same) there
        | inr (x, same) ↦
            subst
              (λ rows.
                find (λ r. r.id == session.id) rows
                ≡ some (record q { state = session.state; updated_at = session.updated_at }))
              (sym same)
              (find-insert_old (λ r. r.id == session.id) (successor session ids.rework now)
                (saved session db.sessions) _ there)
      ]
