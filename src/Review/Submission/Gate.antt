-- ===== src/Review/Submission/Gate.antt =====
-- What lets a review through, and what it leaves behind.
use data_trains.Base.{
  ◌||◌, ◌⊎◌, inl, inr, refl, sym, subst, ◌∙◌, Bool-cases, ◌<◌, String, Bool, true, not, ◌==◌,
  Option, none, some, ◌≡◌, arith, eq_iff,
}
use data_trains.Domain.State.{SessionState, ready_for_review, accepted, rejected, rework_required}
use data_trains.Domain.Errors.{ok, message}
use data_trains.Domain.Model.{Time, ReviewClaim}
use data_trains.Domain.Session.{Session}
use data_trains.Table.{delete_where}
use data_trains.Table.Laws.{find-delete, find-some}
use data_trains.Db.{
  Db, Tx, SessionRow, find_session, ◌>>=◌, ◌>>◌, pure, fail_if, lift, fail_if-ok, lift-ok, bind-ok,
}
use data_trains.Redaction.Document.{Floats, RedactionDocument}
use data_trains.Redaction.Plans.{Encoding}
use data_trains.Review.Claims.{find_claim}
use data_trains.Review.Submission.Moved.{settle_review-found}
use data_trains.Review.Submission.{
  Review, ReviewIds, submit_review, settle_review, plan_redaction, start_rework, check_review,
  check_document, claimed_session, move_session, decision_state,
}

-- The state of a session after a decision.
abbrev pub IsDecided : String → SessionState → Type 0
IsDecided decision state =
    ((decision ≡ "accepted") × (state ≡ accepted))
    ⊎ (((decision ≡ "rejected") × (state ≡ rejected))
        ⊎ ((decision ≡ "rework_required") × (state ≡ rework_required)))

start_rework-claims :
    (session : Session) (rework_id review_id actor request_id : String) (now : Time) (db db' : Db)
    → start_rework session rework_id review_id actor request_id now db ≡ ok (tt, db')
    → db'.claims ≡ db.claims
unfolding start_rework
start_rework-claims session rework_id review_id actor request_id now db db' h = ground arith

module _ {N : Type 0} (f : Floats N) (encoding : Encoding N) (collate : String → String → Bool)
    (valid_scores : String → Bool) where
  plan_redaction-claims :
      (r : Review N) (documents : Option (RedactionDocument N × RedactionDocument N))
      (ids : ReviewIds) (request_id : String) (now : Time) (db db' : Db)
      → plan_redaction f encoding collate valid_scores r documents ids request_id now db
        ≡ ok (tt, db')
      → db'.claims ≡ db.claims
  unfolding plan_redaction
  plan_redaction-claims r none ids request_id now db db' h = ground arith
  plan_redaction-claims r (some (d, c)) ids request_id now db db' h = ground arith

  pub settle_review-claims :
      (r : Review N) (documents : Option (RedactionDocument N × RedactionDocument N))
      (session : Session) (ids : ReviewIds) (actor request_id : String) (now : Time) (db db' : Db)
      → settle_review f encoding collate valid_scores r documents session ids actor request_id now
          db
        ≡ ok (tt, db')
      → db'.claims ≡ delete_where (λ c. c.session_id == r.session_id) db.claims
  unfolding settle_review
  settle_review-claims r none session ids actor request_id now db db' h = ground arith
  settle_review-claims r (some (d, c)) session ids actor request_id now db db' h = ground arith

  -- A decision that is not refused leads to the state of its name.
  decided :
      (decision : String)
      → (decision == "accepted" || decision == "rejected" || decision == "rework_required") ≡ true
      → IsDecided decision (decision_state decision)
  unfolding decision_state
  decided decision h = elim (Bool-cases (decision == "accepted")) [
    | inl a ↦ inl ((eq_iff decision "accepted").0 a, ground (arith, a))
    | inr a ↦ elim (Bool-cases (decision == "rejected")) [
      | inl b ↦ inr (inl ((eq_iff decision "rejected").0 b, ground (arith, a, b)))
      | inr b ↦
          inr (
            inr
              ((eq_iff decision "rework_required").0 (ground (arith, a, b)), ground (arith, a, b)))
    ]
  ]

  check_review-ok :
      (r : Review N) (actor : String)
      → check_review f encoding collate valid_scores r actor ≡ ok tt
      → (r.decision ≡ "accepted" → r.pii_review ≡ "passed")
        × (r.reviewer_id ≡ actor)
        × IsDecided r.decision (decision_state r.decision)
  unfolding check_review decision_state
  check_review-ok r actor h = (
    λ e. ground (arith, eq_iff r.decision "accepted", eq_iff r.pii_review "passed"),
    ground (arith, eq_iff r.reviewer_id actor),
    decided r.decision (ground arith),
  )

  pub claimed_session-ok :
      (r : Review N) (now : Time) (db db' : Db) (q : SessionRow)
      → claimed_session f encoding collate valid_scores r now db ≡ ok (q, db')
      → (db' ≡ db)
        × (find_session r.session_id db ≡ some q)
        × (q.state ≡ ready_for_review)
        × (c : ReviewClaim) × (find_claim r.session_id db ≡ some c)
        × ((c.reviewer_id == r.reviewer_id) ≡ true)
        × (now < c.expires_at)
  unfolding claimed_session
  claimed_session-ok r now db db' q h = ground arith

  move_session-ok :
      (r : Review N) (actor request_id : String) (now : Time) (q : SessionRow) (db db' : Db)
      (s : Session)
      → move_session f encoding collate valid_scores r actor request_id now q db ≡ ok (s, db')
      → (s.state ≡ decision_state r.decision) × (db' ≡ db) × (s.id ≡ q.id) × (s.updated_at ≡ now)
  unfolding move_session
  move_session-ok r actor request_id now q db db' s h = ground arith

  decided-ok :
      (r : Review N) (documents : Option (RedactionDocument N × RedactionDocument N))
      (ids : ReviewIds) (actor request_id : String) (now : Time) (q : SessionRow) (db db' : Db)
      (s : Session)
      → (move_session f encoding collate valid_scores r actor request_id now q >>= λ session.
            settle_review f encoding collate valid_scores r documents session ids actor request_id
              now
            >> pure session)
          db
        ≡ ok (s, db')
      → (s.state ≡ decision_state r.decision)
        × (settle_review f encoding collate valid_scores r documents s ids actor request_id now db
            ≡ ok (tt, db'))
        × (s.id ≡ q.id)
        × (s.updated_at ≡ now)
  decided-ok r documents ids actor request_id now q db db' s h =
      let a =
        bind-ok db (s, db') (move_session f encoding collate valid_scores r actor request_id now q)
          (λ session.
            settle_review f encoding collate valid_scores r documents session ids actor request_id
              now
            >> pure session)
          h in
      let m = move_session-ok r actor request_id now q db a.0.1 a.0.0 a.1 in
      let b =
        bind-ok a.0.1 (s, db')
          (settle_review f encoding collate valid_scores r documents a.0.0 ids actor request_id now)
          (λ _. pure a.0.0) a.2 in
      let same : a.0.0 ≡ s = cc in let left : b.0.1 ≡ db' = cc in (cc, cc, cc, cc)

  pub submitted-ok :
      (r : Review N) (ids : ReviewIds) (actor request_id : String) (now : Time) (db db' : Db)
      (s : Session)
      → submit_review f encoding collate valid_scores r ids actor request_id now db ≡ ok (s, db')
      → (check_review f encoding collate valid_scores r actor ≡ ok tt)
        × (s.state ≡ decision_state r.decision)
        × (documents : Option (RedactionDocument N × RedactionDocument N)) × (q : SessionRow)
        × (claimed_session f encoding collate valid_scores r now db ≡ ok (q, db))
        × (settle_review f encoding collate valid_scores r documents s ids actor request_id now db
            ≡ ok (tt, db'))
        × (s.id ≡ q.id)
        × (s.updated_at ≡ now)
  unfolding submit_review
  submitted-ok r ids actor request_id now db db' s h =
      let Documents = Option (RedactionDocument N × RedactionDocument N) in
      let move : Documents → SessionRow → Tx Session = λ documents q.
        move_session f encoding collate valid_scores r actor request_id now q >>= (λ session.
          settle_review f encoding collate valid_scores r documents session ids actor request_id now
          >> pure session) in
      let scores : Documents → Tx Session = λ documents.
        fail_if (not (valid_scores r.scores)) (message "scores must be a non-empty JSON object")
        >> (claimed_session f encoding collate valid_scores r now >>= move documents) in
      let a =
        lift-ok db (s, db') (check_review f encoding collate valid_scores r actor)
          (λ _.
            lift (check_document f encoding collate valid_scores r r.redaction_document) >>= scores)
          h in
      let b =
        lift-ok db (s, db') (check_document f encoding collate valid_scores r r.redaction_document)
          scores a.2 in
      let c =
        fail_if-ok db (s, db') (not (valid_scores r.scores))
          (message "scores must be a non-empty JSON object")
          (claimed_session f encoding collate valid_scores r now >>= move b.0) b.2 in
      let d =
        bind-ok db (s, db') (claimed_session f encoding collate valid_scores r now) (move b.0)
          c.1 in
      let same : d.0.1 ≡ db = (claimed_session-ok r now db d.0.1 d.0.0 d.1).0 in
      let e = decided-ok r b.0 ids actor request_id now d.0.0 d.0.1 db' s d.2 in
      (a.1, e.0, b.0, d.0.0, cc, cc, e.2, e.3)

  -- A review that succeeds was submitted by the reviewer whose claim on the session was live; it
  -- moves the row of the session from ready for review to the state of the decision, ends the claim, and an accepting
  -- one has passed the PII review.
  pub submit_review-ok :
      (r : Review N) (ids : ReviewIds) (actor request_id : String) (now : Time) (db db' : Db)
      (s : Session)
      → submit_review f encoding collate valid_scores r ids actor request_id now db ≡ ok (s, db')
      → (t : SessionRow) × (find_session r.session_id db' ≡ some t)
        × IsDecided r.decision t.state
        × (s.id ≡ r.session_id)
        × (s.state ≡ t.state)
        × (r.decision ≡ "accepted" → r.pii_review ≡ "passed")
        × (find_claim r.session_id db' ≡ none)
        × (q : SessionRow) × (find_session r.session_id db ≡ some q)
        × (q.state ≡ ready_for_review)
        × (c : ReviewClaim) × (find_claim r.session_id db ≡ some c)
        × (c.reviewer_id ≡ r.reviewer_id)
        × (r.reviewer_id ≡ actor)
        × (now < c.expires_at)
  submit_review-ok r ids actor request_id now db db' s h =
      let a = submitted-ok r ids actor request_id now db db' s h in
      let g = check_review-ok r actor a.0 in
      let c = claimed_session-ok r now db db a.3 a.4 in
      let same : a.3.id ≡ r.session_id =
        (eq_iff a.3.id r.session_id).0
          (find-some (λ q. q.id == r.session_id) db.sessions a.3 c.1) in
      let moved =
        settle_review-found f encoding collate valid_scores r a.2 s ids actor request_id now db db'
          a.3 (sym a.6) (subst (λ id. find_session id db ≡ some a.3) (sym (a.6 ∙ same)) c.1) a.5 in
      (
        record a.3 { state = s.state; updated_at = s.updated_at },
        subst
            (λ id.
              find_session id db'
              ≡ some (record a.3 { state = s.state; updated_at = s.updated_at }))
            (a.6 ∙ same) moved,
        subst (IsDecided r.decision) (sym a.1) g.2,
        a.6 ∙ same,
        refl,
        g.0,
        rw (settle_review-claims r a.2 s ids actor request_id now db db' a.5)
            (find-delete (λ c. c.session_id == r.session_id) db.claims),
        a.3,
        c.1,
        c.2,
        c.3,
        c.4,
        (eq_iff c.3.reviewer_id r.reviewer_id).0 c.5,
        g.1,
        c.6,
      )
