-- ===== src/Review/Calls/Reserved.antt =====
-- A session is reviewed by one reviewer at a time, whatever others call.
use data_trains.Base.{
  ap, ℕ, ◌+◌, ◌<◌, String, Bool, true, false, not, ◌&&◌, ◌==◌, ltb, none, some, List, [], ◌∷◌, ◌≡◌,
  sym, subst, arith, All, eq_iff, eq_refl, inl, inr, ◌⊎◌, ◌∙◌, Bool-cases, Option-cases,
}
use data_trains.Domain.Errors.{ok, Result-cases}
use data_trains.Domain.Model.{Time, ReviewClaim}
use data_trains.Table.{find, insert, update_where, delete_where}
use data_trains.Table.Laws.{find-insert_old}
use data_trains.Db.{Db, Tx, after}
use data_trains.Redaction.Document.{Floats}
use data_trains.Redaction.Plans.{Encoding}
use data_trains.Review.Claims.{claim_review, release_review, find_claim}
use data_trains.Review.Claims.Exclusive.{claim_review-ok}
use data_trains.Review.Submission.{submit_review}
use data_trains.Review.Submission.Gate.{submitted-ok, settle_review-claims, submit_review-ok}
use data_trains.Review.Calls.{ReviewCall, claim, release, review, run_review, run_reviews}

-- The call is made before the claim ends, and is not one of the reviewer on the session.
unfoldable pub yields : {N : Type 0} → String → String → Time → ReviewCall N → Bool
yields id reviewer_id expires (claim s v actor request lease now) =
    ltb now expires && not (s == id && v == reviewer_id)
yields id reviewer_id expires (release s v actor request now) = not (s == id && v == reviewer_id)
yields id reviewer_id expires (review given ids actor request now) =
    not (given.session_id == id && given.reviewer_id == reviewer_id)

-- The session's claim is the reviewer's, until then.
abbrev IsReserved : String → String → Time → List ReviewClaim → Type 0
IsReserved id reviewer_id expires rows =
    (c : ReviewClaim) × (find (λ q. q.session_id == id) rows ≡ some c)
    × (c.reviewer_id ≡ reviewer_id)
    × (c.expires_at ≡ expires)

find-update_other :
    (id other : String) (new c : ReviewClaim) (rows : List ReviewClaim)
    → (other == id) ≡ false
    → new.session_id ≡ other
    → find (λ q. q.session_id == id) rows ≡ some c
    → find (λ q. q.session_id == id) (update_where (λ q. q.session_id == other) (λ _. new) rows)
      ≡ some c
unfolding find update_where
find-update_other id other new c [] n e h = cc
find-update_other id other new c (q ∷ rows) n e h = ground (
  arith,
  find-update_other id other new c rows n e,
  eq_iff q.session_id id,
  eq_iff q.session_id other,
)

find-delete_other :
    (id other : String) (c : ReviewClaim) (rows : List ReviewClaim)
    → (other == id) ≡ false
    → find (λ q. q.session_id == id) rows ≡ some c
    → find (λ q. q.session_id == id) (delete_where (λ q. q.session_id == other) rows) ≡ some c
unfolding find delete_where
find-delete_other id other c [] n h = cc
find-delete_other id other c (q ∷ rows) n h =
    ground (
      arith,
      find-delete_other id other c rows n,
      eq_iff q.session_id id,
      eq_iff q.session_id other,
    )

-- What a claim writes, and which claim it may take the place of.
claim_review-claims :
    (s v actor request : String) (lease : ℕ) (now : Time) (db db' : Db) (new : ReviewClaim)
    → claim_review s v actor request lease now db ≡ ok (new, db')
    → (new.session_id ≡ s)
      × (((find_claim s db ≡ none) × (db'.claims ≡ insert new db.claims))
          ⊎ ((old : ReviewClaim) × (find_claim s db ≡ some old)
              × ((now < old.expires_at) → (old.reviewer_id == v) ≡ true)
              × (db'.claims ≡ update_where (λ q. q.session_id == s) (λ _. new) db.claims)))
unfolding claim_review
claim_review-claims s v actor request lease now db db' new h =
    elim (Option-cases (find_claim s db)) [
      | inl e ↦ (ground arith, inl (e, ground arith))
      | inr (old, e) ↦ (ground arith, inr (old, e, ground arith, ground arith))
    ]

release_review-claims :
    (s v actor request : String) (now : Time) (db db' : Db)
    → release_review s v actor request now db ≡ ok (tt, db')
    → (c : ReviewClaim) × (find_claim s db ≡ some c)
      × ((c.reviewer_id == v) ≡ true)
      × (db'.claims ≡ delete_where (λ q. q.session_id == s) db.claims)
unfolding release_review
release_review-claims s v actor request now db db' h = ground arith

module _ {N : Type 0} (f : Floats N) (encoding : Encoding N) (collate : String → String → Bool)
    (valid_scores : String → Bool) (id reviewer_id : String) (expires : Time) where
  after-IsReserved :
      {A : Type 0} (m : Tx A) (db : Db)
      → ((a : A) (db' : Db) → m db ≡ ok (a, db') → IsReserved id reviewer_id expires db'.claims)
      → IsReserved id reviewer_id expires db.claims
      → IsReserved id reviewer_id expires (after m db).claims
  unfolding after
  after-IsReserved m db k c = elim (Result-cases (m db)) [
    | inl ((a, db'), e) ↦ rw (after, e) (k a db' e)
    | inr (x, e) ↦ rw (after, e) c
  ]

  -- A claim of this session that is found is the reviewer's.
  same_claim :
      (s v : String) (db : Db) (old : ReviewClaim)
      → IsReserved id reviewer_id expires db.claims
      → find_claim s db ≡ some old
      → (old.reviewer_id == v) ≡ true
      → (s == id && v == reviewer_id) ≡ false
      → (s == id) ≡ false
  same_claim s v db old c found e n = elim (Bool-cases (s == id)) [
    | inr y ↦ y
    | inl y ↦
        let here : find_claim id db ≡ some old =
          subst (λ i. find_claim i db ≡ some old) ((eq_iff s id).0 y) found in
        let one : old.reviewer_id ≡ reviewer_id = cc (here, c.1, c.2) in
        let same : v ≡ reviewer_id = sym ((eq_iff old.reviewer_id v).0 e) ∙ one in
        absurd (cc (n, y, subst (λ w. (v == w) ≡ true) same (eq_refl v)))
  ]

  run_review-IsReserved :
      (call : ReviewCall N) (db : Db)
      → yields id reviewer_id expires call ≡ true
      → IsReserved id reviewer_id expires db.claims
      → IsReserved id reviewer_id expires
          (run_review f encoding collate valid_scores call db).claims
  unfolding run_review yields
  run_review-IsReserved (claim s v actor request lease now) db n c =
      after-IsReserved (claim_review s v actor request lease now) db
        (λ new db' h.
          let a = claim_review-claims s v actor request lease now db db' new h in
          elim a.1 [
            | inl (e, w) ↦ (
              c.0,
              subst (λ rows. find (λ q. q.session_id == id) rows ≡ some c.0) (sym w)
                  (find-insert_old (λ q. q.session_id == id) new db.claims c.0 c.1),
              c.2,
              c.3,
            )
            | inr (old, e, live, w) ↦ (
              c.0,
              subst (λ rows. find (λ q. q.session_id == id) rows ≡ some c.0) (sym w)
                  (find-update_other id s new c.0 db.claims
                    (other_session s v now db old c e live (ground arith) (ground arith)) a.0 c.1),
              c.2,
              c.3,
            )
          ])
        c
    where
      other_session :
          (s v : String) (now : Time) (db : Db) (old : ReviewClaim)
          → IsReserved id reviewer_id expires db.claims
          → find_claim s db ≡ some old
          → ((now < old.expires_at) → (old.reviewer_id == v) ≡ true)
          → now < expires
          → (s == id && v == reviewer_id) ≡ false
          → (s == id) ≡ false
      other_session s v now db old c e live lt n = elim (Bool-cases (s == id)) [
        | inr y ↦ y
        | inl y ↦
            let here : find_claim id db ≡ some old =
              subst (λ i. find_claim i db ≡ some old) ((eq_iff s id).0 y) e in
            let ends : old.expires_at ≡ expires = cc (here, c.1, c.3) in
            same_claim s v db old c e (live (subst (λ t. now < t) (sym ends) lt)) n
      ]
  run_review-IsReserved (release s v actor request now) db n c =
      after-IsReserved (release_review s v actor request now) db
        (λ _ db' h.
          let a = release_review-claims s v actor request now db db' h in
          (
            c.0,
            subst (λ rows. find (λ q. q.session_id == id) rows ≡ some c.0) (sym a.3)
                (find-delete_other id s c.0 db.claims
                  (same_claim s v db a.0 c a.1 a.2 (ground arith)) c.1),
            c.2,
            c.3,
          ))
        c
  run_review-IsReserved (review given ids actor request now) db n c =
      after-IsReserved (submit_review f encoding collate valid_scores given ids actor request now)
        db
        (λ t db' h.
          let a =
            submitted-ok f encoding collate valid_scores given ids actor request now db db' t h in
          let b =
            submit_review-ok f encoding collate valid_scores given ids actor request now db db' t
              h in
          let w =
            settle_review-claims f encoding collate valid_scores given a.2 t ids actor request now
              db db' a.5 in
          (
            c.0,
            subst (λ rows. find (λ q. q.session_id == id) rows ≡ some c.0) (sym w)
                (find-delete_other id given.session_id c.0 db.claims
                  (same_claim given.session_id given.reviewer_id db b.10 c b.11
                    (subst (λ v. (b.10.reviewer_id == v) ≡ true) b.12 (eq_refl b.10.reviewer_id))
                    (ground arith))
                  c.1),
            c.2,
            c.3,
          ))
        c

  run_reviews-IsReserved :
      (calls : List (ReviewCall N)) (db : Db)
      → All (λ call. yields id reviewer_id expires call ≡ true) calls
      → IsReserved id reviewer_id expires db.claims
      → IsReserved id reviewer_id expires
          (run_reviews f encoding collate valid_scores calls db).claims
  unfolding run_reviews
  run_reviews-IsReserved [] db n c = c
  run_reviews-IsReserved (call ∷ calls) db n c =
      run_reviews-IsReserved calls (run_review f encoding collate valid_scores call db) n.1
        (run_review-IsReserved call db n.0 c)

module _ {N : Type 0} (f : Floats N) (encoding : Encoding N) (collate : String → String → Bool)
    (valid_scores : String → Bool) where
  -- Whatever calls of ClaimReview, ReleaseReview and SubmitReview follow a claim of a session before
  -- it ends, those of its reviewer on the session apart: a claim of the session that succeeds before
  -- the end is the reviewer's own.
  pub claim_review-exclusive :
      (session_id reviewer_id actor request_id other other_actor other_request : String)
      (lease other_lease : ℕ) (now later : Time) (db db' db'' : Db) (given again : ReviewClaim)
      (calls : List (ReviewCall N))
      → claim_review session_id reviewer_id actor request_id lease now db ≡ ok (given, db')
      → All (λ call. yields session_id reviewer_id (now + lease) call ≡ true) calls
      → later < now + lease
      → claim_review session_id other other_actor other_request other_lease later
          (run_reviews f encoding collate valid_scores calls db')
        ≡ ok (again, db'')
      → other ≡ reviewer_id
  claim_review-exclusive session_id reviewer_id actor request_id other other_actor other_request
        lease other_lease now later db db' db'' given again calls h n lt k =
      let a = claim_review-ok session_id reviewer_id actor request_id lease now db db' given h in
      let c =
        run_reviews-IsReserved f encoding collate valid_scores session_id reviewer_id (now + lease)
          calls db' n (given, a.3, a.1, a.2) in
      let b =
        claim_review-claims session_id other other_actor other_request other_lease later
          (run_reviews f encoding collate valid_scores calls db') db'' again k in
      elim b.1 [
        | inl (e, w) ↦ absurd (cc (e, c.1))
        | inr (old, e, live, w) ↦
            let one : old ≡ c.0 = cc (e, c.1) in
            sym (
              (eq_iff old.reviewer_id other).0
                (live (subst (λ t. later < t) (sym (ap (λ q. q.expires_at) one ∙ c.3)) lt)))
            ∙ (ap (λ q. q.reviewer_id) one ∙ c.2)
      ]
