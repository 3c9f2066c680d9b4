-- ===== src/Store/Sessions/Consent.antt =====
-- What a consent rests on (services/api/internal/database/store.go).
use data_trains.Base.{
  String, true, ◌&&◌, ◌==◌, none, some, ◌≡◌, ◌≤◌, arith, eq_refl, Option-cases, inl, inr,
}
use data_trains.Domain.State.{assigned, SessionState-discrete}
use data_trains.Domain.Errors.{ok, not_found}
use data_trains.Domain.Model.{Time, Assignment, ConsentDocument, ConsentAcceptance}
use data_trains.Table.{find, update_where, insert}
use data_trains.Table.Laws.{find-insert_self}
use data_trains.Db.{Db, SessionRow, find_session, row-ok}
use data_trains.Store.Joins.{find_assignment}
use data_trains.Store.Sessions.{accept_consent, record_acceptance, find_document, find_acceptance}

recorded :
    (new : ConsentAcceptance) (db : Db)
    → find_acceptance new.contributor_id new.document_id db ≡ none
    → find
        (λ (q : ConsentAcceptance).
          q.contributor_id == new.contributor_id && q.document_id == new.document_id)
        (insert new db.consent_acceptances)
      ≡ some new
recorded new db =
    find-insert_self _ new db.consent_acceptances
      (ground (arith, eq_refl new.contributor_id, eq_refl new.document_id))

-- A consent that is accepted is for a session that is assigned to the contributor, on a document
-- that is in force; the session's row then names the acceptance that is stored for the
-- contributor and the document.
pub accept_consent-ok :
    (session_id contributor_id document_id client_version new_id actor request_id : String)
    (now : Time) (db db' : Db) (c : ConsentAcceptance)
    → accept_consent session_id contributor_id document_id client_version new_id actor request_id
        now db
      ≡ ok (c, db')
    → (r : SessionRow) × (find_session session_id db ≡ some r)
      × (r.state ≡ assigned)
      × (a : Assignment) × (find_assignment r.assignment_id db ≡ some a)
      × ((a.contributor_id == contributor_id) ≡ true)
      × (d : ConsentDocument) × (find_document document_id db ≡ some d)
      × (d.effective_date ≤ now)
      × (k : ConsentAcceptance) × (find_acceptance contributor_id document_id db' ≡ some k)
      × (c.id ≡ k.id)
      × (db'.sessions
          ≡ update_where
              (λ q. q.id == session_id)
              (λ q. record q { consent_acceptance_id = some c.id; updated_at = now })
              db.sessions)
unfolding accept_consent record_acceptance SessionState-discrete
accept_consent-ok session_id contributor_id document_id client_version new_id actor request_id now
      db db' c h =
    let a = row-ok db (c, db') (find_session session_id) not_found _ h in
    let b = row-ok db (c, db') (find_assignment a.0.assignment_id) not_found _ a.2 in
    let d = row-ok db (c, db') (find_document document_id) not_found _ b.2 in
    let new : ConsentAcceptance = record {
      id = new_id;
      contributor_id = contributor_id;
      document_id = document_id;
      client_version = client_version;
      accepted_at = now;
    } in
    elim (Option-cases (find_acceptance contributor_id document_id db)) [
      | inl e ↦ (
        a.0,
        a.1,
        ground arith,
        b.0,
        b.1,
        ground arith,
        d.0,
        d.1,
        ground arith,
        new,
        ground (arith, recorded new db e),
        ground arith,
        ground arith,
      )
      | inr (k, e) ↦ (
        a.0,
        a.1,
        ground arith,
        b.0,
        b.1,
        ground arith,
        d.0,
        d.1,
        ground arith,
        k,
        ground arith,
        ground arith,
        ground arith,
      )
    ]
