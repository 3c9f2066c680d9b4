-- ===== src/Store/Sessions.antt =====
-- Consent and transitions of a session (services/api/internal/database/store.go).
pub mod Consent
pub mod Transitions
use data_trains.Base.{
  ℕ, String, Bool, true, false, not, ◌&&◌, ◌||◌, ◌==◌, ltb, Option, none, some, List, [], ◌∷◌,
  ◌+++◌,
}
use data_trains.Domain.State.{SessionState, assigned, ready, state_eq}
use data_trains.Domain.Errors.{message, not_found, consent_missing, wrong_state}
use data_trains.Domain.Model.{Time, ConsentDocument, ConsentAcceptance, text}
use data_trains.Domain.Session.{Session, transition}
use data_trains.Table.{find, insert}
use data_trains.Db.{
  Db, Tx, SessionRow, pure, ◌>>=◌, ◌>>◌, fail_if, fresh, fetch, row, write, lift, insert_audit,
  find_session, session_of, save_session, update_session, insert_last_audit,
}
use data_trains.Store.Joins.{find_assignment}
use data_trains.Store.Catalog.{event}

abbrev pub find_document : String → Db → Option ConsentDocument
find_document id db = find (λ d. d.id == id) db.consent_documents

abbrev pub find_acceptance : String → String → Db → Option ConsentAcceptance
find_acceptance contributor_id document_id db =
    find (λ c. c.contributor_id == contributor_id && c.document_id == document_id)
      db.consent_acceptances

-- INSERT … ON CONFLICT (contributor_id, document_id) DO NOTHING: the acceptance that is there, or
-- the new one.
record_acceptance : ConsentAcceptance → Option ConsentAcceptance → Tx ConsentAcceptance
record_acceptance new (some old) = pure old
record_acceptance new none = do
  fresh (λ db. db.consent_acceptances) (λ q. q.id == new.id) "consent_acceptances_pkey"
  write (λ db. record db { consent_acceptances = insert new db.consent_acceptances })
  pure new

-- `AcceptConsent`
unfoldable pub accept_consent :
    String → String → String → String → String → String → String → Time → Tx ConsentAcceptance
unfolding record_acceptance insert_audit
accept_consent session_id contributor_id document_id client_version new_id actor request_id now = do
  session ← row (find_session session_id) not_found
  assignment ← row (find_assignment session.assignment_id) not_found
  document ← row (find_document document_id) not_found
  fail_if (not (assignment.contributor_id == contributor_id))
      (message "contributor does not own session")
  fail_if (not (state_eq session.state assigned)) (wrong_state session.state)
  fail_if (ltb now document.effective_date) (message "consent document is not yet effective")
  old ← fetch (find_acceptance contributor_id document_id)
  acceptance ←
      record_acceptance
        (record {
          id = new_id;
          contributor_id = contributor_id;
          document_id = document_id;
          client_version = client_version;
          accepted_at = now;
        })
        old
  update_session session_id
      (λ r. record r { consent_acceptance_id = some acceptance.id; updated_at = now })
  insert_audit (
      event actor "consent.accepted" ("session/" +++ session_id) now request_id
        (("document_id", text document_id) ∷ ("acceptance_id", text acceptance.id) ∷ []))
  pure (record acceptance { contributor_id = contributor_id; document_id = document_id })

-- `GetSession`
get_session : String → Tx Session
get_session session_id = do found ← row (find_session session_id) not_found; pure (session_of found)

abbrev pub is_none : Option String → Bool
is_none none = true
is_none (some _) = false

-- `TransitionSession`
unfoldable pub transition_session : String → SessionState → String → String → Time → Tx Session
unfolding transition save_session insert_audit insert_last_audit
transition_session session_id to actor request_id now = do
  found ← row (find_session session_id) not_found
  fail_if (state_eq to ready && is_none found.consent_acceptance_id) consent_missing
  session ← lift (
      transition (session_of found)
        (record { to = to; actor = actor; request_id = request_id; timestamp = now }))
  save_session session
  insert_last_audit session
  pure session
