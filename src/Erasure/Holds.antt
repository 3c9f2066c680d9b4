-- ===== src/Erasure/Holds.antt =====
-- Legal holds (services/api/internal/database/erasure.go).
pub mod Placed
pub mod Single
use data_trains.Base.{
  ℕ, String, Bool, true, false, not, ◌&&◌, ◌||◌, ◌==◌, ltb, Option, none, some, List, [], ◌∷◌,
  ◌+++◌, if◌then◌else◌, trim_space, byte_length, char_length,
}
use data_trains.Domain.State.{SessionState, deleted, state_eq}
use data_trains.Domain.Errors.{
  constraint, message, not_found, deletion_not_allowed, legal_hold_exists,
  retention_purge_in_progress,
}
use data_trains.Domain.Model.{
  Time, LegalHold, DeletionRequest, JobState, queued, blocked, is_leased, text,
}
use data_trains.Table.{find, exists, insert, update_where}
use data_trains.Db.{
  Db, Tx, SessionRow, ReleaseSession, RetentionPurge, ResourceType, session_raw, session_derived,
  release, pure, ◌>>=◌, ◌>>◌, fail_if, fresh, fetch, row, write, insert_audit, find_session,
}
use data_trains.Store.Joins.{session_and_organization}
use data_trains.Store.Catalog.{event}

is_unreleased : Option Time → Bool
is_unreleased none = true
is_unreleased (some _) = false

-- session_id=$1 AND released_at IS NULL
unfoldable pub holds_session : String → LegalHold → Bool
unfolding is_unreleased
holds_session session_id h = h.session_id == session_id && is_unreleased h.released_at

-- SELECT EXISTS(SELECT 1 FROM legal_holds WHERE session_id=$1 AND released_at IS NULL)
abbrev pub is_held : String → Db → Bool
is_held session_id db = exists (holds_session session_id) db.holds

-- session_id=$1 AND state='leased'
unfoldable pub erases_session : String → DeletionRequest → Bool
erases_session session_id d = d.session_id == session_id && is_leased d.state

abbrev pub is_being_erased : String → Db → Bool
is_being_erased session_id db = exists (erases_session session_id) db.deletions

-- The purge is one of the session's raw or derived data, or of a release that contains it.
unfoldable pub purge_covers : String → List ReleaseSession → RetentionPurge → Bool
purge_covers session_id released q = elim q.resource_type [
  | session_raw ↦ q.resource_id == session_id
  | session_derived ↦ q.resource_id == session_id
  | release ↦ exists (λ r. r.release_id == q.resource_id && r.session_id == session_id) released
]

unfoldable pub is_blocked : JobState → Bool
is_blocked blocked = true
is_blocked _ = false

-- A reason of 3 to 2000 bytes, once the white space around it is gone.
unfoldable pub is_reason : String → Bool
unfolding trim_space byte_length
is_reason reason =
    not (ltb (byte_length (trim_space reason)) 3)
    && not (ltb 2000 (byte_length (trim_space reason)))

-- CHECK (length(reason) BETWEEN 3 AND 2000) of the tables `legal_holds` and `deletion_requests`,
-- which counts characters.
unfoldable pub is_refused_reason : String → Bool
unfolding char_length
is_refused_reason reason = ltb (char_length reason) 3 || ltb 2000 (char_length reason)

-- `PlaceLegalHold`; `hold_id` is what `newID("hold")` returned.
unfoldable pub place_legal_hold : String → String → String → String → String → Time → Tx LegalHold
unfolding insert_audit
place_legal_hold session_id reason hold_id actor request_id now = do
  fail_if (not (is_reason reason)) (message "legal-hold reason must contain 3 to 2000 characters")
  found ← session_and_organization session_id
  fail_if (state_eq found.0.state deleted) deletion_not_allowed
  leased ← fetch (is_being_erased session_id)
  fail_if leased (message "a deletion worker is already erasing this session")
  purging ← fetch (λ db.
      exists (λ q. is_leased q.state && purge_covers session_id db.release_sessions q) db.purges)
  fail_if purging retention_purge_in_progress
  let hold : LegalHold = record {
    id = hold_id;
    organization_id = found.1;
    session_id = session_id;
    reason = trim_space reason;
    placed_by = actor;
    placed_at = now;
    released_by = none;
    released_at = none;
  }
  fail_if (is_refused_reason hold.reason) (constraint "legal_holds_reason_check")
  fresh (λ db. db.holds) (λ q. q.id == hold_id) "legal_holds_pkey"
  held ← fetch (is_held session_id)
  fail_if held legal_hold_exists
  write (λ db. record db { holds = insert hold db.holds })
  insert_audit (
      event actor "legal_hold.placed" ("legal-hold/" +++ hold_id) now request_id (
        ("organization_id", text found.1)
        ∷ ("session_id", text session_id)
        ∷ ("reason", text (trim_space reason))
        ∷ []))
  pure hold

-- id=$3 AND session_id=$4 AND released_at IS NULL
unfoldable pub is_hold : String → String → LegalHold → Bool
is_hold session_id hold_id h = h.id == hold_id && holds_session session_id h

abbrev pub release_hold : String → Time → LegalHold → LegalHold
release_hold actor now h = record h { released_by = some actor; released_at = some now }

abbrev pub unblock_deletion : Time → DeletionRequest → DeletionRequest
unblock_deletion now d = record d { state = queued; available_at = now; last_error = none }

abbrev unblock_purge : Time → RetentionPurge → RetentionPurge
unblock_purge now q = record q { state = queued; available_at = now; last_error = none }

-- `ReleaseLegalHold`: what the hold has blocked is queued again.
unfoldable pub release_legal_hold : String → String → String → String → Time → Tx (Unit {0})
unfolding insert_audit is_blocked
release_legal_hold session_id hold_id actor request_id now = do
  hold ← row (λ db. find (is_hold session_id hold_id) db.holds) not_found
  write (λ db. record db {
    holds = update_where (is_hold session_id hold_id) (release_hold actor now) db.holds;
  })
  write (λ db. record db {
    deletions =
        update_where (λ d. d.session_id == session_id && is_blocked d.state) (unblock_deletion now)
          db.deletions;
  })
  write (λ db. record db {
    purges =
        update_where (λ q. is_blocked q.state && purge_covers session_id db.release_sessions q)
          (unblock_purge now) db.purges;
  })
  insert_audit (
      event actor "legal_hold.released" ("legal-hold/" +++ hold_id) now request_id
        (("organization_id", text hold.organization_id) ∷ ("session_id", text session_id) ∷ []))
