-- ===== src/Examples/Erasing.antt =====
-- The theorems on legal holds and deletions at a concrete session.
use data_trains.Base.{
  String, none, some, [], ◌∷◌, ◌≡◌, ◌≢◌, ◌⊎◌, refl, arith, true, false, ◌==◌, ◌&&◌, sort_by,
  trim_space,
}
use data_trains.Domain.State.{SessionState-discrete, accepted}
use data_trains.Domain.Model.{LegalHold, DeletionRequest, is_leased, queued}
use data_trains.Table.{find, exists, update_where, select}
use data_trains.Db.{Db, SessionRow, find_session, after}
use data_trains.Redaction.Document.{seen}
use data_trains.Pipeline.Outcome.{owner}
use data_trains.Store.Joins.{session_and_organization, placement}
use data_trains.Erasure.Holds.{
  place_legal_hold, release_legal_hold, is_held, is_hold, holds_session, erases_session, is_reason,
  is_refused_reason,
}
use data_trains.Erasure.Holds.Single.{
  place_legal_hold-IsSingle, release_legal_hold-frees, IsSingle, active_holds,
}
use data_trains.Erasure.Requests.{
  request_session_deletion, deletable_session_state, is_open, is_being_redacted,
  session_object_keys,
}
use data_trains.Erasure.Requests.Keys.{request_session_deletion-ok}
use data_trains.Erasure.Worker.{
  complete_deletion_request, find_deletion, lease_deletion, complete_deletion, delete_session_row,
}
use data_trains.Erasure.Worker.Erased.{complete_deletion_request-ok, IsErased}
use data_trains.Examples.Data.{db_at, collate, video_key, artifact}

abbrev hold : LegalHold
hold = record {
  id = "h1";
  organization_id = "o1";
  session_id = "s1";
  reason = "dispute";
  placed_by = "admin";
  placed_at = 10;
  released_by = none;
  released_at = none;
}

abbrev held_db : Db
held_db = after (place_legal_hold "s1" "dispute" "h1" "admin" "r1" 10) (db_at accepted)

abbrev freed_db : Db
freed_db = after (release_legal_hold "s1" "h1" "admin" "r2" 20) held_db

none_held : IsSingle (db_at accepted)
unfolding active_holds
none_held session_id = omega arith

place_legal_hold-IsSingle_example : IsSingle held_db
unfolding place_legal_hold session_and_organization placement find exists after
    SessionState-discrete holds_session erases_session is_reason is_refused_reason
place_legal_hold-IsSingle_example =
    place_legal_hold-IsSingle "s1" "dispute" "h1" "admin" "r1" 10 (db_at accepted) held_db hold
      none_held refl

one_held : IsSingle held_db
unfolding place_legal_hold session_and_organization placement find exists after
    SessionState-discrete holds_session erases_session is_reason is_refused_reason
one_held =
    place_legal_hold-IsSingle "s1" "dispute" "h1" "admin" "r1" 10 (db_at accepted) held_db hold
      none_held refl

release_legal_hold-frees_example : (is_held "s1" freed_db ≡ false) × IsSingle freed_db
unfolding place_legal_hold release_legal_hold session_and_organization placement find exists after
    SessionState-discrete holds_session is_hold erases_session is_reason is_refused_reason
release_legal_hold-frees_example =
    release_legal_hold-frees "s1" "h1" "admin" "r2" 20 held_db freed_db one_held refl

abbrev requested_db : Db
requested_db =
    after (request_session_deletion collate "s1" "left the study" "e1" "admin" "r3" 30)
      (db_at accepted)

abbrev request : DeletionRequest
request = record {
  id = "e1";
  organization_id = "o1";
  session_id = "s1";
  reason = "left the study";
  object_keys =
      "raw/sessions/s1/events.ndjson" ∷ "raw/sessions/s1/trajectory.json" ∷ video_key ∷ [];
  state = queued;
  attempt = 0;
  manual_requeues = 0;
  available_at = 30;
  leased_by = none;
  lease_expires_at = none;
  requested_by = "admin";
  requested_at = 30;
  completed_at = none;
  last_error = none;
}

request_session_deletion-ok_example :
    (r : SessionRow) × (find_session "s1" (db_at accepted) ≡ some r)
    × (deletable_session_state r.state ≡ true)
    × (is_held "s1" (db_at accepted) ≡ false)
    × (is_being_redacted "s1" (db_at accepted) ≡ false)
    × (exists (is_open "s1") (db_at accepted).deletions ≡ false)
    × ((k : String)
        → k ≢ ""
        → (exists (λ a. a.session_id == "s1" && a.key == k) (db_at accepted).artifacts ≡ true)
          ⊎ (exists (λ q. q.session_id == "s1" && q.normalized_key == k) (db_at accepted).results
              ≡ true)
        → seen k request.object_keys ≡ true)
    × (requested_db.deletions ≡ request ∷ [])
    × (requested_db.sessions ≡ (db_at accepted).sessions)
unfolding request_session_deletion session_and_organization placement find exists select after
    SessionState-discrete deletable_session_state is_reason is_refused_reason is_being_redacted
    session_object_keys sort_by trim_space
request_session_deletion-ok_example =
    request_session_deletion-ok collate "s1" "left the study" "e1" "admin" "r3" 30 (db_at accepted)
      requested_db request refl

abbrev waiting_db : Db
waiting_db = record (db_at accepted) { deletions = request ∷ [] }

abbrev leased_request : DeletionRequest
leased_request = lease_deletion "w1" 140 request

abbrev erasing_db : Db
erasing_db = record (db_at accepted) { deletions = leased_request ∷ [] }

abbrev erased_db : Db
erased_db = after (complete_deletion_request "e1" "w1" 50) erasing_db

complete_deletion_request-ok_example :
    (d : DeletionRequest) × (find_deletion "e1" erasing_db ≡ some d)
    × (is_leased d.state ≡ true)
    × ((owner d.leased_by == "w1") ≡ true)
    × (is_held d.session_id erasing_db ≡ false)
    × IsErased d.session_id erasing_db erased_db
    × (erased_db.sessions
        ≡ update_where (λ q. q.id == d.session_id) (delete_session_row 50) erasing_db.sessions)
    × (erased_db.deletions
        ≡ update_where (λ e. e.id == "e1") (complete_deletion 50) erasing_db.deletions)
    × (erased_db.holds ≡ [])
unfolding complete_deletion_request find exists after is_leased
complete_deletion_request-ok_example =
    complete_deletion_request-ok "e1" "w1" 50 erasing_db erased_db refl

-- A video that was registered after the request.
abbrev late_db : Db
late_db = record erasing_db {
  artifacts = artifact "f9" "raw/sessions/s1/video/9.mp4" "video/mp4" ∷ [];
}
