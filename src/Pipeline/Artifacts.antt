-- ===== src/Pipeline/Artifacts.antt =====
-- Artifact registration (services/api/internal/database/pipeline.go).
pub mod Registered
use Prim.Native.Char.{Char, code}
use Prim.Native.String.{len}
use data_trains.Base.{
  ℕ, suc, String, Bool, false, not, ◌&&◌, ◌||◌, ◌==◌, starts_with, leb, eqb, is_blank, Option, none,
  some, List, [], ◌∷◌, ◌+++◌, if◌then◌else◌, ltb, sort_by,
}
use data_trains.Domain.State.{uploading, state_eq}
use data_trains.Domain.Errors.{Result, ok, err, message, not_found, wrong_state, artifact_conflict}
use data_trains.Domain.Model.{Time, Artifact, ValidationResult, text}
use data_trains.Table.{find, select, insert, first_by}
use data_trains.Db.{
  Db, Tx, pure, ◌>>=◌, ◌>>◌, fail_if, fresh, fetch, row, write, lift, insert_audit, find_session,
}

-- A hexadecimal digit, of either case.
is_hex : Char → Bool
is_hex c =
    let n = code c in
    (leb b'0' n && leb n b'9') || (leb b'a' n && leb n b'f') || (leb b'A' n && leb n b'F')

-- The length that `hex.DecodeString` gives, or its error.
hex_decoded_length : String → Option ℕ
hex_decoded_length String.[] = some 0
hex_decoded_length (String.◌∷◌ a String.[]) = none
hex_decoded_length (String.◌∷◌ a (String.◌∷◌ b s)) =
    let rest : Option ℕ = elim (hex_decoded_length s) [ none ↦ none | some n ↦ some (suc n) ] in
    if is_hex a && is_hex b then rest else none

abbrev raw_prefix : String → String
raw_prefix session_id = "raw/sessions/" +++ session_id +++ "/"

abbrev is_digest : Option ℕ → Bool
is_digest none = false
is_digest (some n) = eqb n 32

validate_artifact : Artifact → Result (Unit {0})
unfolding hex_decoded_length is_hex is_blank
validate_artifact a =
    if a.session_id == ""
      || not (starts_with a.key (raw_prefix a.session_id))
      || eqb (len a.key) (len (raw_prefix a.session_id))
    then err (message "artifact key must be scoped under its session")
    else if not (is_digest (hex_decoded_length a.sha256))
    then err (message "artifact sha256 must be a 64-character hexadecimal digest")
    else if ltb a.size 1 || is_blank a.media_type
    then err (message "artifact size and media type are required")
    else ok tt

-- `EnsureArtifactUploadAllowed`
ensure_artifact_upload_allowed : String → Tx (Unit {0})
ensure_artifact_upload_allowed session_id = do
  session ← row (find_session session_id) not_found
  fail_if (not (state_eq session.state uploading)) (wrong_state session.state)

abbrev pub find_artifact : String → Db → Option Artifact
find_artifact key db = find (λ a. a.key == key) db.artifacts

-- The metadata that a second registration of a key must repeat.
abbrev same_metadata : Artifact → Artifact → Bool
same_metadata existing a =
    existing.session_id == a.session_id
    && existing.sha256 == a.sha256
    && eqb existing.size a.size
    && existing.media_type == a.media_type

-- INSERT … ON CONFLICT (logical_key) DO NOTHING, and what follows either outcome.
store_artifact : Artifact → String → String → Time → Option Artifact → Tx Artifact
store_artifact a actor request_id now (some existing) = do
  fail_if (not (same_metadata existing a)) artifact_conflict
  pure existing
store_artifact a actor request_id now none = do
  fresh (λ db. db.artifacts) (λ q. q.id == a.id) "artifacts_pkey"
  write (λ db. record db { artifacts = insert a db.artifacts })
  insert_audit (record {
    actor = actor;
    action = "artifact.registered";
    resource = "artifact/" +++ a.id;
    timestamp = now;
    request_id = request_id;
    metadata =
        ("session_id", text a.session_id)
        ∷ ("logical_key", text a.key)
        ∷ ("sha256", text a.sha256)
        ∷ [];
  })
  pure a

-- `RegisterArtifact`; `new_id` is what `id.New("artifact")` returned.
unfoldable pub register_artifact : Artifact → String → String → String → Time → Tx Artifact
unfolding validate_artifact store_artifact insert_audit
register_artifact artifact new_id actor request_id now = do
  lift (validate_artifact artifact)
  let a = record artifact { id = new_id; purged_at = none }
  session ← row (find_session a.session_id) not_found
  fail_if (not (state_eq session.state uploading)) (wrong_state session.state)
  existing ← fetch (find_artifact a.key)
  store_artifact a actor request_id now existing

-- `ListArtifacts`; ORDER BY logical_key, where `collate` is the order of the database's texts.
unfoldable pub list_artifacts : (String → String → Bool) → String → Db → List Artifact
list_artifacts collate session_id db =
    sort_by (λ a b. collate a.key b.key) (select (λ a. a.session_id == session_id) db.artifacts)

-- `GetArtifact`
get_artifact : String → String → Tx Artifact
get_artifact session_id key =
    row (λ db. find (λ a. a.session_id == session_id && a.key == key) db.artifacts) not_found

-- ORDER BY created_at DESC, id DESC
abbrev newest : (String → String → Bool) → ValidationResult → ValidationResult → Bool
newest collate r q =
    ltb q.created_at r.created_at || (eqb q.created_at r.created_at && collate q.id r.id)

-- `GetNormalizedTrajectoryKey`
get_normalized_trajectory_key : (String → String → Bool) → String → Tx String
get_normalized_trajectory_key collate session_id = do
  result ←
      row (λ db. first_by (newest collate) (λ r. r.session_id == session_id && r.valid) db.results)
        not_found
  pure result.normalized_key
