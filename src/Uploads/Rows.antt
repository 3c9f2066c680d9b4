-- ===== src/Uploads/Rows.antt =====
-- The rows of uploads in parts (services/api/internal/database/multipart_uploads.go).
pub mod Found
use data_trains.Base.{
  ℕ, String, Bool, true, false, not, ◌&&◌, ◌||◌, ◌==◌, ltb, leb, eqb, Option, none, some, List, [],
  ◌∷◌, ◌+++◌, if◌then◌else◌, sort_by,
}
use data_trains.Domain.Errors.{not_found, constraint}
use data_trains.Domain.Model.{Time, text}
use data_trains.Table.{find, exists, insert, update_where, delete_where, select}
use data_trains.Db.{
  Db, Tx, MultipartUpload, MultipartPartRow, UploadState, active, completed, aborted, pure, ◌>>=◌,
  ◌>>◌, fail_if, fresh, fetch, row, write, insert_audit,
}
use data_trains.Store.Catalog.{event}

-- `FindMultipartUpload`
unfoldable pub find_multipart_upload : String → String → Tx MultipartUpload
find_multipart_upload session_id key =
    row (λ db. find (λ u. u.session_id == session_id && u.key == key) db.uploads) not_found

-- `GetMultipartUpload`
unfoldable pub get_multipart_upload : String → String → Tx MultipartUpload
get_multipart_upload session_id upload_id =
    row (λ db. find (λ u. u.session_id == session_id && u.id == upload_id) db.uploads) not_found

unfoldable pub state_is : UploadState → UploadState → Bool
state_is active active = true
state_is completed completed = true
state_is aborted aborted = true
state_is _ _ = false

-- The audit event of a start and of a restart.
pub started : String → MultipartUpload → String → String → Time → Tx (Unit {0})
unfolding insert_audit
started action u actor request_id now = insert_audit (
    event actor action ("multipart-upload/" +++ u.id) now request_id (
      ("session_id", text u.session_id)
      ∷ ("logical_key", text u.key)
      ∷ ("sha256", text u.sha256)
      ∷ []))

pub insert_upload : MultipartUpload → String → String → Time → Tx (MultipartUpload × Bool)
unfolding started
insert_upload u actor request_id now = do
  known ← fetch (λ db. exists (λ q. q.id == u.session_id) db.sessions)
  fail_if (not known) (constraint "artifact_multipart_uploads_session_id_fkey")
  fresh (λ db. db.uploads) (λ v. v.id == u.id) "artifact_multipart_uploads_pkey"
  fresh (λ db. db.uploads) (λ v. v.storage_key == u.storage_key)
      "artifact_multipart_uploads_storage_key_key"
  write (λ db. record db { uploads = insert u db.uploads })
  started "artifact.multipart_started" u actor request_id now
  pure (u, true)

-- `CreateMultipartUpload`; `new_id` is what `newID("upload")` returned. An upload that stands under
-- the key is returned instead. The CHECK constraints of the sizes are those that the requests have
-- passed.
unfoldable pub create_multipart_upload :
    MultipartUpload → String → String → String → Time → Tx (MultipartUpload × Bool)
unfolding insert_upload
create_multipart_upload given new_id actor request_id now = do
  existing ← fetch (λ db. find (λ u. u.key == given.key) db.uploads)
  elim existing [
    | some u ↦ pure (u, false)
    | none ↦ insert_upload (record given { id = new_id; state = active }) actor request_id now
  ]

abbrev pub restart : MultipartUpload → MultipartUpload → MultipartUpload
restart given u = record u {
  storage_key = given.storage_key;
  storage_upload_id = given.storage_upload_id;
  sha256 = given.sha256;
  size = given.size;
  media_type = given.media_type;
  part_size = given.part_size;
  state = active;
  expires_at = given.expires_at;
}

-- id=$1 AND state=$2
unfoldable pub is_upload_in : String → UploadState → MultipartUpload → Bool
unfolding state_is
is_upload_in id at u = u.id == id && state_is u.state at

-- `RestartMultipartUpload`: the parts of the upload are dropped, and it must have been aborted. Its
-- storage key must be new.
unfoldable pub restart_multipart_upload :
    MultipartUpload → String → String → Time → Tx MultipartUpload
unfolding started is_upload_in
restart_multipart_upload given actor request_id now = do
  found ← fetch (λ db. exists (is_upload_in given.id aborted) db.uploads)
  fail_if (not found) not_found
  taken ←
      fetch (λ db.
        exists (λ u. not (u.id == given.id) && u.storage_key == given.storage_key) db.uploads)
  fail_if taken (constraint "artifact_multipart_uploads_storage_key_key")
  write (λ db. record db { parts = delete_where (λ p. p.upload_id == given.id) db.parts })
  write (λ db. record db {
    uploads = update_where (is_upload_in given.id aborted) (restart given) db.uploads;
  })
  started "artifact.multipart_restarted" given actor request_id now
  pure (record given { state = active })

abbrev by_number : MultipartPartRow → MultipartPartRow → Bool
by_number p q = ltb p.number q.number

-- `ListMultipartUploadParts`
unfoldable pub list_multipart_upload_parts : String → Db → List MultipartPartRow
list_multipart_upload_parts upload_id db =
    sort_by by_number (select (λ p. p.upload_id == upload_id) db.parts)

-- WHERE id=$1 AND state='active' AND expires_at>$5
unfoldable pub takes_parts : String → Time → MultipartUpload → Bool
unfolding is_upload_in
takes_parts id now u = is_upload_in id active u && ltb now u.expires_at

abbrev pub replace_part : MultipartPartRow → MultipartPartRow → MultipartPartRow
replace_part given p = record p { etag = given.etag; size = given.size }

-- upload_id=$1 AND part_number=$2
unfoldable pub is_part : String → ℕ → MultipartPartRow → Bool
is_part upload_id number p = p.upload_id == upload_id && eqb p.number number

-- INSERT … ON CONFLICT (upload_id, part_number) DO UPDATE
unfoldable pub upsert_part : MultipartPartRow → List MultipartPartRow → List MultipartPartRow
unfolding is_part
upsert_part given parts =
    if exists (is_part given.upload_id given.number) parts
    then update_where (is_part given.upload_id given.number) (replace_part given) parts
    else insert given parts

-- `RecordMultipartUploadPart`, with the checks of the table's columns
unfoldable pub record_multipart_upload_part : MultipartPartRow → Time → Tx (Unit {0})
unfolding takes_parts upsert_part
record_multipart_upload_part given now = do
  open_upload ← fetch (λ db. exists (takes_parts given.upload_id now) db.uploads)
  fail_if (not open_upload) not_found
  fail_if (ltb given.number 1 || ltb 10000 given.number)
      (constraint "artifact_multipart_parts_part_number_check")
  fail_if (ltb given.size 1) (constraint "artifact_multipart_parts_size_bytes_check")
  write (λ db. record db { parts = upsert_part given db.parts })

-- `SetMultipartUploadState`
unfoldable pub set_multipart_upload_state : String → UploadState → UploadState → Tx (Unit {0})
unfolding is_upload_in
set_multipart_upload_state upload_id from to = do
  found ← fetch (λ db. exists (is_upload_in upload_id from) db.uploads)
  fail_if (not found) not_found
  write (λ db. record db {
    uploads = update_where (is_upload_in upload_id from) (λ u. record u { state = to }) db.uploads;
  })
