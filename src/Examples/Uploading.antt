-- ===== src/Examples/Uploading.antt =====
-- The theorems on uploads at a concrete one.
use mathlib.Core.List.{Memᴰ}
use data_trains.Base.{◌≤◌, ◌<◌, ℕ, some, [], ◌∷◌, ◌≡◌, refl, arith, List}
use data_trains.Domain.State.{recording}
use data_trains.Table.{find, exists}
use data_trains.Db.{Db, MultipartUpload, MultipartPartRow, active, aborted, after}
use data_trains.Uploads.Plan.{is_complete}
use data_trains.Uploads.Plan.Complete.{total_size, IsNumbered, is_complete-total_size}
use data_trains.Uploads.Rows.{
  create_multipart_upload, record_multipart_upload_part, takes_parts, is_part, is_upload_in,
  state_is,
}
use data_trains.Uploads.Rows.Found.{record_multipart_upload_part-found}
use data_trains.Examples.Data.{db_at}

abbrev part : ℕ → ℕ → MultipartPartRow
part number size = record { upload_id = "u1"; number = number; etag = "e"; size = size }

-- 25 bytes in parts of 10.
abbrev parts : List MultipartPartRow
parts = part 1 10 ∷ part 2 10 ∷ part 3 5 ∷ []

is_complete-total_size_example : (total_size parts ≡ 25) × IsNumbered 0 parts
unfolding is_complete
is_complete-total_size_example =
    is_complete-total_size 25 10 parts (omega arith) (omega arith) (omega arith) (omega arith) refl

abbrev given : MultipartUpload
given = record {
  id = "";
  session_id = "s1";
  key = "raw/sessions/s1/video/2.mp4";
  storage_key = "staging/multipart/1";
  storage_upload_id = "x1";
  sha256 = "00";
  size = 25;
  media_type = "video/mp4";
  part_size = 10;
  state = aborted;
  expires_at = 100;
}

abbrev upload : MultipartUpload
upload = record given { id = "u1"; state = active }

abbrev started_db : Db
started_db = after (create_multipart_upload given "u1" "c1" "r1" 10) (db_at recording)

abbrev recorded_db : Db
recorded_db = after (record_multipart_upload_part (part 1 10) 20) started_db

record_multipart_upload_part-found_example :
    (u : MultipartUpload) × Memᴰ u started_db.uploads
    × (u.id ≡ "u1")
    × (u.state ≡ active)
    × (20 < u.expires_at)
    × (1 ≤ (part 1 10).number)
    × ((part 1 10).number ≤ 10000)
    × (1 ≤ (part 1 10).size)
    × (p : MultipartPartRow) × (find (is_part "u1" 1) recorded_db.parts ≡ some p)
    × (p.etag ≡ "e")
    × (p.size ≡ 10)
    × (recorded_db.uploads ≡ started_db.uploads)
unfolding create_multipart_upload record_multipart_upload_part find exists after takes_parts
    is_upload_in state_is
record_multipart_upload_part-found_example =
    record_multipart_upload_part-found (part 1 10) 20 started_db recorded_db refl
