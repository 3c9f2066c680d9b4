-- ===== src/Uploads/Rows/Found.antt =====
-- What is found of an upload afterwards (services/api/internal/database/multipart_uploads.go).
use data_trains.Base.{
  String, Bool, true, false, ◌&&◌, ◌==◌, ◌≡◌, refl, arith, eq_iff, ◌≤◌, ◌<◌, none, some, List, [],
  ◌∷◌, eq_refl, Option-cases, Bool-cases, inl, inr,
}
use mathlib.Core.List.{Memᴰ}
use data_trains.Domain.Errors.{ok}
use data_trains.Domain.Model.{Time}
use data_trains.Table.{find, exists}
use data_trains.Table.Laws.{exists-Mem, find-insert_self, find-update_self, exists-false-find}
use data_trains.Db.{Db, MultipartUpload, MultipartPartRow, UploadState, active, completed, aborted}
use data_trains.Uploads.Rows.{
  create_multipart_upload, insert_upload, find_multipart_upload, record_multipart_upload_part,
  takes_parts, is_upload_in, state_is, upsert_part, is_part, replace_part,
}

given-is_part : (given : MultipartPartRow) → is_part given.upload_id given.number given ≡ true
unfolding is_part
given-is_part given = ground (arith, eq_refl given.upload_id)

exists_and :
    (key session_id : String) (us : List MultipartUpload)
    → find (λ u. u.key == key) us ≡ none
    → exists (λ u. u.session_id == session_id && u.key == key) us ≡ false
unfolding find exists
exists_and key session_id [] h = refl
exists_and key session_id (u ∷ us) h = ground (arith, exists_and key session_id us)

-- An upload that is created is active and is what is found under its session and key.
pub create_multipart_upload-found :
    (given : MultipartUpload) (new_id actor request_id : String) (now : Time) (db db' : Db)
    (u : MultipartUpload)
    → create_multipart_upload given new_id actor request_id now db ≡ ok ((u, true), db')
    → (find_multipart_upload given.session_id given.key db' ≡ ok (u, db'))
      × (u ≡ record given { id = new_id; state = active })
unfolding create_multipart_upload insert_upload find_multipart_upload
create_multipart_upload-found given new_id actor request_id now db db' u h =
    elim (Option-cases (find (λ v. v.key == given.key) db.uploads)) [
      | inl e ↦
          let fresh_key = exists_and given.key given.session_id db.uploads e in
          let not_there =
            exists-false-find
              (λ (v : MultipartUpload). v.session_id == given.session_id && v.key == given.key)
              db.uploads fresh_key in
          let there =
            find-insert_self
              (λ (v : MultipartUpload). v.session_id == given.session_id && v.key == given.key)
              (record given { id = new_id; state = active }) db.uploads
              (rw (eq_refl given.session_id, eq_refl given.key) refl) not_there in
          (ground arith, ground arith)
      | inr (v, e) ↦ absurd (ground arith)
    ]

exists-find :
    {R : Type 0} (p : R → Bool) (rs : List R)
    → exists p rs ≡ true
    → (r : R) × (find p rs ≡ some r) × (p r ≡ true)
unfolding exists find
exists-find p [] h = cc
exists-find p (r ∷ rs) h = elim (Bool-cases (p r)) [
  | inl e ↦ (r, ground arith, e)
  | inr e ↦ let rest = exists-find p rs (ground arith) in (rest.0, ground (arith, rest.1), rest.2)
]

state_is-active : (s : UploadState) → state_is s active ≡ true → s ≡ active
unfolding state_is
state_is-active active h = refl
state_is-active completed h = cc
state_is-active aborted h = cc

find-upsert :
    (given : MultipartPartRow) (ps : List MultipartPartRow)
    → (p : MultipartPartRow) × (find (is_part given.upload_id given.number) (upsert_part given ps)
        ≡ some p)
      × (p.etag ≡ given.etag)
      × (p.size ≡ given.size)
unfolding upsert_part
find-upsert given ps = elim (Bool-cases (exists (is_part given.upload_id given.number) ps)) [
  | inl e ↦
      let old = exists-find (is_part given.upload_id given.number) ps e in
      (
        replace_part given old.0,
        rw e (
            find-update_self (is_part given.upload_id given.number) (replace_part given) ps old.0
              old.2 old.1),
        refl,
        refl,
      )
  | inr e ↦ (
    given,
    rw e (
        find-insert_self (is_part given.upload_id given.number) given ps (given-is_part given)
          (exists-false-find (is_part given.upload_id given.number) ps e)),
    refl,
    refl,
  )
]

-- A part is recorded only for an upload that is active and has not expired, under a number from 1 to
-- 10,000 and with at least one byte. Then it is found under
-- its number with the tag and the size that were recorded last, and the uploads are as before.
pub record_multipart_upload_part-found :
    (given : MultipartPartRow) (now : Time) (db db' : Db)
    → record_multipart_upload_part given now db ≡ ok (tt, db')
    → (u : MultipartUpload) × Memᴰ u db.uploads
      × (u.id ≡ given.upload_id)
      × (u.state ≡ active)
      × (now < u.expires_at)
      × (1 ≤ given.number)
      × (given.number ≤ 10000)
      × (1 ≤ given.size)
      × (p : MultipartPartRow) × (find (is_part given.upload_id given.number) db'.parts ≡ some p)
      × (p.etag ≡ given.etag)
      × (p.size ≡ given.size)
      × (db'.uploads ≡ db.uploads)
unfolding record_multipart_upload_part takes_parts is_upload_in
record_multipart_upload_part-found given now db db' h =
    let f = find-upsert given db.parts in
    let u = exists-Mem (takes_parts given.upload_id now) db.uploads (ground arith) in
    (
      u.0,
      u.1,
      (eq_iff u.0.id given.upload_id).0 (ground (arith, u.2)),
      state_is-active u.0.state (ground (arith, u.2)),
      ground (arith, u.2),
      ground arith,
      ground arith,
      ground arith,
      f.0,
      ground (arith, f.1),
      f.2,
      f.3,
      ground arith,
    )
