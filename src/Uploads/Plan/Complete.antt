-- ===== src/Uploads/Plan/Complete.antt =====
-- What a complete list of parts adds up to (services/api/internal/httpapi/multipart_uploads.go).
use data_trains.Base.{
  ℕ, zero, suc, ◌+◌, ◌-◌, ◌*◌, ◌/◌, ◌%◌, ◌^◌, ◌<◌, ◌≤◌, pos, true, ltb, ◌≡◌, refl, ap, arith, List,
  [], ◌∷◌, if◌then◌else◌, length,
}
use native.Mathlib.Nat.{div-add-mod', mod-lt}
use data_trains.Db.{MultipartPartRow}
use data_trains.Uploads.Plan.{
  multipart_part_count, multipart_expected_part_size, planned_size, quotient, parts_fit, is_count,
  is_complete, int32_of,
}

-- The bytes of the parts.
unfoldable pub total_size : List MultipartPartRow → ℕ
total_size [] = 0
total_size (part ∷ parts) = part.size + total_size parts

-- Rounding up: the quotient is one more than that of the number before.
ceiling :
    (size part_size q : ℕ)
    → 0 < size
    → 0 < part_size
    → (size + part_size - 1) / part_size ≡ q
    → (n : ℕ) × (q ≡ suc n) × (n * part_size < size) × (size ≤ suc n * part_size)
ceiling size part_size zero s p e = absurd (
    omega (
      arith,
      div-add-mod' (size + part_size - 1) part_size,
      mod-lt (size + part_size - 1) p,
      ap (λ (t : ℕ). t * part_size) e,
    ))
ceiling size part_size (suc n) s p e = (
  n,
  refl,
  omega (arith, div-add-mod' (size + part_size - 1) part_size, ap (λ (t : ℕ). t * part_size) e),
  omega (
    arith,
    div-add-mod' (size + part_size - 1) part_size,
    mod-lt (size + part_size - 1) p,
    ap (λ (t : ℕ). t * part_size) e,
  ),
)

-- The number of parts of a size that is not 0: all but the last are whole.
count-bounds :
    (size part_size : ℕ)
    → 0 < size
    → 0 < part_size
    → size + part_size ≤ 2 ^ 63
    → (n : ℕ) × (multipart_part_count size part_size ≡ pos (suc n))
      × (n * part_size < size)
      × (size ≤ suc n * part_size)
unfolding multipart_part_count quotient
count-bounds size part_size s p b =
    let c = ceiling size part_size ((size + part_size - 1) / part_size) s p refl in
    (c.0, ground arith, c.2, c.3)

module _ (size part_size n : ℕ) (counted : multipart_part_count size part_size ≡ pos (suc n))
    (below : n * part_size < size) (above : size ≤ suc n * part_size) where
  expected-lem :
      (index : ℕ)
      → index ≤ n
      → multipart_expected_part_size size part_size (suc index)
        ≡ (if ltb index n then part_size else size - n * part_size)
  unfolding multipart_expected_part_size planned_size
  expected-lem index h = ground arith

  -- The part at an index has the size that its place asks for.
  part-size :
      (index : ℕ) (part : MultipartPartRow) (parts : List MultipartPartRow)
      → index ≤ n
      → n < 2 ^ 31 - 1
      → parts_fit size part_size index (part ∷ parts) ≡ true
      → (part.number ≡ suc index)
        × (part.size ≡ (if ltb index n then part_size else size - n * part_size))
        × (parts_fit size part_size (suc index) parts ≡ true)
  unfolding parts_fit int32_of
  part-size index part parts l small h =
      let e = expected-lem index l in
      let i : (if ltb (suc index % 2 ^ 32) (2 ^ 31) then suc index % 2 ^ 32 else 0) ≡ suc index =
        ground arith in
      (ground arith, ground arith, ground arith)

  -- The parts from an index on hold the bytes that the parts before it do not.
  parts_fit-total_size :
      (index : ℕ) (part : MultipartPartRow) (parts : List MultipartPartRow)
      → index + length parts ≡ n
      → n < 2 ^ 31 - 1
      → parts_fit size part_size index (part ∷ parts) ≡ true
      → total_size (part ∷ parts) + index * part_size ≡ size
  unfolding total_size
  parts_fit-total_size index part [] l small h =
      let p = part-size index part [] (omega (arith, l)) small h in
      let same : index ≡ n = omega (arith, l) in
      ground (arith, p.1, ap (λ (t : ℕ). t * part_size) same)
  parts_fit-total_size index part (next ∷ parts) l small h =
      let p = part-size index part (next ∷ parts) (omega (arith, l)) small h in
      let rest = parts_fit-total_size (suc index) next parts (omega (arith, l)) small p.2 in
      let whole : part.size ≡ part_size = ground (arith, p.1, l) in omega (arith, rest, whole)

-- The parts are numbered one after the other.
abbrev pub IsNumbered : ℕ → List MultipartPartRow → Type 0
IsNumbered index [] = Unit
IsNumbered index (part ∷ parts) = (part.number ≡ suc index) × IsNumbered (suc index) parts

parts_fit-IsNumbered :
    (size part_size index : ℕ) (parts : List MultipartPartRow)
    → index + length parts < 2 ^ 31
    → parts_fit size part_size index parts ≡ true
    → IsNumbered index parts
unfolding parts_fit int32_of
parts_fit-IsNumbered size part_size index [] l h = tt
parts_fit-IsNumbered size part_size index (part ∷ parts) l h =
    let i : (if ltb (suc index % 2 ^ 32) (2 ^ 31) then suc index % 2 ^ 32 else 0) ≡ suc index =
      ground arith in
    (
      ground arith,
      parts_fit-IsNumbered size part_size (suc index) parts (omega (arith, l)) (ground arith),
    )

-- If the recorded parts of an upload, at most 10,000 of them, pass the checks of its completion, then
-- they are numbered from 1 on without a gap and their bytes add up to the size of the upload. The
-- sizes are positive and their sum is in the range of an `int64`.
pub is_complete-total_size :
    (size part_size : ℕ) (parts : List MultipartPartRow)
    → 0 < size
    → 0 < part_size
    → size + part_size ≤ 2 ^ 63
    → length parts ≤ 10000
    → is_complete size part_size parts ≡ true
    → (total_size parts ≡ size) × IsNumbered 0 parts
unfolding is_complete is_count total_size
is_complete-total_size size part_size [] s p b l h =
    let c = count-bounds size part_size s p b in absurd (ground arith)
is_complete-total_size size part_size (part ∷ parts) s p b l h =
    let c = count-bounds size part_size s p b in
    let n : suc (length parts) ≡ suc c.0 = ground arith in
    (
      omega (
        arith,
        parts_fit-total_size size part_size c.0 c.1 c.2 c.3 0 part parts (omega (arith, n))
            (omega (arith, n, l)) (ground arith),
      ),
      parts_fit-IsNumbered size part_size 0 (part ∷ parts) (omega (arith, l)) (ground arith),
    )
