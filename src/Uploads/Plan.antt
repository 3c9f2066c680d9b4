-- ===== src/Uploads/Plan.antt =====
-- The plan of an upload's parts (services/api/internal/httpapi/multipart_uploads.go).
pub mod Complete
use data_trains.Base.{
  ℕ, zero, suc, ◌+◌, ◌-◌, ◌*◌, ◌/◌, ◌%◌, ◌^◌, ℤ, pos, negsuc, leb_ℤ, Bool, true, false, not, ◌&&◌,
  ◌||◌, ltb, leb, eqb, List, [], ◌∷◌, if◌then◌else◌, length,
}
use data_trains.Db.{MultipartPartRow}

-- A quotient of `int64`, which is cut off towards 0; `sum` is what wraps.
unfoldable pub quotient : ℕ → ℕ → ℤ
quotient sum part_size =
    if ltb sum (2 ^ 63)
    then pos (sum / part_size)
    else if ltb (2 ^ 64 - sum) part_size
    then pos 0
    else negsuc ((2 ^ 64 - sum) / part_size - 1)

-- `multipartPartCount`, on sizes that are not negative.
unfoldable pub multipart_part_count : ℕ → ℕ → ℤ
unfolding quotient
multipart_part_count size part_size =
    if ltb size 1 || ltb part_size 1 then pos 0 else quotient (size + part_size - 1) part_size

-- The size of the part `number` of `total`; the last part takes what is left.
planned_size : ℕ → ℕ → ℕ → ℤ → ℕ
planned_size size part_size number (negsuc n) = 0
planned_size size part_size number (pos total) =
    if ltb number 1 || ltb total number
    then 0
    else if ltb number total
    then part_size
    else size - (total - 1) * part_size

-- `multipartExpectedPartSize`; the number 0 stands for every number that is not positive.
unfoldable pub multipart_expected_part_size : ℕ → ℕ → ℕ → ℕ
unfolding planned_size multipart_part_count
multipart_expected_part_size size part_size number =
    planned_size size part_size number (multipart_part_count size part_size)

-- `int32(n)`, with 0 for a negative number.
int32_of : ℕ → ℕ
int32_of n = if ltb (n % 2 ^ 32) (2 ^ 31) then n % 2 ^ 32 else 0

-- The loop over the parts, in the order of their numbers.
unfoldable pub parts_fit : ℕ → ℕ → ℕ → List MultipartPartRow → Bool
unfolding multipart_expected_part_size int32_of
parts_fit size part_size index [] = true
parts_fit size part_size index (part ∷ parts) =
    eqb part.number (int32_of (suc index))
    && eqb part.size (multipart_expected_part_size size part_size (int32_of (suc index)))
    && parts_fit size part_size (suc index) parts

is_count : ℕ → ℤ → Bool
is_count n (pos total) = eqb n total
is_count n (negsuc m) = false

-- The checks of `completeMultipartArtifactUpload` on the parts that are recorded.
unfoldable pub is_complete : ℕ → ℕ → List MultipartPartRow → Bool
unfolding is_count multipart_part_count parts_fit
is_complete size part_size parts =
    is_count (length parts) (multipart_part_count size part_size)
    && parts_fit size part_size 0 parts
