-- ===== src/Redaction/Document.antt =====
-- Redaction documents and their canonical form (services/api/internal/database/redaction.go,
-- services/api/internal/domain/model.go).
pub mod Canonical
use Prim.Native.Char.{Char, code}
use Prim.Native.String.{len}
use data_trains.Base.{
  ℕ, ℤ, is_negative, leb_ℤ, String, Bool, true, false, not, ◌&&◌, ◌||◌, ◌==◌, ltb, leb, eqb,
  starts_with, List, [], ◌∷◌, ◌+++◌, if◌then◌else◌, length, sort_by, text_before,
}
use data_trains.Domain.Errors.{Result, ok, err, message}

-- What the program uses of `float64`.
pub record Floats (N : Type 0) : Type 0 where
  pub is_nan : N → Bool
  pub is_inf : N → Bool
  pub lt : N → N → Bool
  pub le : N → N → Bool
  pub add : N → N → N
  pub zero : N
  pub one : N

pub record RedactionRegion (N : Type 0) : Type 0 where
  pub start_ns : ℤ
  pub end_ns : ℤ
  pub x : N
  pub y : N
  pub width : N
  pub height : N
  pub kind : String

pub record RedactionSegment (N : Type 0) : Type 0 where
  pub segment_id : String
  pub source_key : String
  pub decision : String
  pub regions : List (RedactionRegion N)

pub record RedactionDocument (N : Type 0) : Type 0 where
  pub schema_version : String
  pub segments : List (RedactionSegment N)

-- A character of `[A-Za-z0-9_-]`.
is_id_char : ℕ → Bool
is_id_char c =
    (leb b'A' c && leb c b'Z')
    || (leb b'a' c && leb c b'z')
    || (leb b'0' c && leb c b'9')
    || eqb c b'_'
    || eqb c b'-'

all_id_chars : String → Bool
unfolding is_id_char
all_id_chars String.[] = true
all_id_chars (String.◌∷◌ c s) = is_id_char (code c) && all_id_chars s

-- `redactionSegmentID`: one such character at least, and none but such.
unfoldable pub is_segment_id : String → Bool
unfolding all_id_chars
is_segment_id s = not (s == "") && all_id_chars s

abbrev pub video_prefix : String → String
video_prefix session_id = "raw/sessions/" +++ session_id +++ "/video/"

-- The keys that the loop has seen.
unfoldable pub seen : String → List String → Bool
seen key [] = false
seen key (k ∷ ks) = k == key || seen key ks

module _ {N : Type 0} (f : Floats N) where
  open f use {is_nan, is_inf, lt, le, add, zero, one}

  not_finite : N → Bool
  not_finite v = is_nan v || is_inf v

  -- `validateRedactionRegion`
  unfoldable pub validate_redaction_region : RedactionRegion N → Result (Unit {0})
  unfolding not_finite
  validate_redaction_region r =
      if is_negative r.start_ns || leb_ℤ r.end_ns r.start_ns
      then err (message "time range must be finite, non-negative, and increasing")
      else if not_finite r.x || not_finite r.y || not_finite r.width || not_finite r.height
      then err (message "geometry must contain finite normalized numbers")
      else if lt r.x zero
          || lt r.y zero
          || le r.width zero
          || le r.height zero
          || lt one (add r.x r.width)
          || lt one (add r.y r.height)
      then err (message "geometry must be a positive rectangle within normalized [0,1] bounds")
      else if r.kind == "personal_data"
          || r.kind == "credential"
          || r.kind == "unrelated_content"
          || r.kind == "other"
      then ok tt
      else err (message "kind must be personal_data, credential, unrelated_content, or other")

  unfoldable pub validate_regions : List (RedactionRegion N) → Result (Unit {0})
  validate_regions [] = ok tt
  validate_regions (r ∷ rs) =
      let rest = validate_regions rs in
      elim (validate_redaction_region r) [ ok _ ↦ rest | err e ↦ err e ]

  -- The checks that the loop makes on one segment.
  unfoldable pub validate_segment : String → List String → RedactionSegment N → Result (Unit {0})
  validate_segment session_id keys s =
      if ltb 128 (len s.segment_id) || not (is_segment_id s.segment_id)
      then err (message "segment has an invalid segment_id")
      else if not (starts_with s.source_key (video_prefix session_id)) || seen s.source_key keys
      then err (message "segment source_key is not a unique video in this session")
      else if not (s.decision == "publish_as_is") && not (s.decision == "redact")
      then err (message "segment decision must be publish_as_is or redact")
      else if (s.decision == "publish_as_is" && not (eqb (length s.regions) 0))
          || (s.decision == "redact" && eqb (length s.regions) 0)
      then err (message "segment decision does not match its regions")
      else if ltb 100 (length s.regions)
      then err (message "segment exceeds 100 redaction regions")
      else validate_regions s.regions

  -- The loop over the segments, with the source keys seen so far.
  unfoldable pub validate_segments :
      String → List String → List (RedactionSegment N) → Result (Unit {0})
  validate_segments session_id keys [] = ok tt
  validate_segments session_id keys (s ∷ ss) =
      let rest = validate_segments session_id (s.source_key ∷ keys) ss in
      elim (validate_segment session_id keys s) [ ok _ ↦ rest | err e ↦ err e ]

  abbrev pub by_source_key : RedactionSegment N → RedactionSegment N → Bool
  by_source_key s t = text_before s.source_key t.source_key

  -- `canonicalRedactionDocument`, up to `json.Marshal`.
  unfoldable pub canonical_redaction_document :
      RedactionDocument N → String → Result (RedactionDocument N)
  canonical_redaction_document document session_id =
      if not (document.schema_version == "redaction/v1")
        || ltb (length document.segments) 1
        || ltb 1000 (length document.segments)
      then err (message "redaction/v1 and between 1 and 1000 segment decisions are required")
      else elim (validate_segments session_id [] document.segments) [
        | ok _ ↦ ok (record document { segments = sort_by by_source_key document.segments })
        | err e ↦ err e
      ]
