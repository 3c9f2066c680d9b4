-- ===== src/Redaction/Document/Canonical.antt =====
-- What a redaction document that is accepted is like, and its canonical form
-- (`canonicalRedactionDocument` of services/api/internal/database/redaction.go).
use mathlib.Core.List.{Perm}
use data_trains.Base.{
  ◌≤◌, ◌<◌, is_negative, leb_ℤ, String, true, false, ◌||◌, starts_with, List, [], ◌∷◌, ◌≡◌, ◌⊎◌,
  inl, inr, refl, arith, eq_iff, length, All, sort_by, text_before_asym,
}
use data_trains.Base.Sort.{IsSorted, sort_by-perm, sort_by-IsSorted}
use data_trains.Domain.Errors.{Result-cases, ok}
use data_trains.Redaction.Document.{
  Floats, RedactionRegion, RedactionSegment, RedactionDocument, canonical_redaction_document,
  validate_segments, validate_segment, validate_regions, validate_redaction_region, by_source_key,
  video_prefix, seen,
}

module _ {N : Type 0} (f : Floats N) where
  open f use {is_nan, is_inf, lt, le, add, zero, one}

  -- A region is a rectangle with no infinite side and no NaN inside the unit square, shown for a
  -- time that passes.
  pub record IsRegion (r : RedactionRegion N) : Type 0 where
    pub starts : is_negative r.start_ns ≡ false
    pub passes : leb_ℤ r.end_ns r.start_ns ≡ false
    pub is_finite :
        (is_nan r.x
          || is_inf r.x
          || is_nan r.y
          || is_inf r.y
          || is_nan r.width
          || is_inf r.width
          || is_nan r.height
          || is_inf r.height)
        ≡ false
    pub inside :
        (lt r.x zero || lt r.y zero || lt one (add r.x r.width) || lt one (add r.y r.height))
        ≡ false
    pub positive : (le r.width zero || le r.height zero) ≡ false

  -- A segment names a video of the session, and has regions exactly if it is to be redacted.
  pub record IsSegment (session_id : String) (s : RedactionSegment N) : Type 0 where
    pub scoped : starts_with s.source_key (video_prefix session_id) ≡ true
    pub decided :
        ((s.decision ≡ "publish_as_is") × (s.regions ≡ []))
        ⊎ ((s.decision ≡ "redact") × (0 < length s.regions))
    pub few : length s.regions ≤ 100
    pub each : All IsRegion s.regions

  -- No source key stands twice, nor is one of `keys`.
  abbrev pub IsUnique : List String → List (RedactionSegment N) → Type 0
  IsUnique keys [] = Unit
  IsUnique keys (s ∷ ss) = (seen s.source_key keys ≡ false) × IsUnique (s.source_key ∷ keys) ss

  validate_redaction_region-IsRegion :
      (r : RedactionRegion N) → validate_redaction_region f r ≡ ok tt → IsRegion r
  unfolding validate_redaction_region
  validate_redaction_region-IsRegion r h = ground arith

  validate_regions-All :
      (rs : List (RedactionRegion N)) → validate_regions f rs ≡ ok tt → All IsRegion rs
  unfolding validate_regions
  validate_regions-All [] h = tt
  validate_regions-All (r ∷ rs) h =
      ground (arith, validate_redaction_region-IsRegion r, validate_regions-All rs)

  no_regions : (rs : List (RedactionRegion N)) → length rs ≡ 0 → rs ≡ []
  no_regions [] h = refl
  no_regions (r ∷ rs) h = absurd (omega arith)

  validate_segment-IsSegment :
      (session_id : String) (keys : List String) (s : RedactionSegment N)
      → validate_segment f session_id keys s ≡ ok tt
      → IsSegment session_id s × (seen s.source_key keys ≡ false)
  unfolding validate_segment
  validate_segment-IsSegment session_id keys s h =
      let each : All IsRegion s.regions = validate_regions-All s.regions (ground arith) in
      (
        record {
          scoped = ground arith;
          decided = ground (
            arith,
            eq_iff s.decision "publish_as_is",
            eq_iff s.decision "redact",
            no_regions s.regions,
          );
          few = ground arith;
          each = each;
        },
        ground arith,
      )

  validate_segments-All :
      (session_id : String) (keys : List String) (ss : List (RedactionSegment N))
      → validate_segments f session_id keys ss ≡ ok tt
      → All (IsSegment session_id) ss × IsUnique keys ss
  unfolding validate_segments
  validate_segments-All session_id keys [] h = (tt, tt)
  validate_segments-All session_id keys (s ∷ ss) h =
      elim (Result-cases (validate_segment f session_id keys s)) [
        | inl (u, e) ↦
            let v = validate_segment-IsSegment session_id keys s (ground arith) in
            let w = validate_segments-All session_id (s.source_key ∷ keys) ss (ground arith) in
            ((v.0, w.0), (v.1, w.1))
        | inr (x, e) ↦ ground arith
      ]

  -- A document that is accepted has the schema redaction/v1 and 1 to 1000 segments; every segment
  -- names another video of the session and has regions, each a rectangle inside the unit square,
  -- exactly if it is to be redacted. Its canonical form has the same segments, in the order of
  -- their source keys.
  pub canonical_redaction_document-ok :
      (document canonical : RedactionDocument N) (session_id : String)
      → canonical_redaction_document f document session_id ≡ ok canonical
      → (canonical.schema_version ≡ "redaction/v1")
        × (1 ≤ length document.segments)
        × (length document.segments ≤ 1000)
        × All (IsSegment session_id) document.segments
        × IsUnique [] document.segments
        × Perm canonical.segments document.segments
        × IsSorted (by_source_key f) canonical.segments
  unfolding canonical_redaction_document
  canonical_redaction_document-ok document canonical session_id h =
      let sorted = sort_by (by_source_key f) document.segments in
      let same : canonical ≡ record document { segments = sorted } = ground arith in
      let valid = validate_segments-All session_id [] document.segments (ground arith) in
      (
        ground (arith, eq_iff document.schema_version "redaction/v1"),
        ground arith,
        ground arith,
        valid.0,
        valid.1,
        rw same (sort_by-perm (by_source_key f) document.segments),
        rw same (
            sort_by-IsSorted (by_source_key f) (λ s t. text_before_asym s.source_key t.source_key)
              document.segments),
      )
