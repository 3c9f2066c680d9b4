-- ===== src/Worker/CrossReferences.antt =====
-- The checks of a trajectory against the artifacts of its session
-- (services/api/internal/worker/validator.go).
pub mod Consistent
pub mod Accepted
use data_trains.Base.{
  ℕ, zero, suc, ◌+◌, String, Bool, true, false, not, ◌&&◌, ◌||◌, ◌==◌, ltb, leb, eqb, Option, none,
  some, List, [], ◌∷◌, ◌++◌, ◌+++◌, if◌then◌else◌, starts_with,
}
use data_trains.Domain.Model.{Artifact}
use data_trains.Worker.Unique.{unique}

-- A `uint64` and an `int64` that the schema makes non-negative are natural numbers.
pub record VideoSegment : Type 0 where
  pub key : String
  pub start_ns : ℕ
  pub end_ns : ℕ
  pub sha256 : String
  pub size : ℕ
  pub segment_id : String

pub record TimedAction : Type 0 where
  pub timestamp_ns : ℕ

pub record OutputArtifact : Type 0 where
  pub key : String
  pub sha256 : String
  pub size : ℕ
  pub media_type : String

-- `validationDocument`, with the fields that the checks read.
pub record ValidationDocument : Type 0 where
  pub schema_version : String
  pub duration_ns : ℕ
  pub video_segments : List VideoSegment
  pub actions : List TimedAction
  pub output_artifacts : List OutputArtifact
  pub clipboard_captured : Bool
  pub recording_visible : Bool
  pub session_id : String

-- The map `registered`: the last artifact that was put under a key is the first here.
unfoldable pub registered : String → List Artifact → Option Artifact
registered key [] = none
registered key (a ∷ rest) = if a.key == key then some a else registered key rest

abbrev pub raw_prefix : String → String
raw_prefix session_id = "raw/sessions/" +++ session_id +++ "/"

-- `if b { problems = append(problems, text) }`
abbrev pub problem_if : Bool → String → List String
problem_if true text = text ∷ []
problem_if false text = []

-- The registered artifact is not what the document says of it.
unfoldable pub differs : String → ℕ → String → Artifact → Bool
differs sha256 size media_type a =
    not (a.sha256 == sha256) || not (eqb a.size size) || not (a.media_type == media_type)

unfoldable pub reference_problems :
    String → String → String → ℕ → String → Option Artifact → List String
unfolding differs
reference_problems kind key sha256 size media_type none =
    (kind +++ " is not registered: " +++ key) ∷ []
reference_problems kind key sha256 size media_type (some a) =
    problem_if (differs sha256 size media_type a) (kind +++ " metadata mismatch: " +++ key)

-- `previous` is the end of the segment before, if there is one.
abbrev pub precedes : Option ℕ → ℕ → Bool
precedes none t = false
precedes (some previous) t = ltb t previous

module _ (session_id : String) (artifacts : List Artifact) (duration_ns : ℕ) where
  unfoldable pub segment_problems : Option ℕ → VideoSegment → List String
  unfolding registered reference_problems
  segment_problems previous s =
      problem_if (not (starts_with s.key (raw_prefix session_id)))
        ("video segment " +++ s.segment_id +++ " is outside the submitted session")
      ++ (reference_problems "video segment" s.key s.sha256 s.size "video/mp4"
            (registered s.key artifacts)
          ++ (problem_if (precedes previous s.start_ns)
                ("video segment " +++ s.segment_id +++ " overlaps its predecessor")
              ++ problem_if (ltb duration_ns s.end_ns)
                  ("video segment " +++ s.segment_id +++ " exceeds capture duration")))

  -- The loop over the segments, with `previousSegmentEnd` once there is one.
  unfoldable pub all_segment_problems : Option ℕ → List VideoSegment → List String
  unfolding segment_problems
  all_segment_problems previous [] = []
  all_segment_problems previous (s ∷ ss) =
      segment_problems previous s ++ all_segment_problems (some s.end_ns) ss

  unfoldable pub output_problems : List OutputArtifact → List String
  unfolding registered reference_problems
  output_problems [] = []
  output_problems (a ∷ rest) =
      problem_if (not (starts_with a.key (raw_prefix session_id)))
        ("output artifact is outside the submitted session: " +++ a.key)
      ++ (reference_problems "output artifact" a.key a.sha256 a.size a.media_type
            (registered a.key artifacts)
          ++ output_problems rest)

  -- `decimal` writes an index in decimal digits.
  module _ (decimal : ℕ → String) where
    -- The loop over the actions, with the index and `previousAction` once there is one.
    unfoldable pub action_problems : ℕ → Option ℕ → List TimedAction → List String
    action_problems index previous [] = []
    action_problems index previous (a ∷ rest) =
        problem_if (precedes previous a.timestamp_ns)
          ("action " +++ decimal index +++ " timestamp is not monotonic")
        ++ (problem_if (ltb duration_ns a.timestamp_ns)
              ("action " +++ decimal index +++ " exceeds capture duration")
            ++ action_problems (suc index) (some a.timestamp_ns) rest)

-- `validateCrossReferences`
unfoldable pub validate_cross_references :
    (ℕ → String) → String → ValidationDocument → List Artifact → List String
unfolding unique all_segment_problems action_problems output_problems
validate_cross_references decimal session_id d artifacts = unique (
    problem_if (not (d.schema_version == "trajectory/v1"))
      ("unsupported schema_version: " +++ d.schema_version)
    ++ (problem_if (not (d.session_id == session_id))
          "provenance.session_id does not match submitted session"
        ++ (all_segment_problems session_id artifacts d.duration_ns none d.video_segments
            ++ (action_problems session_id artifacts d.duration_ns decimal 0 none d.actions
                ++ (output_problems session_id artifacts d.duration_ns d.output_artifacts
                    ++ problem_if (d.clipboard_captured || not d.recording_visible)
                        "privacy invariants are not satisfied")))))
