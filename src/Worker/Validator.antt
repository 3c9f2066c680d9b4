-- ===== src/Worker/Validator.antt =====
-- `Validator.Validate` (services/api/internal/worker/validator.go).
pub mod Accepted
pub mod Backward
use data_trains.Base.{
  ℕ, ◌-◌, String, Bool, true, false, not, ◌&&◌, ◌||◌, ◌==◌, ltb, eqb, Option, none, some, List, [],
  ◌∷◌, ◌++◌, ◌+++◌, ℤ, if◌then◌else◌, sort_by, text_before,
}
use data_trains.Domain.Errors.{Error, Result, ok, err}
use data_trains.Domain.Model.{Artifact}
use data_trains.Worker.CrossReferences.{
  VideoSegment, ValidationDocument, registered, raw_prefix, validate_cross_references,
}
use data_trains.Worker.Actions.{
  Json, array, object, Elements, no_element, element, Members, no_member, member, get,
  normalize_actions,
}

-- What the validator uses of `float64`.
pub record Seconds (N : Type 0) : Type 0 where
  pub of_ns : ℕ → N
  pub two : N
  pub tenth : N → N
  pub larger : N → N → N
  pub distance : N → N → N
  pub lt : N → N → Bool
  pub three_digits : N → String

-- What it uses of the blob store, the JSON decoder and encoder, the schema and the media inspector,
-- on bytes `B`. `stat` gives the size and digest of a stored object, `read` its first 32 MiB and
-- one byte, `inspect` the duration of a video; `open_video` and `close_video` may fail.
pub record Files (B N : Type 0) : Type 0 where
  pub stat : String → Result (ℕ × String)
  pub read : String → Result B
  pub byte_count : B → ℕ
  pub decode : B → Result Json
  pub at_end : B → Result (Unit {0})
  pub check_schema : Json → Result (Unit {0})
  pub document : B → Result ValidationDocument
  pub marshal : Json → Result B
  pub has_inspector : Bool
  pub open_video : String → Option Error
  pub inspect : String → Result N
  pub close_video : String → Option Error
  pub error_text : Error → String
  pub decimal : ℕ → String
  pub int64_of : String → ℤ

-- `([]byte, []string, error)`, the error apart.
pub data Verdict (B : Type 0) : Type 0 where
  normalized : B → Verdict B
  problems : List String → Verdict B

-- 32 MiB
abbrev pub max_trajectory : ℕ
max_trajectory = 33554432

abbrev problem : {B : Type 0} → String → Result (Verdict B)
problem text = ok (problems (text ∷ []))

to_list : Elements → List Json
to_list no_element = []
to_list (element v vs) = v ∷ to_list vs

of_list : List Json → Elements
of_list [] = no_element
of_list (v ∷ vs) = element v (of_list vs)

-- `object[key] = v`, where the key is there.
put : String → Json → Members → Members
put k v no_member = no_member
put k v (member j w ms) = if j == k then member j v ms else member j w (put k v ms)

normalize_member : (String → ℤ) → Members → Json → Json
unfolding put to_list of_list normalize_actions
normalize_member int64_of ms (array vs) =
    object (put "actions" (array (of_list (normalize_actions int64_of (to_list vs)))) ms)
normalize_member int64_of ms v = object ms

-- The actions of the document are normalized; anything else is left as it is.
unfoldable pub normalize_document : (String → ℤ) → Json → Json
unfolding normalize_member get
normalize_document int64_of (object ms) = normalize_member int64_of ms (get "actions" ms)
normalize_document int64_of v = v

module _ {B N : Type 0} (files : Files B N) (s : Seconds N) where
  -- The loop over the artifacts: the text of the first mismatch, if there is one.
  unfoldable pub find_mismatch : List Artifact → Result (Option String)
  find_mismatch [] = ok none
  find_mismatch (a ∷ rest) =
      let others = find_mismatch rest in
      elim (files.stat a.key) [
        | ok (size, sha256) ↦
            if not (eqb size a.size) || not (sha256 == a.sha256)
            then ok (some ("artifact metadata mismatch: " +++ a.key))
            else others
        | err e ↦ err e
      ]

  -- The map `registered`, the artifact put last in front.
  unfoldable pub register_all : List Artifact → List Artifact → List Artifact
  register_all known [] = known
  register_all known (a ∷ rest) = register_all (a ∷ known) rest

  -- The declared duration differs from that of the video by more than it may.
  differs_in_time : N → N → Bool
  differs_in_time declared found =
      s.lt (s.larger s.two (s.tenth declared)) (s.distance found declared)

  duration_problem : VideoSegment → N → List String
  unfolding differs_in_time
  duration_problem v found =
      let declared = s.of_ns (v.end_ns - v.start_ns) in
      if differs_in_time declared found
      then ("video segment "
          +++ v.segment_id
          +++ " duration "
          +++ s.three_digits found
          +++ "s differs from declared "
          +++ s.three_digits declared
          +++ "s")
        ∷ []
      else []

  -- One video: nothing is asked of one that is not registered or ends before it starts.
  unfoldable pub inspect_segment : List Artifact → VideoSegment → Result (List String)
  unfolding registered duration_problem
  inspect_segment known v = elim (registered v.key known) [
    | none ↦ ok []
    | some a ↦ if ltb v.end_ns v.start_ns then ok [] else elim (files.open_video v.key) [
      | some e ↦ err e
      | none ↦ elim (files.inspect v.key) [
        | err e ↦ ok (
            ("video segment "
              +++ v.segment_id
              +++ " failed media inspection: "
              +++ files.error_text e)
            ∷ [])
        | ok found ↦ elim (files.close_video v.key) [
          | some e ↦ err e
          | none ↦ ok (duration_problem v found)
        ]
      ]
    ]
  ]

  -- `inspectMedia`
  unfoldable pub inspect_media : List Artifact → List VideoSegment → Result (List String)
  unfolding inspect_segment
  inspect_media known [] = ok []
  inspect_media known (v ∷ vs) =
      let rest = inspect_media known vs in
      elim (inspect_segment known v) [
        | err e ↦ err e
        | ok found ↦ elim rest [ err e ↦ err e | ok others ↦ ok (found ++ others) ]
      ]

  -- The document's problems decide.
  unfoldable pub settle : Json → List String → Result (Verdict B)
  unfolding normalize_document
  settle generic [] = elim (files.marshal (normalize_document files.int64_of generic)) [
    | ok bytes ↦ ok (normalized bytes)
    | err e ↦ err e
  ]
  settle generic (p ∷ ps) = ok (problems (sort_by text_before (p ∷ ps)))

  unfoldable pub check_document :
      String → List Artifact → Json → ValidationDocument → Result (Verdict B)
  unfolding inspect_media settle validate_cross_references
  check_document session_id known generic d =
      let found = validate_cross_references files.decimal session_id d known in
      if files.has_inspector
      then elim (inspect_media known d.video_segments) [
        | ok media ↦ settle generic (found ++ media)
        | err e ↦ err e
      ]
      else settle generic found

  -- From the bytes of the trajectory on.
  unfoldable pub check_bytes : String → List Artifact → B → Result (Verdict B)
  unfolding check_document
  check_bytes session_id known raw =
      if ltb max_trajectory (files.byte_count raw)
      then problem "trajectory.json exceeds 32 MiB"
      else elim (files.decode raw) [
        | err e ↦ problem ("trajectory.json is not valid JSON: " +++ files.error_text e)
        | ok generic ↦ elim (files.at_end raw) [
          | err e ↦ problem ("trajectory.json contains trailing JSON: " +++ files.error_text e)
          | ok _ ↦ elim (files.check_schema generic) [
            | err e ↦ problem ("schema validation failed: " +++ files.error_text e)
            | ok _ ↦ elim (files.document raw) [
              | err e ↦ problem ("trajectory.json could not be inspected: " +++ files.error_text e)
              | ok d ↦ check_document session_id known generic d
            ]
          ]
        ]
      ]

  abbrev pub trajectory_key : String → String
  trajectory_key session_id = raw_prefix session_id +++ "trajectory.json"

  unfoldable pub check_trajectory : String → List Artifact → Result (Verdict B)
  unfolding check_bytes registered
  check_trajectory session_id known = elim (registered (trajectory_key session_id) known) [
    | none ↦ problem ("required artifact is missing: " +++ trajectory_key session_id)
    | some a ↦ elim (files.read a.key) [ err e ↦ err e | ok raw ↦ check_bytes session_id known raw ]
  ]

  -- `Validate`
  unfoldable pub validate : String → List Artifact → Result (Verdict B)
  unfolding find_mismatch register_all check_trajectory
  validate session_id artifacts = elim (find_mismatch artifacts) [
    | err e ↦ err e
    | ok (some text) ↦ problem text
    | ok none ↦ check_trajectory session_id (register_all [] artifacts)
  ]
