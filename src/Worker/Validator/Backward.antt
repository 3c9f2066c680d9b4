-- ===== src/Worker/Validator/Backward.antt =====
-- Videos that end before they start (`inspectMedia` of
-- services/api/internal/worker/validator.go).
use data_trains.Base.{
  ◌<◌, String, ◌≡◌, refl, arith, List, [], ◌∷◌, All, Bool-cases, Option-cases, inl, inr,
}
use data_trains.Domain.Errors.{ok}
use data_trains.Domain.Model.{Artifact}
use data_trains.Worker.Actions.{Json}
use data_trains.Worker.CrossReferences.{VideoSegment, ValidationDocument, registered}
use data_trains.Worker.CrossReferences.Consistent.{IsConsistent}
use data_trains.Worker.CrossReferences.Accepted.{validate_cross_references-IsConsistent}
use data_trains.Worker.Validator.{
  Seconds, Files, inspect_segment, inspect_media, settle, check_document,
}

module _ {B N : Type 0} (files : Files B N) (s : Seconds N) where
  inspect_segment-backward :
      (known : List Artifact) (v : VideoSegment)
      → v.end_ns < v.start_ns
      → inspect_segment files s known v ≡ ok []
  unfolding inspect_segment
  inspect_segment-backward known v h = elim (Option-cases (registered v.key known)) [
    | inl e ↦ ground arith
    | inr (a, e) ↦ ground arith
  ]

  inspect_media-backward :
      (known : List Artifact) (vs : List VideoSegment)
      → All (λ v. v.end_ns < v.start_ns) vs
      → inspect_media files s known vs ≡ ok []
  unfolding inspect_media
  inspect_media-backward known [] h = refl
  inspect_media-backward known (v ∷ vs) h =
      ground (arith, inspect_segment-backward known v h.0, inspect_media-backward known vs h.1)

  -- A document that agrees with the session and the artifacts and in which every video ends before
  -- it starts has no problem, with a media inspector or without one, whatever the stored videos are.
  pub check_document-backward :
      (session_id : String) (known : List Artifact) (generic : Json) (d : ValidationDocument)
      → IsConsistent session_id d known
      → All (λ v. v.end_ns < v.start_ns) d.video_segments
      → check_document files s session_id known generic d ≡ settle files s generic []
  unfolding check_document
  check_document-backward session_id known generic d consistent backward =
      let found =
        (validate_cross_references-IsConsistent files.decimal session_id d known).1 consistent in
      let media = inspect_media-backward known d.video_segments backward in
      elim (Bool-cases files.has_inspector) [ inl i ↦ ground arith | inr i ↦ ground arith ]
