-- ===== src/Worker/CrossReferences/Accepted.antt =====
-- The trajectories that the checks accept are the consistent ones
-- (services/api/internal/worker/validator.go).
use data_trains.Base.{
  ℕ, suc, ◌≤◌, String, true, false, not, ◌||◌, ◌==◌, ◌≡◌, ◌↔◌, refl, arith, ltb, Option, none, some,
  List, [], ◌∷◌, starts_with, eq_iff, All,
}
use data_trains.Domain.Model.{Artifact}
use data_trains.Worker.Unique.{unique, unique_from}
use data_trains.Worker.CrossReferences.{
  TimedAction, OutputArtifact, ValidationDocument, registered, raw_prefix, precedes,
  output_problems, action_problems, validate_cross_references,
}
use data_trains.Worker.CrossReferences.Consistent.{
  IsBacked, IsChained, IsConsistent, append-eq-nil, problem_if-eq-nil, unique-eq-nil,
  reference-IsBacked, IsBacked-reference, segments-ok, segments-no_problem,
}

module _ (session_id : String) (artifacts : List Artifact) (duration_ns : ℕ) where
  abbrev AreOutputs : List OutputArtifact → Type 0
  AreOutputs outputs =
      All (λ a. starts_with a.key (raw_prefix session_id) ≡ true) outputs
      × All (λ a. IsBacked artifacts a.key a.sha256 a.size a.media_type) outputs

  outputs-ok :
      (outputs : List OutputArtifact)
      → output_problems session_id artifacts duration_ns outputs ≡ []
      → AreOutputs outputs
  unfolding output_problems
  outputs-ok [] h = (tt, tt)
  outputs-ok (a ∷ rest) h =
      let inside = append-eq-nil _ _ h in
      let backed = append-eq-nil _ _ inside.1 in
      let outside =
        problem_if-eq-nil (not (starts_with a.key (raw_prefix session_id))) _ inside.0 in
      let others = outputs-ok rest backed.1 in
      (
        (ground arith, others.0),
        (
          reference-IsBacked artifacts "output artifact" a.key a.sha256 a.size a.media_type
              (registered a.key artifacts) backed.0,
          others.1,
        ),
      )

  outputs-no_problem :
      (outputs : List OutputArtifact)
      → AreOutputs outputs
      → output_problems session_id artifacts duration_ns outputs ≡ []
  unfolding output_problems
  outputs-no_problem [] h = refl
  outputs-no_problem (a ∷ rest) h =
      let b = h.1.0 in
      let r =
        IsBacked-reference artifacts "output artifact" a.key a.sha256 a.size a.media_type
          (registered a.key artifacts) b.0 b.1 b.2 b.3 b.4 in
      let inside : not (starts_with a.key (raw_prefix session_id)) ≡ false = ground arith in
      rw (inside, r) (outputs-no_problem rest (h.0.1, h.1.1))

  abbrev AreActions : List TimedAction → Type 0
  AreActions actions =
      All (λ a. a.timestamp_ns ≤ duration_ns) actions
      × IsChained (λ a. a.timestamp_ns) (λ a. a.timestamp_ns) actions

  module _ (decimal : ℕ → String) where
    action-ok :
        (index : ℕ) (previous : Option ℕ) (a : TimedAction) (rest : List TimedAction)
        → action_problems session_id artifacts duration_ns decimal index previous (a ∷ rest) ≡ []
        → (precedes previous a.timestamp_ns ≡ false)
          × (a.timestamp_ns ≤ duration_ns)
          × (action_problems session_id artifacts duration_ns decimal
                (suc index)
                (some a.timestamp_ns)
                rest
              ≡ [])
    unfolding action_problems
    action-ok index previous a rest h =
        let order = append-eq-nil _ _ h in
        let bound = append-eq-nil _ _ order.1 in
        let late = problem_if-eq-nil (ltb duration_ns a.timestamp_ns) _ bound.0 in
        (problem_if-eq-nil (precedes previous a.timestamp_ns) _ order.0, ground arith, bound.1)

    actions-ok :
        (index : ℕ) (previous : Option ℕ) (actions : List TimedAction)
        → action_problems session_id artifacts duration_ns decimal index previous actions ≡ []
        → AreActions actions
    actions-ok index previous [] h = (tt, tt)
    actions-ok index previous (a ∷ []) h = (((action-ok index previous a [] h).1, tt), tt)
    actions-ok index previous (a ∷ b ∷ rest) h =
        let one = action-ok index previous a (b ∷ rest) h in
        let two = action-ok (suc index) (some a.timestamp_ns) b rest one.2 in
        let others = actions-ok (suc index) (some a.timestamp_ns) (b ∷ rest) one.2 in
        ((one.1, others.0), (ground (arith, two.0), others.1))

    actions-no_problem :
        (index : ℕ) (previous : Option ℕ) (actions : List TimedAction)
        → ((a : TimedAction) (rest : List TimedAction)
            → actions ≡ a ∷ rest
            → precedes previous a.timestamp_ns ≡ false)
        → AreActions actions
        → action_problems session_id artifacts duration_ns decimal index previous actions ≡ []
    unfolding action_problems
    actions-no_problem index previous [] f h = refl
    actions-no_problem index previous (a ∷ []) f h =
        let late : ltb duration_ns a.timestamp_ns ≡ false = ground (arith, h.0.0) in
        rw (f a [] refl, late) refl
    actions-no_problem index previous (a ∷ b ∷ rest) f h =
        let late : ltb duration_ns a.timestamp_ns ≡ false = ground (arith, h.0.0) in
        rw (f a (b ∷ rest) refl, late)
          (actions-no_problem (suc index) (some a.timestamp_ns) (b ∷ rest) (λ c cs e. ground arith)
            (h.0.1, h.1.1))

-- A trajectory has no problem exactly if it is consistent: it has the version and names the session;
-- its videos and outputs are registered artifacts of the session with the content that it says; its
-- segments and actions are in order and end within the capture; the clipboard was not captured and
-- the recording was visible.
pub validate_cross_references-IsConsistent :
    (decimal : ℕ → String) (session_id : String) (d : ValidationDocument)
    (artifacts : List Artifact)
    → (validate_cross_references decimal session_id d artifacts ≡ [])
      ↔ IsConsistent session_id d artifacts
unfolding validate_cross_references unique unique_from
validate_cross_references-IsConsistent decimal session_id d artifacts = (
  λ h.
      let all = unique-eq-nil _ h in
      let version = append-eq-nil _ _ all in
      let provenance = append-eq-nil _ _ version.1 in
      let segments = append-eq-nil _ _ provenance.1 in
      let actions = append-eq-nil _ _ segments.1 in
      let outputs = append-eq-nil _ _ actions.1 in
      let v = problem_if-eq-nil (not (d.schema_version == "trajectory/v1")) _ version.0 in
      let p = problem_if-eq-nil (not (d.session_id == session_id)) _ provenance.0 in
      let c = problem_if-eq-nil (d.clipboard_captured || not d.recording_visible) _ outputs.1 in
      let s = segments-ok session_id artifacts d.duration_ns none d.video_segments segments.0 in
      let a = actions-ok session_id artifacts d.duration_ns decimal 0 none d.actions actions.0 in
      let o = outputs-ok session_id artifacts d.duration_ns d.output_artifacts outputs.0 in
      record {
        version = ground (arith, eq_iff d.schema_version "trajectory/v1");
        provenance = ground (arith, eq_iff d.session_id session_id);
        segments_inside = s.0;
        segments_backed = s.1;
        segments_bounded = s.2;
        segments_ordered = s.3;
        actions_bounded = a.0;
        actions_ordered = a.1;
        outputs_inside = o.0;
        outputs_backed = o.1;
        no_clipboard = ground arith;
        visible = ground arith;
      },
  λ k.
      let v : not (d.schema_version == "trajectory/v1") ≡ false =
        ground (arith, eq_iff d.schema_version "trajectory/v1") in
      let p : not (d.session_id == session_id) ≡ false =
        ground (arith, eq_iff d.session_id session_id) in
      let c : (d.clipboard_captured || not d.recording_visible) ≡ false = ground arith in
      let s =
        segments-no_problem session_id artifacts d.duration_ns none d.video_segments (λ s r e. refl)
          (k.segments_inside, k.segments_backed, k.segments_bounded, k.segments_ordered) in
      let a =
        actions-no_problem session_id artifacts d.duration_ns decimal 0 none d.actions
          (λ s r e. refl) (k.actions_bounded, k.actions_ordered) in
      let o =
        outputs-no_problem session_id artifacts d.duration_ns d.output_artifacts
          (k.outputs_inside, k.outputs_backed) in
      rw (v, p, s, a, o, c) refl,
)
