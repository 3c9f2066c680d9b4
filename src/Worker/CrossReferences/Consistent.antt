-- ===== src/Worker/CrossReferences/Consistent.antt =====
-- Which trajectories have no problem (services/api/internal/worker/validator.go).
use data_trains.Base.{
  ℕ, ◌≤◌, String, Bool, true, false, not, ◌≡◌, refl, arith, ltb, Option, none, some, List, [], ◌∷◌,
  ◌++◌, starts_with, eq_iff, All,
}
use data_trains.Domain.Model.{Artifact}
use data_trains.Worker.Unique.{unique, unique_from, contains}
use data_trains.Worker.CrossReferences.{
  VideoSegment, ValidationDocument, registered, raw_prefix, problem_if, differs, reference_problems,
  precedes, segment_problems, all_segment_problems,
}

-- The key is registered, as exactly this content.
abbrev pub IsBacked : List Artifact → String → String → ℕ → String → Type 0
IsBacked artifacts key sha256 size media_type =
    (a : Artifact) × (registered key artifacts ≡ some a)
    × (a.sha256 ≡ sha256)
    × (a.size ≡ size)
    × (a.media_type ≡ media_type)

-- Each element starts no earlier than the one before it ends.
abbrev pub IsChained : {A : Type 0} → (A → ℕ) → (A → ℕ) → List A → Type 0
IsChained start end [] = Unit
IsChained start end (x ∷ []) = Unit
IsChained start end (x ∷ y ∷ ys) = (end x ≤ start y) × IsChained start end (y ∷ ys)

pub record IsConsistent (session_id : String) (d : ValidationDocument) (artifacts : List Artifact)
    : Type 0 where
  pub version : d.schema_version ≡ "trajectory/v1"
  pub provenance : d.session_id ≡ session_id
  pub segments_inside : All (λ s. starts_with s.key (raw_prefix session_id) ≡ true) d.video_segments
  pub segments_backed :
      All (λ s. IsBacked artifacts s.key s.sha256 s.size "video/mp4") d.video_segments
  pub segments_bounded : All (λ s. s.end_ns ≤ d.duration_ns) d.video_segments
  pub segments_ordered : IsChained (λ s. s.start_ns) (λ s. s.end_ns) d.video_segments
  pub actions_bounded : All (λ a. a.timestamp_ns ≤ d.duration_ns) d.actions
  pub actions_ordered : IsChained (λ a. a.timestamp_ns) (λ a. a.timestamp_ns) d.actions
  pub outputs_inside :
      All (λ a. starts_with a.key (raw_prefix session_id) ≡ true) d.output_artifacts
  pub outputs_backed :
      All (λ a. IsBacked artifacts a.key a.sha256 a.size a.media_type) d.output_artifacts
  pub no_clipboard : d.clipboard_captured ≡ false
  pub visible : d.recording_visible ≡ true

pub append-eq-nil : (xs ys : List String) → xs ++ ys ≡ [] → (xs ≡ []) × (ys ≡ [])
append-eq-nil [] ys h = (refl, h)
append-eq-nil (x ∷ xs) ys h = cc

pub problem_if-eq-nil : (b : Bool) (text : String) → problem_if b text ≡ [] → b ≡ false
problem_if-eq-nil true text h = cc
problem_if-eq-nil false text h = refl

pub unique-eq-nil : (xs : List String) → unique xs ≡ [] → xs ≡ []
unfolding unique unique_from contains
unique-eq-nil [] h = refl
unique-eq-nil (x ∷ xs) h = cc

module _ (artifacts : List Artifact) (kind key sha256 : String) (size : ℕ)
    (media_type : String) where
  pub reference-IsBacked :
      (o : Option Artifact)
      → reference_problems kind key sha256 size media_type o ≡ []
      → (a : Artifact) × (o ≡ some a)
        × (a.sha256 ≡ sha256)
        × (a.size ≡ size)
        × (a.media_type ≡ media_type)
  unfolding reference_problems differs
  reference-IsBacked none h = cc
  reference-IsBacked (some a) h =
      let e = problem_if-eq-nil (differs sha256 size media_type a) _ h in
      (
        a,
        refl,
        ground (arith, eq_iff a.sha256 sha256),
        ground arith,
        ground (arith, eq_iff a.media_type media_type),
      )

  pub IsBacked-reference :
      (o : Option Artifact) (a : Artifact)
      → o ≡ some a
      → a.sha256 ≡ sha256
      → a.size ≡ size
      → a.media_type ≡ media_type
      → reference_problems kind key sha256 size media_type o ≡ []
  unfolding reference_problems differs
  IsBacked-reference none a e s z m = cc
  IsBacked-reference (some b) a e s z m =
      ground (arith, eq_iff b.sha256 sha256, eq_iff b.media_type media_type)

module _ (session_id : String) (artifacts : List Artifact) (duration_ns : ℕ) where
  segment-ok :
      (previous : Option ℕ) (s : VideoSegment)
      → segment_problems session_id artifacts duration_ns previous s ≡ []
      → (starts_with s.key (raw_prefix session_id) ≡ true)
        × IsBacked artifacts s.key s.sha256 s.size "video/mp4"
        × (precedes previous s.start_ns ≡ false)
        × (s.end_ns ≤ duration_ns)
  unfolding segment_problems
  segment-ok previous s h =
      let inside = append-eq-nil _ _ h in
      let backed = append-eq-nil _ _ inside.1 in
      let after = append-eq-nil _ _ backed.1 in
      let outside =
        problem_if-eq-nil (not (starts_with s.key (raw_prefix session_id))) _ inside.0 in
      let early = problem_if-eq-nil (precedes previous s.start_ns) _ after.0 in
      let late = problem_if-eq-nil (ltb duration_ns s.end_ns) _ after.1 in
      (
        ground arith,
        reference-IsBacked artifacts "video segment" s.key s.sha256 s.size "video/mp4"
            (registered s.key artifacts) backed.0,
        early,
        ground arith,
      )

  segment-no_problem :
      (previous : Option ℕ) (s : VideoSegment)
      → starts_with s.key (raw_prefix session_id) ≡ true
      → IsBacked artifacts s.key s.sha256 s.size "video/mp4"
      → precedes previous s.start_ns ≡ false
      → s.end_ns ≤ duration_ns
      → segment_problems session_id artifacts duration_ns previous s ≡ []
  unfolding segment_problems
  segment-no_problem previous s i b p e =
      let r =
        IsBacked-reference artifacts "video segment" s.key s.sha256 s.size "video/mp4"
          (registered s.key artifacts) b.0 b.1 b.2 b.3 b.4 in
      let inside : not (starts_with s.key (raw_prefix session_id)) ≡ false = ground arith in
      let late : ltb duration_ns s.end_ns ≡ false = ground arith in rw (inside, r, p, late) refl

  abbrev pub AreSegments : List VideoSegment → Type 0
  AreSegments ss =
      All (λ s. starts_with s.key (raw_prefix session_id) ≡ true) ss
      × All (λ s. IsBacked artifacts s.key s.sha256 s.size "video/mp4") ss
      × All (λ s. s.end_ns ≤ duration_ns) ss
      × IsChained (λ s. s.start_ns) (λ s. s.end_ns) ss

  pub segments-ok :
      (previous : Option ℕ) (ss : List VideoSegment)
      → all_segment_problems session_id artifacts duration_ns previous ss ≡ []
      → AreSegments ss
  unfolding all_segment_problems
  segments-ok previous [] h = (tt, tt, tt, tt)
  segments-ok previous (s ∷ []) h =
      let one = segment-ok previous s (append-eq-nil _ _ h).0 in
      ((one.0, tt), (one.1, tt), (one.3, tt), tt)
  segments-ok previous (s ∷ t ∷ ts) h =
      let split = append-eq-nil _ _ h in
      let one = segment-ok previous s split.0 in
      let two = segment-ok (some s.end_ns) t (append-eq-nil _ _ split.1).0 in
      let rest = segments-ok (some s.end_ns) (t ∷ ts) split.1 in
      ((one.0, rest.0), (one.1, rest.1), (one.3, rest.2), (ground (arith, two.2), rest.3))

  pub segments-no_problem :
      (previous : Option ℕ) (ss : List VideoSegment)
      → ((s : VideoSegment) (rest : List VideoSegment)
          → ss ≡ s ∷ rest
          → precedes previous s.start_ns ≡ false)
      → AreSegments ss
      → all_segment_problems session_id artifacts duration_ns previous ss ≡ []
  unfolding all_segment_problems
  segments-no_problem previous [] f h = refl
  segments-no_problem previous (s ∷ []) f h =
      rw (segment-no_problem previous s h.0.0 h.1.0 (f s [] refl) h.2.0) refl
  segments-no_problem previous (s ∷ t ∷ ts) f h =
      rw (segment-no_problem previous s h.0.0 h.1.0 (f s (t ∷ ts) refl) h.2.0) (
        segments-no_problem (some s.end_ns) (t ∷ ts) (λ u rest e. ground arith)
          (h.0.1, h.1.1, h.2.1, h.3.1))
