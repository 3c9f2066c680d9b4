-- ===== src/Worker/Validator/Accepted.antt =====
-- What the validator accepts (services/api/internal/worker/validator.go).
use data_trains.Base.{
  ◌≤◌, String, ◌≡◌, refl, arith, none, some, List, [], ◌∷◌, ◌++◌, All, eq_iff, Bool-cases,
  Option-cases, inl, inr,
}
use data_trains.Domain.Errors.{ok, Result-cases}
use data_trains.Domain.Model.{Artifact}
use data_trains.Worker.Actions.{Json}
use data_trains.Worker.CrossReferences.{ValidationDocument, registered, validate_cross_references}
use data_trains.Worker.CrossReferences.Consistent.{IsConsistent, append-eq-nil}
use data_trains.Worker.CrossReferences.Accepted.{validate_cross_references-IsConsistent}
use data_trains.Worker.Validator.{
  Seconds, Files, normalized, max_trajectory, normalize_document, find_mismatch, register_all,
  inspect_media, settle, check_document, check_bytes, trajectory_key, check_trajectory, validate,
}

module _ {B N : Type 0} (files : Files B N) (s : Seconds N) where
  find_mismatch-All :
      (artifacts : List Artifact)
      → find_mismatch files s artifacts ≡ ok none
      → All (λ a. files.stat a.key ≡ ok (a.size, a.sha256)) artifacts
  unfolding find_mismatch
  find_mismatch-All [] h = tt
  find_mismatch-All (a ∷ rest) h = elim (Result-cases (files.stat a.key)) [
    | inl ((size, sha256), e) ↦
        (ground (arith, eq_iff sha256 a.sha256), find_mismatch-All rest (ground arith))
    | inr (x, e) ↦ absurd (ground arith)
  ]

  settle-normalized :
      (generic : Json) (found : List String) (b : B)
      → settle files s generic found ≡ ok (normalized b)
      → (found ≡ []) × (files.marshal (normalize_document files.int64_of generic) ≡ ok b)
  unfolding settle
  settle-normalized generic [] b h =
      elim (Result-cases (files.marshal (normalize_document files.int64_of generic))) [
        | inl (c, e) ↦ (refl, ground arith)
        | inr (x, e) ↦ absurd (ground arith)
      ]
  settle-normalized generic (p ∷ ps) b h = absurd (ground arith)

  check_document-normalized :
      (session_id : String) (known : List Artifact) (generic : Json) (d : ValidationDocument)
      (b : B)
      → check_document files s session_id known generic d ≡ ok (normalized b)
      → IsConsistent session_id d known
        × (files.marshal (normalize_document files.int64_of generic) ≡ ok b)
  unfolding check_document
  check_document-normalized session_id known generic d b h =
      let found = validate_cross_references files.decimal session_id d known in
      let consistent =
        (validate_cross_references-IsConsistent files.decimal session_id d known).0 in
      elim (Bool-cases files.has_inspector) [
        | inl i ↦ elim (Result-cases (inspect_media files s known d.video_segments)) [
          | inl (media, e) ↦
              let a = settle-normalized generic (found ++ media) b (ground arith) in
              (consistent (append-eq-nil found media a.0).0, a.1)
          | inr (x, e) ↦ absurd (ground arith)
        ]
        | inr i ↦ let a = settle-normalized generic found b (ground arith) in (consistent a.0, a.1)
      ]

  -- What an accepted trajectory has passed.
  pub record Accepted (session_id : String) (artifacts : List Artifact) (b : B) : Type 0 where
    pub trajectory : Artifact
    pub raw : B
    pub generic : Json
    pub document : ValidationDocument
    pub stored : All (λ a. files.stat a.key ≡ ok (a.size, a.sha256)) artifacts
    pub present :
        registered (trajectory_key files s session_id) (register_all files s [] artifacts)
        ≡ some trajectory
    pub was_read : files.read trajectory.key ≡ ok raw
    pub bounded : files.byte_count raw ≤ max_trajectory
    pub decoded : files.decode raw ≡ ok generic
    pub valid : files.check_schema generic ≡ ok tt
    pub inspected : files.document raw ≡ ok document
    pub consistent : IsConsistent session_id document (register_all files s [] artifacts)
    pub output : files.marshal (normalize_document files.int64_of generic) ≡ ok b

  record Checked (session_id : String) (known : List Artifact) (raw b : B) : Type 0 where
    generic : Json
    document : ValidationDocument
    bounded : files.byte_count raw ≤ max_trajectory
    decoded : files.decode raw ≡ ok generic
    valid : files.check_schema generic ≡ ok tt
    inspected : files.document raw ≡ ok document
    consistent : IsConsistent session_id document known
    output : files.marshal (normalize_document files.int64_of generic) ≡ ok b

  check_bytes-Checked :
      (session_id : String) (known : List Artifact) (raw b : B)
      → check_bytes files s session_id known raw ≡ ok (normalized b)
      → Checked session_id known raw b
  unfolding check_bytes
  check_bytes-Checked session_id known raw b h = elim (Result-cases (files.decode raw)) [
    | inr (x, e) ↦ absurd (ground arith)
    | inl (generic, e) ↦ elim (Result-cases (files.at_end raw)) [
      | inr (x, f) ↦ absurd (ground arith)
      | inl (u, f) ↦ elim (Result-cases (files.check_schema generic)) [
        | inr (x, g) ↦ absurd (ground arith)
        | inl (v, g) ↦ elim (Result-cases (files.document raw)) [
          | inr (x, k) ↦ absurd (ground arith)
          | inl (d, k) ↦
              let a = check_document-normalized session_id known generic d b (ground arith) in
              record {
                generic = generic;
                document = d;
                bounded = ground arith;
                decoded = e;
                valid = g;
                inspected = k;
                consistent = a.0;
                output = a.1;
              }
        ]
      ]
    ]
  ]

  check_trajectory-Accepted :
      (session_id : String) (artifacts : List Artifact) (b : B)
      → All (λ a. files.stat a.key ≡ ok (a.size, a.sha256)) artifacts
      → check_trajectory files s session_id (register_all files s [] artifacts) ≡ ok (normalized b)
      → Accepted session_id artifacts b
  unfolding check_trajectory
  check_trajectory-Accepted session_id artifacts b stored h =
      let known = register_all files s [] artifacts in
      elim (Option-cases (registered (trajectory_key files s session_id) known)) [
        | inl none_found ↦ absurd (ground arith)
        | inr (a, e) ↦ elim (Result-cases (files.read a.key)) [
          | inr (x, f) ↦ absurd (ground arith)
          | inl (raw, f) ↦
              let c = check_bytes-Checked session_id known raw b (ground arith) in
              record {
                trajectory = a;
                raw = raw;
                generic = c.generic;
                document = c.document;
                stored = stored;
                present = e;
                was_read = f;
                bounded = c.bounded;
                decoded = c.decoded;
                valid = c.valid;
                inspected = c.inspected;
                consistent = c.consistent;
                output = c.output;
              }
        ]
      ]

  -- If `Validate` gives normalized bytes, then: the store holds every artifact with the size and
  -- digest of its row; the trajectory of the session is among the artifacts, was read, is at most
  -- 32 MiB long, decodes, and passes the schema; its document agrees with the session and the
  -- artifacts; and the bytes are the encoding of the decoded value with its actions normalized.
  pub validate-Accepted :
      (session_id : String) (artifacts : List Artifact) (b : B)
      → validate files s session_id artifacts ≡ ok (normalized b)
      → Accepted session_id artifacts b
  unfolding validate
  validate-Accepted session_id artifacts b h =
      elim (Result-cases (find_mismatch files s artifacts)) [
        | inr (x, e) ↦ absurd (ground arith)
        | inl (m, e) ↦ elim (Option-cases m) [
          | inr (text, f) ↦ absurd (ground arith)
          | inl f ↦
              check_trajectory-Accepted session_id artifacts b
                (find_mismatch-All artifacts (ground arith)) (ground arith)
        ]
      ]
