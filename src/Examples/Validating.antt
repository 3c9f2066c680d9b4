-- ===== src/Examples/Validating.antt =====
-- The theorems on `Validate` at a concrete session.
use data_trains.Base.{
  ◌+++◌, sort_by, false, ℕ, ◌-◌, String, ◌≡◌, refl, true, pos, none, List, [], ◌∷◌, ◌+◌,
  if◌then◌else◌, ltb, arith,
}
use data_trains.Domain.Errors.{ok}
use data_trains.Domain.Model.{Artifact}
use data_trains.Worker.Actions.{Json, object, array, no_element, no_member, member}
use data_trains.Worker.CrossReferences.{
  VideoSegment, ValidationDocument, registered, validate_cross_references,
}
use data_trains.Worker.CrossReferences.Consistent.{IsConsistent}
use data_trains.Worker.Validator.{
  Seconds, Files, find_mismatch, register_all, inspect_segment, inspect_media, settle,
  check_document, check_bytes, check_trajectory, validate,
}
use data_trains.Worker.Validator.Accepted.{Accepted, validate-Accepted}
use data_trains.Worker.Validator.Backward.{check_document-backward}
use data_trains.Domain.State.{SessionState-discrete, submitted, allowed_transition}
use data_trains.Domain.Model.{ProcessingJob, is_queued, is_leased}
use data_trains.Table.{select, find, first_by, exists, update_where}
use data_trains.Db.{Db, after}
use data_trains.Pipeline.Artifacts.{list_artifacts}
use data_trains.Pipeline.Jobs.{new_job}
use data_trains.Pipeline.Lease.{claim_validation_job, claimable}
use data_trains.Pipeline.Outcome.{complete_validation_job}
use data_trains.Worker.Purging.{Processor}
use data_trains.Worker.Turn.{
  Storage, Stored, Turn, no_job, ended, process_validation, validate_claimed, write_derived,
  write_actions, actions_jsonl, complete_validation,
}
use data_trains.Worker.Turn.Reviewable.{Settlement, process_validation-Settlement}
use data_trains.Examples.Data.{artifact, video_key, db_at, collate}

-- Whole seconds.
abbrev seconds : Seconds ℕ
seconds = record {
  of_ns = λ n. n;
  two = 2;
  tenth = λ n. n;
  larger = λ m n. if ltb m n then n else m;
  distance = λ m n. (m - n) + (n - m);
  lt = ltb;
  three_digits = λ n. "1";
}

abbrev video_from_to : ℕ → ℕ → VideoSegment
video_from_to start end = record {
  key = video_key;
  start_ns = start;
  end_ns = end;
  sha256 = "00";
  size = 1;
  segment_id = "seg-1";
}

abbrev one_video : VideoSegment → ValidationDocument
one_video v = record {
  schema_version = "trajectory/v1";
  duration_ns = 1000;
  video_segments = v ∷ [];
  actions = record { timestamp_ns = 20 } ∷ [];
  output_artifacts = [];
  clipboard_captured = false;
  recording_visible = true;
  session_id = "s1";
}

abbrev generic : Json
generic = object (member "actions" (array no_element) no_member)

-- Every object is one byte with the digest 00, and every video lasts 900.
abbrev files : Files String ℕ
files = record {
  stat = λ key. ok (1, "00");
  read = λ key. ok "{}";
  byte_count = λ b. 2;
  decode = λ b. ok generic;
  at_end = λ b. ok tt;
  check_schema = λ v. ok tt;
  document = λ b. ok (one_video (video_from_to 0 900));
  marshal = λ v. ok "{}";
  has_inspector = true;
  open_video = λ key. none;
  inspect = λ key. ok 900;
  close_video = λ key. none;
  error_text = λ e. "error";
  decimal = λ n. "1";
  int64_of = λ t. pos 1;
}

abbrev stored_video : Artifact
stored_video = artifact "f2" video_key "video/mp4"

abbrev artifacts : List Artifact
artifacts = artifact "f1" "raw/sessions/s1/trajectory.json" "application/json" ∷ stored_video ∷ []

validate-Accepted_example : Accepted files seconds "s1" artifacts "{}"
unfolding validate find_mismatch register_all check_trajectory check_bytes check_document
    inspect_media inspect_segment settle validate_cross_references
validate-Accepted_example = validate-Accepted files seconds "s1" artifacts "{}" refl

backward-IsConsistent : IsConsistent "s1" (one_video (video_from_to 900 1)) artifacts
unfolding registered
backward-IsConsistent = record {
  version = refl;
  provenance = refl;
  segments_inside = (refl, tt);
  segments_backed = ((stored_video, refl, refl, refl, refl), tt);
  segments_bounded = (omega arith, tt);
  segments_ordered = tt;
  actions_bounded = (omega arith, tt);
  actions_ordered = tt;
  outputs_inside = tt;
  outputs_backed = tt;
  no_clipboard = refl;
  visible = refl;
}

-- It ends 899 ns before it starts.
check_document-backward_example :
    check_document files seconds "s1" artifacts generic (one_video (video_from_to 900 1))
    ≡ settle files seconds generic []
check_document-backward_example =
    check_document-backward files seconds "s1" artifacts generic (one_video (video_from_to 900 1))
      backward-IsConsistent (omega arith, tt)

-- Nothing fails, and a trajectory has no actions.
abbrev storage : Storage String
storage = record {
  put_error = λ key bytes. none;
  raw_actions = λ bytes. ok [];
  no_bytes = "";
  newline = "|";
  join = λ a b. a +++ b;
  collate = collate;
  result_id = "v1";
}

abbrev processor : Processor
processor = record { lease = 100; max_attempts = 3; retention_sweep_interval = 900 }

-- The session is submitted, with its job.
abbrev waiting : Stored String
waiting = record { db = record (db_at submitted) { jobs = new_job "j1" "s1" 2 ∷ [] }; written = [] }

abbrev stored_after : Turn String → Stored String
stored_after no_job = waiting
stored_after (ended handled w failure) = w

abbrev validated : Stored String
validated = stored_after (process_validation files seconds storage processor "w1" 10 20 waiting)

process_validation-Settlement_example :
    (job : ProcessingJob) × (db : Db) × (claim_validation_job collate "w1" 100 10 waiting.db
      ≡ ok (job, db))
    × Settlement files seconds storage "w1" 20 job (record waiting { db = db }) validated
unfolding process_validation validate_claimed write_derived write_actions actions_jsonl
    complete_validation list_artifacts sort_by select claim_validation_job complete_validation_job
    find first_by exists after update_where SessionState-discrete allowed_transition claimable
    is_queued is_leased validate find_mismatch register_all check_trajectory check_bytes
    check_document inspect_media inspect_segment settle validate_cross_references
process_validation-Settlement_example =
    process_validation-Settlement files seconds storage processor "w1" 10 20 waiting validated refl
