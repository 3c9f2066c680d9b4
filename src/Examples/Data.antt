-- ===== src/Examples/Data.antt =====
-- A small database: one organization with a project, a task, a contributor and a session.
use data_trains.Base.{pos, Bool, ℕ, String, none, some, [], ◌∷◌, text_before, false, ltb, leb, ◌+◌}
use data_trains.Domain.State.{SessionState}
use data_trains.Domain.Model.{ConsentDocument, Artifact}
use data_trains.Domain.Errors.{ok}
use data_trains.Db.{Db, SessionRow}
use data_trains.Redaction.Document.{Floats, RedactionDocument, RedactionSegment}
use data_trains.Redaction.Plans.{Encoding}

abbrev pub collate : String → String → Bool
collate = text_before

-- Whole numbers of hundredths, none of them infinite.
abbrev pub hundredths : Floats ℕ
hundredths = record {
  is_nan = λ _. false;
  is_inf = λ _. false;
  lt = λ a b. ltb a b;
  le = λ a b. leb a b;
  add = λ a b. a + b;
  zero = 0;
  one = 100;
}

abbrev pub session_row : SessionState → SessionRow
session_row at = record {
  id = "s1";
  assignment_id = "a1";
  consent_acceptance_id = some "k1";
  state = at;
  rework_of_session_id = none;
  created_at = 1;
  updated_at = 1;
}

abbrev pub document : ConsentDocument
document = record { id = "d1"; version = "v1"; text_hash = "h"; body = "terms"; effective_date = 1 }

abbrev pub artifact : String → String → String → Artifact
artifact id key media_type = record {
  id = id;
  session_id = "s1";
  key = key;
  sha256 = "00";
  size = 1;
  media_type = media_type;
  purged_at = none;
}

abbrev pub video_key : String
video_key = "raw/sessions/s1/video/1.mp4"

-- The session is in the state `at`; its trajectory, a video and its events are registered.
abbrev pub db_at : SessionState → Db
db_at at = record {
  organizations = record { id = "o1"; name = "org" } ∷ [];
  contributors = record { id = "c1"; display_name = "Ada" } ∷ [];
  projects =
      record { id = "p1"; organization_id = "o1"; name = "project"; target_trajectories = 5 } ∷ [];
  templates =
      record {
        id = "tt1";
        project_id = "p1";
        name = "template";
        goal = "goal";
        category = "web";
        difficulty = "beginner";
      }
      ∷ [];
  tasks = record { id = "t1"; template_id = "tt1"; goal = "goal" } ∷ [];
  assignments = record { id = "a1"; task_id = "t1"; contributor_id = "c1"; created_at = 1 } ∷ [];
  sessions = session_row at ∷ [];
  consent_documents = document ∷ [];
  consent_acceptances = [];
  artifacts =
      artifact "f1" "raw/sessions/s1/trajectory.json" "application/json"
      ∷ artifact "f2" video_key "video/mp4"
      ∷ artifact "f3" "raw/sessions/s1/events.ndjson" "application/x-ndjson"
      ∷ [];
  uploads = [];
  parts = [];
  jobs = [];
  results = [];
  claims = [];
  reviews = [];
  plans = [];
  redaction_jobs = [];
  holds = [];
  deletions = [];
  releases = [];
  release_sessions = [];
  policies = [];
  purges = [];
  audit = [];
}

-- A plan to redact the session's video.
abbrev pub segment : RedactionSegment ℕ
segment = record {
  segment_id = "seg-1";
  source_key = video_key;
  decision = "redact";
  regions =
      record {
        start_ns = pos 0;
        end_ns = pos 5;
        x = 10;
        y = 10;
        width = 20;
        height = 20;
        kind = "credential";
      }
      ∷ [];
}

abbrev pub redactions : RedactionDocument ℕ
redactions = record { schema_version = "redaction/v1"; segments = segment ∷ [] }

-- An encoding that keeps the schema alone and decodes every text as these redactions, and a digest
-- that keeps the text.
abbrev pub plain : Encoding ℕ
plain = record { marshal = λ d. d.schema_version; unmarshal = λ t. ok redactions; sha256 = λ t. t }
