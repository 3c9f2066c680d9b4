-- ===== src/Examples/Working.antt =====
-- The theorems on the worker at concrete trajectories and queues.
use data_trains.Base.{
  ℕ, ℤ, pos, String, none, some, [], ◌∷◌, ◌++◌, ◌≡◌, ◌≢◌, ◌<◌, ◌↔◌, ◌⊎◌, ◌^◌, refl, arith, true,
  false, ◌==◌, List, if◌then◌else◌, ◌+◌,
}
use data_trains.Domain.State.{accepted, released}
use data_trains.Domain.Model.{is_leased, is_queued, cancelled}
use data_trains.Table.{find, first_by, update_where}
use data_trains.Db.{RetentionPurge, after}
use data_trains.Store.Joins.{placement}
use data_trains.Erasure.Requests.{request_session_deletion}
use data_trains.Retention.Expiry.{policy_of, raw_state, has_aged}
use data_trains.Retention.Worker.{purge_claimable, is_still_eligible, end_purge}
use data_trains.Worker.CrossReferences.{ValidationDocument, validate_cross_references}
use data_trains.Worker.CrossReferences.Consistent.{IsConsistent}
use data_trains.Worker.CrossReferences.Accepted.{validate_cross_references-IsConsistent}
use data_trains.Worker.Actions.{Json, text, number, object, no_member, member, normalize_actions}
use data_trains.Worker.Actions.Kept.{events, normalize_actions-events}
use data_trains.Worker.Actions.Spaced.{move_times, IsSpaced, normalize_actions-IsSpaced}
use data_trains.Worker.Purging.{Processor, Outside, World, process_deletion, process_retention}
use data_trains.Worker.Purging.Spared.{Erasure, process_deletion-Erasure}
use data_trains.Worker.Purging.Stale.{process_retention-stale}
use data_trains.Examples.Data.{db_at, session_row, collate, artifact, video_key}
use data_trains.Examples.Retaining.{policy, leased_purge, today}

abbrev decimal : ℕ → String
decimal n = "1"

-- One video and two actions, of which the second is too early.
abbrev trajectory : ValidationDocument
trajectory = record {
  schema_version = "trajectory/v1";
  duration_ns = 1000;
  video_segments =
      record {
        key = video_key;
        start_ns = 0;
        end_ns = 900;
        sha256 = "00";
        size = 1;
        segment_id = "seg-1";
      }
      ∷ [];
  actions = record { timestamp_ns = 20 } ∷ record { timestamp_ns = 10 } ∷ [];
  output_artifacts = [];
  clipboard_captured = false;
  recording_visible = true;
  session_id = "s1";
}

validate_cross_references-IsConsistent_example :
    (validate_cross_references decimal "s1" trajectory (artifact "f2" video_key "video/mp4" ∷ [])
      ≡ [])
    ↔ IsConsistent "s1" trajectory (artifact "f2" video_key "video/mp4" ∷ [])
validate_cross_references-IsConsistent_example =
    validate_cross_references-IsConsistent decimal "s1" trajectory
      (artifact "f2" video_key "video/mp4" ∷ [])

-- Numbers that are read: 200 ms, and 10 ns otherwise.
abbrev read : String → ℕ
read s = if s == "200000000" then 200000000 else 10

abbrev int64_of : String → ℤ
int64_of s = pos (read s)

int64_of-lt : (s : String) (n : ℕ) → int64_of s ≡ pos n → n < 2 ^ 63
int64_of-lt s n e = ground arith

abbrev event : String → String → Json
event kind time = object (
    member "type" (text kind)
      (member "timestamp_ns" (number time) (member "button" (text "left") no_member)))

-- Three movements, a key and a click.
abbrev actions : List Json
actions =
    event "mouse_move" "10"
    ∷ event "mouse_move" "11"
    ∷ event "key_down" "12"
    ∷ event "mouse_move" "200000000"
    ∷ event "mouse_down" "200000000"
    ∷ event "mouse_up" "200000000"
    ∷ []

normalize_actions-events_example : events (normalize_actions int64_of actions) ≡ events actions
normalize_actions-events_example = normalize_actions-events int64_of actions

normalize_actions-IsSpaced_example :
    IsSpaced 0 (move_times int64_of (normalize_actions int64_of actions))
normalize_actions-IsSpaced_example = normalize_actions-IsSpaced int64_of int64_of-lt actions

abbrev processor : Processor
processor = record { lease = 100; max_attempts = 3; retention_sweep_interval = 900 }

-- Every object can be purged.
abbrev outside : Outside
outside = record {
  purge_error = λ k. none;
  error_text = λ e. "error";
  collate = collate;
  new_id = λ n. "q";
}

-- A deletion waits.
abbrev waiting : World
waiting = record {
  db =
      after (request_session_deletion collate "s1" "left the study" "e1" "admin" "r3" 30)
        (db_at accepted);
  gone = [];
  next_retention_sweep = 0;
}

process_deletion-Erasure_example :
    ((process_deletion processor outside "w1" 40 50 waiting).world.gone ≡ waiting.gone)
    ⊎ Erasure processor outside "w1" 40 50 waiting
        (process_deletion processor outside "w1" 40 50 waiting)
process_deletion-Erasure_example = process_deletion-Erasure processor outside "w1" 40 50 waiting

-- The lease has run out, and the session has been released today.
abbrev stale_purge : RetentionPurge
stale_purge = record leased_purge { lease_expires_at = some 100 }

abbrev stale : World
stale = record {
  db = record (db_at released) {
    sessions = record (session_row released) { updated_at = today } ∷ [];
    policies = policy ∷ [];
    purges = stale_purge ∷ [];
  };
  gone = [];
  next_retention_sweep = today + 1;
}

process_retention-stale_example :
    ((process_retention processor outside "w1" today today stale).world.gone
      ≡ [] ++ (video_key ∷ []))
    × ((process_retention processor outside "w1" today today stale).world.db.purges
        ≡ update_where
            (λ s. s.id == "q")
            (end_purge cancelled "retention policy or eligibility changed")
            stale.db.purges)
    × ((process_retention processor outside "w1" today today stale).world.db.artifacts
        ≡ stale.db.artifacts)
    × ((process_retention processor outside "w1" today today stale).failure ≢ none)
unfolding find first_by purge_claimable is_leased is_queued is_still_eligible policy_of placement
    raw_state has_aged
process_retention-stale_example =
    process_retention-stale processor outside "w1" today today stale stale_purge policy
      (omega arith) (omega arith) refl refl refl refl refl (λ k. refl)
