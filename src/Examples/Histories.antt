-- ===== src/Examples/Histories.antt =====
-- The theorem on histories of calls at a concrete one.
use data_trains.Base.{ℕ, some, none, ◌≡◌, refl, List, [], ◌∷◌, true}
use data_trains.Domain.State.{
  accepted, SessionState-discrete, allowed_transition, ready, recording, created,
}
use data_trains.Db.{Db, SessionRow, after}
use data_trains.Table.{find, exists, update_where}
use data_trains.Store.Catalog.{assign_task}
use data_trains.Store.Sessions.{accept_consent, transition_session}
use data_trains.System.Consented.{IsConsented}
use data_trains.System.Calls.{
  request_deletion, claim_deletion, complete_deletion, Call, run, run_all, assign, accept, move,
}
use data_trains.System.Calls.Always.{run_all-IsConsented}
use data_trains.Domain.Model.{LegalHold}
use data_trains.Erasure.Holds.{holds_session}
use data_trains.System.Calls.Guarded.{IsGuarded}
use data_trains.System.Calls.Held.{run_all-IsGuarded, spares}
use data_trains.Examples.Data.{db_at, collate, hundredths, plain}

-- The task is assigned, its consent is accepted, and the session is prepared and recorded.
abbrev history : List (Call ℕ)
history =
    assign "t1" "c1" "a2" "s2" "admin" "r1" 10
    ∷ accept "s2" "c1" "d1" "1.0" "k2" "c1" "r2" 20
    ∷ move "s2" ready "c1" "r3" 30
    ∷ move "s2" recording "c1" "r4" 40
    ∷ []

abbrev start_db : Db
start_db = record (db_at created) { sessions = []; assignments = [] }

run_all-IsConsented_example :
    IsConsented (run_all hundredths plain collate (λ _. true) history start_db).sessions
run_all-IsConsented_example =
    run_all-IsConsented hundredths plain collate (λ _. true) history start_db (tt, tt)

abbrev recorded : SessionRow
recorded = record {
  id = "s2";
  assignment_id = "a2";
  consent_acceptance_id = some "k2";
  state = recording;
  rework_of_session_id = none;
  created_at = 10;
  updated_at = 40;
}

-- The history ends with the session recording.
history_records :
    (run_all hundredths plain collate (λ _. true) history start_db).sessions ≡ recorded ∷ []
unfolding run_all run assign_task accept_consent transition_session find exists update_where after
    SessionState-discrete allowed_transition
history_records = refl

abbrev hold : LegalHold
hold = record {
  id = "h1";
  organization_id = "o1";
  session_id = "s1";
  reason = "dispute";
  placed_by = "admin";
  placed_at = 10;
  released_by = none;
  released_at = none;
}

abbrev held_db : Db
held_db = record (db_at accepted) { holds = hold ∷ [] }

-- Attempts to erase the held session.
abbrev attempts : List (Call ℕ)
attempts =
    request_deletion "s1" "left the study" "e1" "admin" "r1" 20
    ∷ claim_deletion "w1" 100 30
    ∷ complete_deletion "e1" "w1" 40
    ∷ []

run_all-IsGuarded_example :
    IsGuarded "s1" held_db (run_all hundredths plain collate (λ _. true) attempts held_db)
unfolding exists holds_session spares
run_all-IsGuarded_example =
    run_all-IsGuarded hundredths plain collate (λ _. true) "s1" attempts held_db
      (refl, (refl, (refl, tt))) refl
