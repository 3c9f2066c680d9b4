-- ===== src/Examples/Retaining.antt =====
-- The theorems on retention at a concrete session whose raw data has expired.
use data_trains.Base.{
  ℕ, String, none, some, [], ◌∷◌, ◌++◌, ◌+◌, ◌≡◌, ◌≤◌, ◌<◌, refl, zero, suc, char_length, eq_iff,
  ap, inl, inr, Bool-cases, sort_by, arith, true, false, ◌==◌, length, All, List,
}
use data_trains.Domain.State.{accepted}
use data_trains.Domain.Model.{LegalHold, is_queued, is_leased, queued, leased}
use data_trains.Table.{find, exists, update_where}
use data_trains.Db.{Db, RetentionPolicy, RetentionPurge, after, session_raw}
use data_trains.Store.Joins.{placement}
use data_trains.Pipeline.Outcome.{owner}
use data_trains.Erasure.Holds.{holds_session, is_blocked}
use data_trains.Erasure.Requests.{is_unpurged, distinct}
use data_trains.Retention.Expiry.{
  has_aged, raw_state, derived_state, policy_of, is_resource_held, is_completed,
}
use data_trains.Retention.Sweep.{
  queue_expired_retention, candidates, collect, raw_candidate, derived_candidate, raw_expired,
  derived_expired, is_purged_already, is_about, is_active, conflicts, type_eq, queue_candidates,
  queue_candidate,
}
use data_trains.Retention.Sweep.Queued.{queue_expired_retention-ok, IsQueued, IsUntouched}
use data_trains.Retention.Sweep.Covered.{queue_expired_retention-IsCovered, IsCovered}
use data_trains.Retention.Worker.{
  claim_retention_purge, complete_retention_purge, find_purge, complete_purge,
}
use data_trains.Retention.Worker.Completed.{complete_retention_purge-ok, IsPurged}
use data_trains.Examples.Data.{db_at, collate, video_key}

abbrev pub policy : RetentionPolicy
policy = record {
  organization_id = "o1";
  raw_days = 1;
  derived_days = 1;
  release_days = 1;
  updated_by = "admin";
  created_at = 1;
  updated_at = 1;
}

-- An accepted session, two days after its last change.
abbrev old_db : Db
old_db = record (db_at accepted) { policies = policy ∷ [] }

abbrev pub today : ℕ
today = 172800000000000

-- The identifiers "q", "qq", "qqq", …

-- The identifiers "q", "qq", "qqq", …
ids : ℕ → String
ids zero = "q"
ids (suc n) = String.◌∷◌ "q" (ids n)

char_length-ids : (n : ℕ) → char_length (ids n) ≡ suc n
unfolding ids char_length
char_length-ids zero = refl
char_length-ids (suc n) = omega (arith, char_length-ids n)

ids-ne : (i j : ℕ) → i < j → (ids i == ids j) ≡ false
ids-ne i j h = elim (Bool-cases (ids i == ids j)) [
  | inl e ↦ absurd (
      omega (
        arith,
        ap char_length ((eq_iff (ids i) (ids j)).0 e),
        char_length-ids i,
        char_length-ids j,
      ))
  | inr e ↦ e
]

abbrev swept_db : Db
swept_db = after (queue_expired_retention collate ids "w1" today 100) old_db

queue_expired_retention-ok_example :
    (added : List RetentionPurge) × (swept_db.purges ≡ old_db.purges ++ added)
    × (length added ≡ 1)
    × (1 ≤ 100)
    × (100 ≤ 1000)
    × All (IsQueued old_db today) added
    × IsUntouched old_db swept_db
unfolding queue_expired_retention candidates collect raw_candidate derived_candidate raw_expired
    derived_expired is_purged_already is_about is_active is_blocked is_completed conflicts type_eq
    queue_candidates queue_candidate policy_of placement find exists after holds_session raw_state
    derived_state has_aged is_unpurged distinct ids is_queued sort_by
queue_expired_retention-ok_example =
    queue_expired_retention-ok collate ids "w1" today 100 old_db swept_db 1 refl

queue_expired_retention-IsCovered_example :
    All (IsCovered swept_db) (candidates collate old_db today 100)
unfolding queue_expired_retention candidates collect raw_candidate derived_candidate raw_expired
    derived_expired is_purged_already is_about is_active is_blocked is_completed conflicts type_eq
    queue_candidates queue_candidate policy_of placement find exists after holds_session raw_state
    derived_state has_aged is_unpurged distinct ids is_queued sort_by
queue_expired_retention-IsCovered_example =
    queue_expired_retention-IsCovered "w1" today collate ids 100 old_db swept_db 1 ids-ne
      (λ i. refl) refl

abbrev pub purge : RetentionPurge
purge = record {
  id = "q";
  organization_id = "o1";
  resource_type = session_raw;
  resource_id = "s1";
  object_keys = video_key ∷ [];
  state = queued;
  attempt = 0;
  policy_updated_at = 1;
  available_at = 10;
  requested_at = 10;
  leased_by = none;
  lease_expires_at = none;
  completed_at = none;
  last_error = none;
}

abbrev other_purge : RetentionPurge
other_purge = record purge { id = "r"; resource_id = "s2"; available_at = 20 }

abbrev two_db : Db
two_db = record old_db { purges = purge ∷ other_purge ∷ [] }

abbrev first_db : Db
first_db = after (claim_retention_purge collate "w1" 100 today) two_db

abbrev second_db : Db
second_db = after (claim_retention_purge collate "w2" 100 today) first_db

abbrev pub leased_purge : RetentionPurge
leased_purge = record purge {
  state = leased;
  attempt = 1;
  leased_by = some "w1";
  lease_expires_at = some (today + 100);
}

abbrev purging_db : Db
purging_db = record old_db { purges = leased_purge ∷ [] }

abbrev purged_db : Db
purged_db = after (complete_retention_purge "q" "w1" 50) purging_db

complete_retention_purge-ok_example :
    (q : RetentionPurge) × (find_purge "q" purging_db ≡ some q)
    × (is_leased q.state ≡ true)
    × ((owner q.leased_by == "w1") ≡ true)
    × (is_resource_held q.resource_type q.resource_id purging_db ≡ false)
    × IsPurged q.resource_type q.resource_id purged_db
    × (purged_db.purges ≡ update_where (λ r. r.id == "q") (complete_purge 50) purging_db.purges)
    × (purged_db.sessions ≡ purging_db.sessions)
    × (purged_db.holds ≡ purging_db.holds)
unfolding complete_retention_purge find exists after is_leased is_resource_held holds_session
complete_retention_purge-ok_example =
    complete_retention_purge-ok "q" "w1" 50 purging_db purged_db refl

abbrev hold : LegalHold
hold = record {
  id = "h1";
  organization_id = "o1";
  session_id = "s1";
  reason = "dispute";
  placed_by = "admin";
  placed_at = 10;
  released_by = none;
  released_at = none;
}

abbrev held_db : Db
held_db = record purging_db { holds = hold ∷ [] }
