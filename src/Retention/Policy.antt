-- ===== src/Retention/Policy.antt =====
-- Retention policies (services/api/internal/database/retention.go).
use data_trains.Base.{
  ℕ, String, Bool, not, ◌&&◌, ◌||◌, ◌==◌, ltb, Option, [], ◌∷◌, ◌+++◌, if◌then◌else◌,
}
use data_trains.Domain.Errors.{
  constraint, not_found, invalid_retention_policy, retention_purge_in_progress,
}
use data_trains.Domain.Model.{Time, is_leased, number}
use data_trains.Table.{find, exists, insert, update_where}
use data_trains.Db.{
  Db, Tx, RetentionPolicy, pure, ◌>>=◌, ◌>>◌, fail_if, fetch, row, write, insert_audit, no_rows,
}
use data_trains.Store.Catalog.{event}

abbrev pub find_policy : String → Db → Option RetentionPolicy
find_policy organization_id db = find (λ q. q.organization_id == organization_id) db.policies

-- `GetRetentionPolicy`
unfoldable pub get_retention_policy : String → Tx RetentionPolicy
get_retention_policy organization_id = row (find_policy organization_id) not_found

-- A number of days that the code refuses; 0 stands for every number that is not positive.
unfoldable pub is_refused_period : ℕ → Bool
is_refused_period days = ltb days 1 || ltb 3650 days

-- ON CONFLICT (organization_id) DO UPDATE: `created_at` stays.
abbrev pub replace_policy : RetentionPolicy → RetentionPolicy → RetentionPolicy
replace_policy given old = record given { created_at = old.created_at }

-- INSERT … ON CONFLICT (organization_id) DO UPDATE
unfoldable pub upsert_policy : RetentionPolicy → Db → Db
upsert_policy p db = record db {
  policies =
      if exists (λ q. q.organization_id == p.organization_id) db.policies
      then update_where (λ q. q.organization_id == p.organization_id) (replace_policy p) db.policies
      else insert p db.policies;
}

-- `UpsertRetentionPolicy`; what the database returns is the row's `created_at`.
unfoldable pub upsert_retention_policy :
    RetentionPolicy → String → String → Time → Tx RetentionPolicy
unfolding is_refused_period upsert_policy insert_audit
upsert_retention_policy given actor request_id now = do
  fail_if
      (given.organization_id == ""
        || is_refused_period given.raw_days
        || is_refused_period given.derived_days
        || is_refused_period given.release_days)
      invalid_retention_policy
  purging ← fetch (λ db.
      exists (λ q. q.organization_id == given.organization_id && is_leased q.state) db.purges)
  fail_if purging retention_purge_in_progress
  known ← fetch (λ db. exists (λ o. o.id == given.organization_id) db.organizations)
  fail_if (not known) (constraint "retention_policies_organization_id_fkey")
  write (upsert_policy (record given { updated_by = actor; created_at = now; updated_at = now }))
  saved ← row (find_policy given.organization_id) no_rows
  insert_audit (
      event actor "retention_policy.updated" ("organization/" +++ given.organization_id) now
        request_id
        (("raw_days", number given.raw_days)
          ∷ ("derived_days", number given.derived_days)
          ∷ ("release_days", number given.release_days)
          ∷ []))
  pure (record given { updated_by = actor; created_at = saved.created_at; updated_at = now })
