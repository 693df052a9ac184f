-- ===== src/Backups/Policies.antt =====
-- Backup policies and the backups that are due or expired: internal/repository/database_backups.go.
use host_forge.Base.{
  ℕ, String, Option, none, some, List, [], ◌∷◌, ◌++◌, map, take, Bool, not, ◌&&◌, ◌||◌, ◌==◌,
  if◌then◌else◌, leb, exists_where,
}
use host_forge.Base.Int.{ℤ, pos, negsuc}
use host_forge.Base.Text.{trim_space, lex_lt, codes}
use host_forge.Sql.{
  update_where, find_where, filter_rows, order_by, Result, ok, err, no_rows, invalid_input,
  not_found, guard, require, ◌>>=◌, ◌>>◌,
}
use host_forge.Sql.Keys.{has_key}
use host_forge.Clock.{Time, Stamp, empty, whole_second, stamp_lt, stamp_le}
use host_forge.Backups.Rows.{
  DatabaseBackup, DatabaseBackupPolicy, DatabaseInstance, DatabaseRestoreJob, BackupDb,
  backup_stored, policy_id_of, is_empty,
}
use host_forge.Backups.Destinations.{get_backup_destination}
use host_forge.Backups.Records.{clamp_limit, refers_to}

-- ErrDatabaseInstanceNotFound is not_found.
unfoldable pub get_database_instance : String → BackupDb → Result DatabaseInstance
get_database_instance id db =
    require not_found (find_where (λ i. i.id == trim_space id) db.instances)

unfoldable pub get_database_backup_policy : String → BackupDb → Result DatabaseBackupPolicy
get_database_backup_policy instance_id db =
    require no_rows (find_where (has_key policy_id_of (trim_space instance_id)) db.policies)

-- retentionDays < 1 || retentionDays > 3650
unfoldable pub check_retention : ℤ → Result ℕ
check_retention (negsuc n) = err invalid_input
check_retention (pos n) = if leb 1 n && leb n 3650 then ok n else err invalid_input

-- `formatOptionalTime`: none is the zero time.
unfoldable pub format_optional_time : Option Time → Stamp
format_optional_time none = empty
format_optional_time (some t) = whole_second t

unfoldable pub upsert_policy :
    DatabaseBackupPolicy → List DatabaseBackupPolicy → List DatabaseBackupPolicy
upsert_policy p ps =
    if exists_where (has_key policy_id_of p.database_instance_id) ps
    then update_where (has_key policy_id_of p.database_instance_id)
        (λ q. record q {
          destination_id = p.destination_id;
          enabled = p.enabled;
          schedule = p.schedule;
          timezone = p.timezone;
          retention_days = p.retention_days;
          next_scheduled_at = p.next_scheduled_at;
          updated_at = p.updated_at;
        })
        ps
    else ps ++ (p ∷ [])

unfoldable pub new_policy :
    String → String → Bool → String → String → ℕ → Option Time → Time → DatabaseBackupPolicy
new_policy instance_id destination_id enabled schedule timezone retention next now = record {
  database_instance_id = trim_space instance_id;
  destination_id = trim_space destination_id;
  enabled = enabled;
  schedule = trim_space schedule;
  timezone = trim_space timezone;
  retention_days = retention;
  last_scheduled_at = empty;
  next_scheduled_at = format_optional_time next;
  created_at = whole_second now;
  updated_at = whole_second now;
}

unfoldable pub upsert_database_backup_policy :
    String
    → String
    → Bool
    → String
    → String
    → ℤ
    → Option Time
    → Time
    → BackupDb
    → Result (Result DatabaseBackupPolicy × BackupDb)
upsert_database_backup_policy instance_id destination_id enabled schedule timezone days next now
      db =
    do
      instance' ← get_database_instance instance_id db
      destination ← get_backup_destination destination_id db
      guard (not ((trim_space schedule == "") || (trim_space timezone == ""))) invalid_input
      retention ← check_retention days
      let db' = record db {
        policies =
            upsert_policy
              (new_policy instance_id destination_id enabled schedule timezone retention next now)
              db.policies;
      }
      ok (get_database_backup_policy instance_id db', db')

-- next_scheduled_at<>'' AND next_scheduled_at<=?
unfoldable pub is_reached : Time → Stamp → Bool
is_reached now stamp = not (is_empty stamp) && stamp_le stamp (whole_second now)

unfoldable pub is_due : Time → DatabaseBackupPolicy → Bool
is_due now p = p.enabled && is_reached now p.next_scheduled_at

unfoldable pub due_before : DatabaseBackupPolicy → DatabaseBackupPolicy → Bool
due_before a b =
    stamp_lt a.next_scheduled_at b.next_scheduled_at
    || not (stamp_lt b.next_scheduled_at a.next_scheduled_at)
      && lex_lt (codes a.database_instance_id) (codes b.database_instance_id)

-- The ids are read first, and each policy again by its id.
unfoldable pub get_policies : List String → BackupDb → Result (List DatabaseBackupPolicy)
get_policies [] db = ok []
get_policies (id ∷ ids) db = do
  p ← get_database_backup_policy id db
  ps ← get_policies ids db
  ok (p ∷ ps)

unfoldable pub due_ids : Time → ℤ → BackupDb → List String
due_ids now limit db =
    map policy_id_of
      (take (clamp_limit 100 limit) (order_by due_before (filter_rows (is_due now) db.policies)))

unfoldable pub list_due_database_backup_policies :
    Time → ℤ → BackupDb → Result (List DatabaseBackupPolicy)
list_due_database_backup_policies now limit db = get_policies (due_ids now limit db) db

unfoldable pub mark_advanced :
    Option Time → Option Time → Time → DatabaseBackupPolicy → DatabaseBackupPolicy
mark_advanced last next now p = record p {
  last_scheduled_at = format_optional_time last;
  next_scheduled_at = format_optional_time next;
  updated_at = whole_second now;
}

unfoldable pub advance_database_backup_policy_schedule :
    String → Option Time → Option Time → Time → BackupDb → Result BackupDb
advance_database_backup_policy_schedule raw_id last next now db = do
  let id = trim_space raw_id
  guard (exists_where (has_key policy_id_of id) db.policies) no_rows
  ok (record db {
    policies = update_where (has_key policy_id_of id) (mark_advanced last next now) db.policies;
  })

-- The WHERE of ListExpiredDatabaseBackups.
unfoldable pub is_expired : Time → List DatabaseRestoreJob → DatabaseBackup → Bool
is_expired now jobs b =
    backup_stored b.status
    && is_reached now b.expires_at
    && not (exists_where (refers_to b.id) jobs)

unfoldable pub expires_before : DatabaseBackup → DatabaseBackup → Bool
expires_before a b =
    stamp_lt a.expires_at b.expires_at
    || not (stamp_lt b.expires_at a.expires_at) && lex_lt (codes a.id) (codes b.id)

unfoldable pub list_expired_database_backups : Time → ℤ → BackupDb → List DatabaseBackup
list_expired_database_backups now limit db =
    take (clamp_limit 100 limit)
      (order_by expires_before (filter_rows (is_expired now db.restore_jobs) db.backups))
