-- ===== src/Backups/Loops.antt =====
-- One pass of each background loop: purgeExpiredDatabaseBackups and queueDueDatabaseBackups of
-- internal/services/database_backup_schedule.go.
use host_forge.Base.{String, Option, none, some, List, [], ◌∷◌, Bool, if◌then◌else◌}
use host_forge.Base.Int.{ℤ, pos}
use host_forge.Sql.{Result, ok, err}
use host_forge.Clock.{Time}
use host_forge.Backups.Rows.{
  BackupDestinationSealed, DatabaseBackup, DatabaseBackupPolicy, BackupDb, null_string,
}
use host_forge.Backups.Destinations.{get_backup_destination_sealed}
use host_forge.Backups.Records.{mark_database_backup_deleting, delete_database_backup_record}
use host_forge.Backups.Policies.{
  list_due_database_backup_policies, list_expired_database_backups,
  advance_database_backup_policy_schedule,
}
use host_forge.Backups.Transfers.{Draw, BackupRequest, queue_database_backup}

abbrev pub or_same : BackupDb → Result BackupDb → BackupDb
or_same db (ok db') = db'
or_same db (err e) = db

-- `opens` tells whether the sealed keys open and a client can be made, `deletes` whether the object
-- store deletes an object.
module _ (opens : BackupDestinationSealed → Bool)
    (deletes : BackupDestinationSealed → String → Bool) (now : Time) where
  unfoldable pub purge_from : Result BackupDestinationSealed → DatabaseBackup → BackupDb → BackupDb
  purge_from (err e) b db = db
  purge_from (ok destination) b db =
      let marked = mark_database_backup_deleting b.id now db in
      if opens destination
      then (if deletes destination b.object_key
          then or_same marked (delete_database_backup_record b.id marked)
          else marked)
      else db

  unfoldable pub purge_one : DatabaseBackup → BackupDb → BackupDb
  purge_one b db = purge_from (get_backup_destination_sealed (null_string b.destination_id) db) b db

  unfoldable pub purge_each : List DatabaseBackup → BackupDb → BackupDb
  purge_each [] db = db
  purge_each (b ∷ bs) db = purge_each bs (purge_one b db)

  unfoldable pub purge_expired_database_backups : BackupDb → BackupDb
  purge_expired_database_backups db = purge_each (list_expired_database_backups now (pos 100) db) db

-- `next_schedule` is NextDatabaseBackupSchedule, none for its errors; `draw` gives what newID() and
-- time.Now() come to while a policy's backup is queued.
module _ (next_schedule : String → String → Time → Option Time) (draw : String → Draw) (now : Time)
    (max_transfers_per_hour : ℤ) where
  unfoldable pub scheduled_request : DatabaseBackupPolicy → BackupRequest
  scheduled_request p = record {
    instance_id = p.database_instance_id;
    destination_id = p.destination_id;
    trigger_kind = "scheduled";
    actor = "scheduler";
    retention_days = pos p.retention_days;
    max_transfers_per_hour = max_transfers_per_hour;
  }

  -- A backup that is not queued leaves the policy due, for the next pass.
  unfoldable pub after_queueing :
      DatabaseBackupPolicy → Time → BackupDb → Result BackupDb → BackupDb
  after_queueing p next db (err e) = db
  after_queueing p next db (ok db') = or_same db' (
      advance_database_backup_policy_schedule p.database_instance_id (some now) (some next)
        (draw p.database_instance_id).now db')

  unfoldable pub queue_due_at : DatabaseBackupPolicy → Option Time → BackupDb → BackupDb
  queue_due_at p none db = db
  queue_due_at p (some next) db =
      after_queueing p next db
        (queue_database_backup (draw p.database_instance_id) (scheduled_request p) db)

  unfoldable pub queue_each : List DatabaseBackupPolicy → BackupDb → BackupDb
  queue_each [] db = db
  queue_each (p ∷ ps) db =
      queue_each ps (queue_due_at p (next_schedule p.schedule p.timezone now) db)

  unfoldable pub queue_listed : Result (List DatabaseBackupPolicy) → BackupDb → BackupDb
  queue_listed (err e) db = db
  queue_listed (ok ps) db = queue_each ps db

  unfoldable pub queue_due_database_backups : BackupDb → BackupDb
  queue_due_database_backups db =
      queue_listed (list_due_database_backup_policies now (pos 100) db) db
