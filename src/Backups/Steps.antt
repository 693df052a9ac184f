-- ===== src/Backups/Steps.antt =====
-- The writers of the backup tables, as commands, and runs of them in any order. Handlers, workers and
-- the two loops interleave between statements: a backup or a restore is queued from what was read in
-- an earlier state, `seen`, which need not be the one that the transaction finds.
use host_forge.Base.{String, Option, List, [], ◌∷◌, Bool}
use host_forge.Base.Int.{ℤ}
use host_forge.Sql.{Result, ok, err, ◌>>=◌}
use host_forge.Clock.{Time}
use host_forge.Queue.Rows.{DatabaseOperation}
use host_forge.Backups.Rows.{BackupDb, DatabaseBackup, DatabaseRestoreJob}
use host_forge.Backups.Destinations.{
  CreateBackupDestinationInput, create_backup_destination, update_backup_destination,
  update_backup_destination_test, delete_backup_destination,
}
use host_forge.Backups.Records.{
  CompleteDatabaseBackupInput, complete_database_backup, mark_database_backup_running,
  mark_database_backup_deleting, prepare_database_backup_deletion, delete_database_backup_record,
  update_database_restore_job_status,
}
use host_forge.Backups.Policies.{
  upsert_database_backup_policy, advance_database_backup_policy_schedule,
}
use host_forge.Backups.Transfers.{
  Draw, BackupRequest, RestoreRequest, plan_backup, plan_restore, commit_backup, commit_restore,
}
use host_forge.Backups.Loops.{or_same}

pub data Command : Type 0 where
  creates_destination : String → CreateBackupDestinationInput → Time → Command
  updates_destination : String → CreateBackupDestinationInput → Time → Command
  tests_destination : String → String → String → Time → Command
  -- The databases are what the call has read before.
  deletes_destination : String → BackupDb → Command
  upserts_policy : String → String → Bool → String → String → ℤ → Option Time → Time → Command
  advances_policy : String → Option Time → Option Time → Time → Command
  queues_backup : Draw → BackupRequest → BackupDb → Command
  queues_restore : Draw → RestoreRequest → BackupDb → Command
  completes_backup : String → CompleteDatabaseBackupInput → Time → Command
  starts_backup : String → Time → Command
  marks_deleting : String → Time → Command
  prepares_deletion : String → Time → BackupDb → BackupDb → Command
  deletes_record : String → Command
  updates_job : String → String → Time → Command

abbrev pub snd_or {ℓ} : {A : Type ℓ} → BackupDb → Result (A × BackupDb) → BackupDb
snd_or db (ok (a, db')) = db'
snd_or db (err e) = db

unfoldable pub commit_planned_backup :
    Draw → BackupRequest → Result (DatabaseOperation × DatabaseBackup) → BackupDb → Result BackupDb
commit_planned_backup draw r plan db = do
  (op, b) ← plan
  commit_backup draw.now r.max_transfers_per_hour op b db

unfoldable pub commit_planned_restore :
    Draw
    → RestoreRequest
    → Result (DatabaseOperation × DatabaseRestoreJob)
    → BackupDb
    → Result BackupDb
commit_planned_restore draw r plan db = do
  (op, j) ← plan
  commit_restore draw.now r.max_transfers_per_hour op j db

unfoldable pub step : Command → BackupDb → BackupDb
step (creates_destination fresh in' now) db = snd_or db (create_backup_destination fresh in' now db)
step (updates_destination id in' now) db = snd_or db (update_backup_destination id in' now db)
step (tests_destination id status message now) db =
    snd_or db (update_backup_destination_test id status message now db)
step (deletes_destination id seen) db = or_same db (delete_backup_destination id seen db)
step (upserts_policy i d enabled schedule timezone days next now) db =
    snd_or db (upsert_database_backup_policy i d enabled schedule timezone days next now db)
step (advances_policy i last next now) db =
    or_same db (advance_database_backup_policy_schedule i last next now db)
step (queues_backup draw r seen) db =
    or_same db (commit_planned_backup draw r (plan_backup draw r seen) db)
step (queues_restore draw r seen) db =
    or_same db (commit_planned_restore draw r (plan_restore draw r seen) db)
step (completes_backup id in' now) db = snd_or db (complete_database_backup id in' now db)
step (starts_backup id now) db = or_same db (mark_database_backup_running id now db)
step (marks_deleting id now) db = mark_database_backup_deleting id now db
step (prepares_deletion id now seen counted) db =
    snd_or db (prepare_database_backup_deletion id now seen counted db)
step (deletes_record id) db = or_same db (delete_database_backup_record id db)
step (updates_job id status now) db =
    or_same db (update_database_restore_job_status id status now db)

unfoldable pub run : List Command → BackupDb → BackupDb
run [] db = db
run (c ∷ cs) db = run cs (step c db)
