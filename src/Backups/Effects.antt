-- ===== src/Backups/Effects.antt =====
-- What one command may do to the backup tables, as a step relation.
pub mod Destinations
pub mod Queueing
pub mod Records
pub mod Steps
use host_forge.Base.{
  String, Option, none, some, List, [], ◌∷◌, ◌++◌, Bool, true, false, ◌&&◌, ◌≡◌, ◌==◌, ◌<◌, ◌-◌, ℕ,
  exists_where,
}
use host_forge.Base.Int.{ℤ, pos}
use host_forge.Sql.{update_where, delete_where, count_where}
use host_forge.Sql.Keys.{has_key}
use host_forge.Clock.{Time, whole_second}
use host_forge.Queue.Rows.{DatabaseOperation, Db}
use host_forge.Backups.Rows.{
  BackupDestinationSealed, DatabaseBackup, DatabaseBackupPolicy, DatabaseRestoreJob, BackupDb,
  destination_id_of, backup_id_of, policy_id_of,
}
use host_forge.Backups.Destinations.{is_stored_at, forget_destination}
use host_forge.Backups.Records.{refers_to}
use host_forge.Backups.Transfers.{hour, is_recent_transfer}

abbrev pub has_destination : List BackupDestinationSealed → String → Bool
has_destination ds id = exists_where (has_key destination_id_of id) ds

abbrev pub has_backup_row : List DatabaseBackup → String → Bool
has_backup_row bs id = exists_where (has_key backup_id_of id) bs

unfoldable pub optional : (String → Bool) → Option String → Bool
optional p none = true
optional p (some s) = p s

-- The foreign keys of a job to its backups, and of a backup to its destination.
unfoldable pub job_known : List DatabaseBackup → DatabaseRestoreJob → Bool
job_known bs j = has_backup_row bs j.backup_id && optional (has_backup_row bs) j.safety_backup_id

unfoldable pub backup_known : List BackupDestinationSealed → DatabaseBackup → Bool
backup_known ds b = optional (has_destination ds) b.destination_id

unfoldable pub policy_known : List BackupDestinationSealed → DatabaseBackupPolicy → Bool
policy_known ds p = has_destination ds p.destination_id

-- A transaction that queues a transfer at `now`, with fewer than `max` of the last hour before it.
pub record Transfers (max : ℤ) (now : Time) (op : DatabaseOperation) (q q' : Db) : Type 0 where
  pub operations : q'.database_operations ≡ q.database_operations ++ (op ∷ [])
  pub created : op.created_at ≡ whole_second now
  pub allowed :
      (n : ℕ) × (max ≡ pos n)
      × (count_where (is_recent_transfer (whole_second (now - hour))) q.database_operations < n)

-- `max` is the command's limit on transfers, of which the others make no use.
pub data Effect (max : ℤ) (db db' : BackupDb) : Type 0 where
  stays : db' ≡ db → Effect max db db'
  adds_destination :
      (d : BackupDestinationSealed)
      → db' ≡ record db { destinations = db.destinations ++ (d ∷ []) }
      → Effect max db db'
  edits_destinations :
      (p : BackupDestinationSealed → Bool) (f : BackupDestinationSealed → BackupDestinationSealed)
      → ((d : BackupDestinationSealed) → (f d).shown.id ≡ d.shown.id)
      → db' ≡ record db { destinations = update_where p f db.destinations }
      → Effect max db db'
  drops_destination :
      (id : String)
      → exists_where (λ (p : DatabaseBackupPolicy). p.destination_id == id) db.policies ≡ false
      → db' ≡ record db {
        destinations = delete_where (has_key destination_id_of id) db.destinations;
        backups = update_where (is_stored_at id) forget_destination db.backups;
      }
      → Effect max db db'
  adds_policy :
      (p : DatabaseBackupPolicy)
      → policy_known db.destinations p ≡ true
      → db' ≡ record db { policies = db.policies ++ (p ∷ []) }
      → Effect max db db'
  edits_policies :
      (p : DatabaseBackupPolicy → Bool) (f : DatabaseBackupPolicy → DatabaseBackupPolicy)
      → ((q : DatabaseBackupPolicy)
          → policy_known db.destinations q ≡ true
          → policy_known db.destinations (f q) ≡ true)
      → db' ≡ record db { policies = update_where p f db.policies }
      → Effect max db db'
  adds_backup :
      (now : Time) (op : DatabaseOperation) (b : DatabaseBackup) (q : Db)
      → Transfers max now op db.queue q
      → has_backup_row db.backups b.id ≡ false
      → backup_known db.destinations b ≡ true
      → db' ≡ record db { queue = q; backups = db.backups ++ (b ∷ []) }
      → Effect max db db'
  adds_job :
      (now : Time) (op : DatabaseOperation) (j : DatabaseRestoreJob) (q : Db)
      → Transfers max now op db.queue q
      → job_known db.backups j ≡ true
      → db' ≡ record db { queue = q; restore_jobs = db.restore_jobs ++ (j ∷ []) }
      → Effect max db db'
  edits_backups :
      (p : DatabaseBackup → Bool) (f : DatabaseBackup → DatabaseBackup)
      → ((b : DatabaseBackup) → (f b).id ≡ b.id)
      → ((b : DatabaseBackup) → (f b).destination_id ≡ b.destination_id)
      → db' ≡ record db { backups = update_where p f db.backups }
      → Effect max db db'
  drops_backup :
      (id : String) (p : DatabaseBackup → Bool)
      → ((b : DatabaseBackup) → p b ≡ true → b.id ≡ id)
      → exists_where (refers_to id) db.restore_jobs ≡ false
      → db' ≡ record db { backups = delete_where p db.backups }
      → Effect max db db'
  edits_jobs :
      (p : DatabaseRestoreJob → Bool) (f : DatabaseRestoreJob → DatabaseRestoreJob)
      → ((bs : List DatabaseBackup) (j : DatabaseRestoreJob) → job_known bs (f j) ≡ job_known bs j)
      → db' ≡ record db { restore_jobs = update_where p f db.restore_jobs }
      → Effect max db db'
