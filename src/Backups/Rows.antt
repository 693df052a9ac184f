-- ===== src/Backups/Rows.antt =====
-- The rows that database backups are about: internal/repository/database_backups.go, with the CHECKs
-- and keys of internal/database/migrations/0021_database_services_foundation.sql.
-- The tables that the queue also reads keep here the columns that the backups need.
use host_forge.Base.{ℕ, String, Option, none, some, List, Bool, true, false, ◌==◌, if◌then◌else◌}
use host_forge.Clock.{Stamp, empty, at}
use host_forge.Queue.Rows.{Db}

pub data Provider : Type 0 where
  r2 s3 : Provider

pub record BackupDestination : Type 0 where
  pub id : String
  pub name : String
  pub provider : Provider
  pub endpoint : String
  pub region : String
  pub bucket : String
  pub object_prefix : String
  pub path_style : Bool
  pub server_side_encryption : String
  pub sse_kms_key_id : String
  pub last_test_status : String
  pub last_test_message : String
  pub last_tested_at : Stamp
  pub created_at : Stamp
  pub updated_at : Stamp

-- A row of backup_destinations: what is shown, and the sealed keys.
pub record BackupDestinationSealed : Type 0 where
  pub shown : BackupDestination
  pub access_key_ct : List ℕ
  pub secret_key_ct : List ℕ

pub record DatabaseBackupPolicy : Type 0 where
  pub database_instance_id : String
  pub destination_id : String
  pub enabled : Bool
  pub schedule : String
  pub timezone : String
  pub retention_days : ℕ
  pub last_scheduled_at : Stamp
  pub next_scheduled_at : Stamp
  pub created_at : Stamp
  pub updated_at : Stamp

pub data BackupStatus : Type 0 where
  queued running success failed cancelled deleting : BackupStatus

abbrev pub backup_queued : BackupStatus → Bool
backup_queued BackupStatus.queued = true
backup_queued _ = false

abbrev pub backup_success : BackupStatus → Bool
backup_success BackupStatus.success = true
backup_success _ = false

-- status IN ('queued','running')
abbrev pub backup_active : BackupStatus → Bool
backup_active BackupStatus.queued = true
backup_active BackupStatus.running = true
backup_active _ = false

-- status IN ('success','deleting')
abbrev pub backup_stored : BackupStatus → Bool
backup_stored BackupStatus.success = true
backup_stored BackupStatus.deleting = true
backup_stored _ = false

-- status IN ('deleting','failed','cancelled')
abbrev pub backup_removable : BackupStatus → Bool
backup_removable BackupStatus.deleting = true
backup_removable BackupStatus.failed = true
backup_removable BackupStatus.cancelled = true
backup_removable _ = false

-- status IN ('queued','running','success','deleting')
abbrev pub backup_retained : BackupStatus → Bool
backup_retained BackupStatus.failed = false
backup_retained BackupStatus.cancelled = false
backup_retained _ = true

pub record DatabaseBackup : Type 0 where
  pub id : String
  pub operation_id : Option String
  pub database_instance_id : Option String
  pub destination_id : Option String
  pub status : BackupStatus
  pub trigger_kind : String
  pub object_key : String
  pub archive_format : String
  pub checksum : String
  pub compressed_size : ℕ
  pub engine : String
  pub database_name : String
  pub engine_version : String
  pub encryption_algorithm : String
  pub encrypted_data_key : List ℕ
  pub error_code : String
  pub error_message : String
  pub started_at : Stamp
  pub completed_at : Stamp
  pub expires_at : Stamp
  pub created_at : Stamp
  pub updated_at : Stamp

-- sql.NullString, scanned: NULL reads as the empty text.
abbrev pub null_string : Option String → String
null_string none = ""
null_string (some s) = s

pub data RestoreMode : Type 0 where
  new_service replace_current : RestoreMode

pub data RestoreStatus : Type 0 where
  queued running success failed : RestoreStatus

-- The CHECK on database_restore_jobs.status.
unfoldable pub parse_restore_status : String → Option RestoreStatus
parse_restore_status s =
    if s == "queued"
    then some RestoreStatus.queued
    else if s == "running"
    then some RestoreStatus.running
    else if s == "success"
    then some RestoreStatus.success
    else if s == "failed"
    then some RestoreStatus.failed
    else none

pub record DatabaseRestoreJob : Type 0 where
  pub operation_id : String
  pub backup_id : String
  pub target_instance_id : String
  pub safety_backup_id : Option String
  pub mode : RestoreMode
  pub status : RestoreStatus
  pub created_at : Stamp
  pub updated_at : Stamp

-- The columns of database_instances that a backup or a restore asks for. `deleted_at` is empty while
-- the instance lives.
pub record DatabaseInstance : Type 0 where
  pub id : String
  pub service_id : String
  pub engine_version : String
  pub docker_container_id : String
  pub desired_state : String
  pub status : String
  pub deleted_at : Stamp

pub record DatabaseService : Type 0 where
  pub service_id : String
  pub engine : String

pub record DatabaseCredential : Type 0 where
  pub database_instance_id : String
  pub database_name : String

-- `queue` has its own copy of the columns of backups and restore jobs that recovery writes; no recovery
-- is among what is done to this database.
pub record BackupDb : Type 0 where
  pub queue : Db
  pub destinations : List BackupDestinationSealed
  pub policies : List DatabaseBackupPolicy
  pub backups : List DatabaseBackup
  pub restore_jobs : List DatabaseRestoreJob
  pub instances : List DatabaseInstance
  pub database_services : List DatabaseService
  pub credentials : List DatabaseCredential

abbrev pub is_empty : Stamp → Bool
is_empty empty = true
is_empty (at t) = false

abbrev pub destination_id_of : BackupDestinationSealed → String
destination_id_of d = d.shown.id

abbrev pub backup_id_of : DatabaseBackup → String
backup_id_of b = b.id

abbrev pub policy_id_of : DatabaseBackupPolicy → String
policy_id_of p = p.database_instance_id
