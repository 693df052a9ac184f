-- ===== src/Backups/Records.antt =====
-- Reading and changing rows of database_backups and database_backup_policies, and the jobs of
-- restores: internal/repository/database_backups.go.
use host_forge.Base.{
  ℕ, String, Option, none, some, List, take, Bool, false, not, ◌&&◌, ◌||◌, ◌==◌, if◌then◌else◌, eqb,
  leb, exists_where,
}
use host_forge.Base.Int.{ℤ, pos, negsuc}
use host_forge.Base.Text.{trim_space, lex_lt, codes}
use host_forge.Sql.{
  update_where, count_where, find_where, first_row, filter_rows, delete_where, order_by, Result, ok,
  err, no_rows, invalid_input, constraint, in_use, unavailable, guard, require, ◌>>=◌, ◌>>◌,
}
use host_forge.Sql.Keys.{has_key}
use host_forge.Clock.{Time, whole_second, stamp_lt}
use host_forge.Backups.Rows.{
  DatabaseBackup, DatabaseRestoreJob, BackupStatus, RestoreStatus, BackupDb, parse_restore_status,
  backup_queued, backup_success, backup_active, backup_stored, backup_removable, backup_id_of,
  is_empty,
}

-- A limit of the caller's, or the default where it is out of range.
unfoldable pub clamp_limit : ℕ → ℤ → ℕ
clamp_limit default (negsuc n) = default
clamp_limit default (pos n) = if eqb n 0 || not (leb n 200) then default else n

unfoldable pub get_database_backup : String → BackupDb → Result DatabaseBackup
get_database_backup id db =
    require no_rows (find_where (has_key backup_id_of (trim_space id)) db.backups)

unfoldable pub get_database_backup_by_operation_id : String → BackupDb → Result DatabaseBackup
get_database_backup_by_operation_id operation_id db = require no_rows (
    find_where (λ b. elim b.operation_id [ none ↦ false | some o ↦ o == trim_space operation_id ])
      db.backups)

-- WHERE database_instance_id=?
unfoldable pub is_backup_of : String → DatabaseBackup → Bool
is_backup_of instance_id b = elim b.database_instance_id [
  | none ↦ false
  | some i ↦ i == trim_space instance_id
]

-- ORDER BY created_at,id
unfoldable pub older : DatabaseBackup → DatabaseBackup → Bool
older a b =
    stamp_lt a.created_at b.created_at
    || not (stamp_lt b.created_at a.created_at) && lex_lt (codes a.id) (codes b.id)

unfoldable pub get_queued_database_backup : String → BackupDb → Result DatabaseBackup
get_queued_database_backup instance_id db = require no_rows (
    first_row older
      (filter_rows (λ b. is_backup_of instance_id b && backup_queued b.status) db.backups))

unfoldable pub list_database_backups : String → ℤ → BackupDb → List DatabaseBackup
list_database_backups instance_id limit db =
    take (clamp_limit 50 limit)
      (order_by (λ a b. older b a) (filter_rows (is_backup_of instance_id) db.backups))

-- ORDER BY completed_at DESC,created_at DESC,id DESC
unfoldable pub completed_later : DatabaseBackup → DatabaseBackup → Bool
completed_later a b =
    stamp_lt b.completed_at a.completed_at
    || not (stamp_lt a.completed_at b.completed_at) && older b a

unfoldable pub latest_successful_database_backup : String → BackupDb → Result DatabaseBackup
latest_successful_database_backup instance_id db = do
  latest ← require no_rows (
      first_row completed_later
        (filter_rows (λ b. is_backup_of instance_id b && backup_success b.status) db.backups))
  get_database_backup latest.id db

pub record CompleteDatabaseBackupInput : Type 0 where
  pub status : String
  pub object_key : String
  pub archive_format : String
  pub checksum : String
  pub encryption_algorithm : String
  pub error_code : String
  pub error_message : String
  pub compressed_size : ℤ
  pub encrypted_data_key : List ℕ

unfoldable pub parse_completion : String → Option BackupStatus
parse_completion s =
    if s == "success"
    then some BackupStatus.success
    else if s == "failed"
    then some BackupStatus.failed
    else if s == "cancelled"
    then some BackupStatus.cancelled
    else none

-- CHECK(compressed_size >= 0)
abbrev check_size : ℤ → Result ℕ
check_size (pos n) = ok n
check_size (negsuc n) = err constraint

unfoldable pub mark_backup_completed :
    CompleteDatabaseBackupInput → BackupStatus → ℕ → Time → DatabaseBackup → DatabaseBackup
mark_backup_completed in' status size now b = record b {
  status = status;
  object_key = trim_space in'.object_key;
  archive_format = trim_space in'.archive_format;
  checksum = trim_space in'.checksum;
  compressed_size = size;
  encryption_algorithm = trim_space in'.encryption_algorithm;
  encrypted_data_key = in'.encrypted_data_key;
  error_code = trim_space in'.error_code;
  error_message = trim_space in'.error_message;
  completed_at = whole_second now;
  updated_at = whole_second now;
}

-- Whatever status the row has: the UPDATE names only its id. A CHECK is met on a row that is written.
unfoldable pub complete_database_backup :
    String
    → CompleteDatabaseBackupInput
    → Time
    → BackupDb
    → Result (Result DatabaseBackup × BackupDb)
complete_database_backup raw_id in' now db = do
  status ← require invalid_input (parse_completion in'.status)
  let id = trim_space raw_id
  guard (exists_where (has_key backup_id_of id) db.backups) no_rows
  size ← check_size in'.compressed_size
  let db' = record db {
    backups =
        update_where (has_key backup_id_of id) (mark_backup_completed in' status size now)
          db.backups;
  }
  ok (get_database_backup raw_id db', db')

unfoldable pub mark_backup_running : Time → DatabaseBackup → DatabaseBackup
mark_backup_running now b = record b {
  status = BackupStatus.running;
  started_at = if is_empty b.started_at then whole_second now else b.started_at;
  updated_at = whole_second now;
}

abbrev pub is_waiting : String → DatabaseBackup → Bool
is_waiting id b = (b.id == id) && backup_queued b.status

unfoldable pub mark_database_backup_running : String → Time → BackupDb → Result BackupDb
mark_database_backup_running raw_id now db = do
  let id = trim_space raw_id
  guard (eqb (count_where (is_waiting id) db.backups) 1) no_rows
  ok (record db { backups = update_where (is_waiting id) (mark_backup_running now) db.backups })

unfoldable pub mark_deleting : Time → DatabaseBackup → DatabaseBackup
mark_deleting now b = record b { status = BackupStatus.deleting; updated_at = whole_second now }

abbrev pub is_stored : String → DatabaseBackup → Bool
is_stored id b = (b.id == id) && backup_stored b.status

-- No error where no row matches.
unfoldable pub mark_database_backup_deleting : String → Time → BackupDb → BackupDb
mark_database_backup_deleting id now db = record db {
  backups = update_where (is_stored (trim_space id)) (mark_deleting now) db.backups;
}

-- backup_id=? OR safety_backup_id=?
unfoldable pub refers_to : String → DatabaseRestoreJob → Bool
refers_to id j = (j.backup_id == id) || elim j.safety_backup_id [ none ↦ false | some s ↦ s == id ]

-- The backup as it is returned: its status follows the UPDATE, the time of it does not.
unfoldable pub prepare_stored : DatabaseBackup → Time → BackupDb → DatabaseBackup × BackupDb
prepare_stored b now db =
    if backup_success b.status
    then (record b { status = BackupStatus.deleting }, mark_database_backup_deleting b.id now db)
    else (b, db)

-- `seen` is what the backup is read from, `counted` what its references are counted in: the two SELECTs
-- and the UPDATE are no transaction.
unfoldable pub prepare_database_backup_deletion :
    String → Time → BackupDb → BackupDb → BackupDb → Result (DatabaseBackup × BackupDb)
prepare_database_backup_deletion id now seen counted db = do
  b ← get_database_backup id seen
  guard (not (backup_active b.status)) unavailable
  guard (eqb (count_where (refers_to b.id) counted.restore_jobs) 0) in_use
  let (b', db') = prepare_stored b now db
  guard (backup_removable b'.status) unavailable
  ok (b', db')

abbrev pub is_removable : String → DatabaseBackup → Bool
is_removable id b = (b.id == id) && backup_removable b.status

-- A job that refers to the row restricts the DELETE.
unfoldable pub delete_database_backup_record : String → BackupDb → Result BackupDb
delete_database_backup_record raw_id db = do
  let id = trim_space raw_id
  guard (eqb (count_where (is_removable id) db.backups) 1) no_rows
  guard (not (exists_where (refers_to id) db.restore_jobs)) constraint
  ok (record db { backups = delete_where (is_removable id) db.backups })

abbrev pub is_job : String → DatabaseRestoreJob → Bool
is_job operation_id j = j.operation_id == operation_id

unfoldable pub get_database_restore_job : String → BackupDb → Result DatabaseRestoreJob
get_database_restore_job operation_id db =
    require no_rows (find_where (is_job (trim_space operation_id)) db.restore_jobs)

unfoldable pub mark_job : RestoreStatus → Time → DatabaseRestoreJob → DatabaseRestoreJob
mark_job status now j = record j { status = status; updated_at = whole_second now }

-- No error where there is no such job.
unfoldable pub update_database_restore_job_status :
    String → String → Time → BackupDb → Result BackupDb
update_database_restore_job_status raw_id raw_status now db =
    let id = trim_space raw_id in
    if exists_where (is_job id) db.restore_jobs
    then (do
      status ← require constraint (parse_restore_status (trim_space raw_status))
      ok (record db {
        restore_jobs = update_where (is_job id) (mark_job status now) db.restore_jobs;
      }))
    else ok db
