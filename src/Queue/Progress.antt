-- ===== src/Queue/Progress.antt =====
-- What a database handler reports while it works: UpdateDatabaseOperation of
-- internal/repository/database_services.go. It names the row by its id alone.
use host_forge.Base.{ℕ, String, Option, none, some, not, ◌&&◌, if◌then◌else◌, leb, exists_where}
use host_forge.Base.Int.{ℤ, pos, negsuc}
use host_forge.Base.Text.{trim_space, lowers_to}
use host_forge.Sql.{
  update_where, find_where, Result, ok, no_rows, invalid_input, constraint, guard, require, ◌>>=◌,
  ◌>>◌,
}
use host_forge.Clock.{Time, Stamp, empty, whole_second}
use host_forge.Queue.Rows.{OpStatus, Operation, DatabaseOperation, Db, is_running, is_terminal}
use host_forge.Queue.Enqueue.{has_id}
use host_forge.Queue.Lease.{is_set, database_has_id}

-- The CHECK, on `strings.ToLower(strings.TrimSpace(status))`.
unfoldable pub parse_lowered_status : String → Option OpStatus
parse_lowered_status raw =
    let s = trim_space raw in
    if lowers_to s "queued"
    then some OpStatus.queued
    else if lowers_to s "running"
    then some OpStatus.running
    else if lowers_to s "success"
    then some OpStatus.success
    else if lowers_to s "failed"
    then some OpStatus.failed
    else if lowers_to s "cancelled"
    then some OpStatus.cancelled
    else none

abbrev pub percent : ℤ → Option ℕ
percent (pos n) = if leb n 100 then some n else none
percent (negsuc n) = none

-- The values that both UPDATEs bind.
pub record ProgressUpdate : Type 0 where
  pub status : OpStatus
  pub progress_step : String
  pub progress_percent : ℕ
  pub error_code : String
  pub error_message : String
  pub stamp : Stamp

abbrev pub started_by : ProgressUpdate → Stamp → Stamp
started_by u started = if is_running u.status && not (is_set started) then u.stamp else started

abbrev pub completed_by : ProgressUpdate → Stamp → Stamp
completed_by u completed = if is_terminal u.status then u.stamp else completed

unfoldable pub mark_progress : ProgressUpdate → Operation → Operation
mark_progress u o = record o {
  status = u.status;
  progress_step = u.progress_step;
  progress_percent = u.progress_percent;
  error_code = u.error_code;
  error_message = u.error_message;
  started_at = started_by u o.started_at;
  completed_at = completed_by u o.completed_at;
  lease_owner = if is_terminal u.status then "" else o.lease_owner;
  lease_expires_at = if is_terminal u.status then empty else o.lease_expires_at;
  updated_at = u.stamp;
}

unfoldable pub mark_database_progress : ProgressUpdate → DatabaseOperation → DatabaseOperation
mark_database_progress u d = record d {
  status = u.status;
  progress_step = u.progress_step;
  progress_percent = u.progress_percent;
  error_code = u.error_code;
  error_message = u.error_message;
  started_at = started_by u d.started_at;
  completed_at = completed_by u d.completed_at;
  lease_owner = if is_terminal u.status then "" else d.lease_owner;
  lease_expires_at = if is_terminal u.status then empty else d.lease_expires_at;
  updated_at = u.stamp;
}

pub record ProgressReport : Type 0 where
  pub id : String
  pub status : String
  pub progress_step : String
  pub progress : ℤ
  pub error_code : String
  pub error_message : String

unfoldable pub progress_update : ProgressReport → OpStatus → ℕ → Time → ProgressUpdate
progress_update r status progress now = record {
  status = status;
  progress_step = trim_space r.progress_step;
  progress_percent = progress;
  error_code = trim_space r.error_code;
  error_message = trim_space r.error_message;
  stamp = whole_second now;
}

-- Both UPDATEs. That of operations may meet no row, that of database_operations must meet one.
unfoldable pub write_progress : String → ProgressUpdate → Db → Db
write_progress id u db = record db {
  database_operations =
      update_where (database_has_id id) (mark_database_progress u) db.database_operations;
  operations = update_where (has_id id) (mark_progress u) db.operations;
}

unfoldable pub get_database_operation : String → Db → Result DatabaseOperation
get_database_operation id db =
    require no_rows (find_where (database_has_id (trim_space id)) db.database_operations)

-- The CHECK on the status is met on a row that is written. The row is read back after the commit.
unfoldable pub update_database_operation :
    ProgressReport → Time → Db → Result (Result DatabaseOperation × Db)
update_database_operation r now db = do
  progress ← require invalid_input (percent r.progress)
  guard (exists_where (database_has_id (trim_space r.id)) db.database_operations) no_rows
  status ← require constraint (parse_lowered_status r.status)
  let db' = write_progress (trim_space r.id) (progress_update r status progress now) db
  ok (get_database_operation r.id db', db')
