-- ===== src/Queue/Lease.antt =====
-- What a lease holder does: RenewOperationLease, DeferOperation and CompleteOperation of
-- internal/repository/operations.go.
use host_forge.Base.{
  ℕ, ◌+◌, ◌-◌, String, Option, none, some, Bool, true, false, ◌&&◌, ◌==◌, if◌then◌else◌, eqb,
}
use host_forge.Base.Text.{trim_space}
use host_forge.Sql.{
  update_where, count_where, find_where, Result, ok, err, no_rows, invalid_input, ◌>>=◌,
}
use host_forge.Clock.{Time, Stamp, empty, at}
use host_forge.Queue.Rows.{
  OpStatus, parse_status, Operation, DatabaseOperation, Db, is_running, is_success, is_terminal,
}
use host_forge.Queue.Deploys.{project_deploy_defer, project_deploy_complete}
use host_forge.Queue.Enqueue.{has_id}

-- WHERE id=? AND status='running' AND lease_owner=?
abbrev pub is_held : String → String → Operation → Bool
is_held id owner o = (o.id == id) && is_running o.status && (o.lease_owner == owner)

abbrev pub database_has_id : String → DatabaseOperation → Bool
database_has_id id d = d.id == id

-- The guarded UPDATE of operations and the UPDATE of database_operations that goes with it.
unfoldable pub update_held :
    String
    → String
    → (Operation → Operation)
    → (DatabaseOperation → DatabaseOperation)
    → Db
    → Result Db
update_held id owner f g db =
    if eqb (count_where (is_held id owner) db.operations) 1
    then ok (record db {
      operations = update_where (is_held id owner) f db.operations;
      database_operations = update_where (database_has_id id) g db.database_operations;
    })
    else err no_rows

abbrev pub is_set : Stamp → Bool
is_set empty = false
is_set (at t) = true

-- SELECT cancel_requested_at FROM operations WHERE id=?
abbrev pub cancel_flag : Option Operation → Result Bool
cancel_flag none = err no_rows
cancel_flag (some o) = ok (is_set o.cancel_requested_at)

unfoldable pub renew_operation_lease : String → String → ℕ → Time → Db → Result (Bool × Db)
renew_operation_lease raw_id raw_owner lease now db =
    let id = trim_space raw_id in
    let owner = trim_space raw_owner in
    do
      db' ←
          update_held id owner
            (λ o. record o { lease_expires_at = at (now + lease); updated_at = at now })
            (λ d. record d { lease_expires_at = at (now + lease); updated_at = at now }) db
      requested ← cancel_flag (find_where (has_id id) db'.operations)
      ok (requested, db')

unfoldable pub mark_deferred : Time → Time → Operation → Operation
mark_deferred available now o = record o {
  status = OpStatus.queued;
  progress_step = "waiting";
  progress_percent = 0;
  available_at = at available;
  attempt = o.attempt - 1;
  lease_owner = "";
  lease_expires_at = empty;
  updated_at = at now;
}

unfoldable pub mark_database_deferred : Time → DatabaseOperation → DatabaseOperation
mark_database_deferred now d = record d {
  status = OpStatus.queued;
  progress_step = "waiting";
  progress_percent = 0;
  attempt_count = d.attempt_count - 1;
  lease_owner = "";
  lease_expires_at = empty;
  updated_at = at now;
}

-- `MAX(attempt-1,0)` is the subtraction of ℕ. A negative delay counts as none, so it is a number.
unfoldable pub defer_operation : String → String → ℕ → Time → Db → Result Db
defer_operation raw_id raw_owner retry_after now db =
    let id = trim_space raw_id in
    let owner = trim_space raw_owner in
    do
      db' ←
          update_held id owner (mark_deferred (now + retry_after) now) (mark_database_deferred now)
            db
      ok (project_deploy_defer id (at now) db')

pub record CompleteOperationInput : Type 0 where
  pub id : String
  pub owner : String
  pub status : String
  pub progress_step : String
  pub error_code : String
  pub error_message : String

unfoldable pub mark_completed : CompleteOperationInput → OpStatus → Time → Operation → Operation
mark_completed in' status now o = record o {
  status = status;
  progress_step = if in'.progress_step == "" then o.progress_step else in'.progress_step;
  progress_percent = if is_success status then 100 else o.progress_percent;
  error_code = trim_space in'.error_code;
  error_message = trim_space in'.error_message;
  completed_at = at now;
  lease_owner = "";
  lease_expires_at = empty;
  updated_at = at now;
}

unfoldable pub mark_database_completed :
    CompleteOperationInput → OpStatus → Time → DatabaseOperation → DatabaseOperation
mark_database_completed in' status now d = record d {
  status = status;
  progress_step = if in'.progress_step == "" then d.progress_step else in'.progress_step;
  progress_percent = if is_success status then 100 else d.progress_percent;
  error_code = trim_space in'.error_code;
  error_message = trim_space in'.error_message;
  completed_at = at now;
  lease_owner = "";
  lease_expires_at = empty;
  updated_at = at now;
}

-- Only the three terminal statuses pass.
abbrev pub terminal_only : Option OpStatus → Result OpStatus
terminal_only none = err invalid_input
terminal_only (some status) = if is_terminal status then ok status else err invalid_input

unfoldable pub complete_operation : CompleteOperationInput → Time → Db → Result Db
complete_operation in' now db = do
  status ← terminal_only (parse_status in'.status)
  db' ←
      update_held (trim_space in'.id) (trim_space in'.owner) (mark_completed in' status now)
        (mark_database_completed in' status now) db
  project_deploy_complete (trim_space in'.id) status (trim_space in'.error_message) (at now) db'
